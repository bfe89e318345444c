-- ===== src/Controller/Sleep/Cycle.antt =====
-- The life of a sleepy builder: uses, the passing of time, and the reconciliations, each of which
-- asks for the next one after thirty seconds.
use build_operator.Prelude.{◌≡◌, ◌⊎◌, inl, inr, arith}
use build_operator.Prelude.Int.{ℤ, pos, ◌+ℤ◌, ◌<ℤ◌, ◌≤ℤ◌, +ℤ_parts, IsInt32}
use build_operator.Kube.Meta.{Instant}
use build_operator.Controller.Sleep.{replicas_at}
use build_operator.Controller.Sleep.Deadline.{nanoseconds, replicas_at_iff, binary_at}

-- `RequeueAfter` of `reconcileSleepy`, in nanoseconds.
abbrev pub period : ℤ
period = pos 30000000000

-- The last use, the clock, the clock at the last reconciliation, and the replicas it asked for.
pub record Moment : Type 0 where
  pub last_used : Instant
  pub now : Instant
  pub seen : Instant
  pub replicas : ℤ

-- The builder is used when it is first reconciled.
abbrev pub begun : ℤ → Instant → Moment
begun idle_timeout n = record {
  last_used = n;
  now = n;
  seen = n;
  replicas = replicas_at idle_timeout n n;
}

abbrev pub reconciled_at : ℤ → Moment → Moment
reconciled_at idle_timeout m = record m {
  seen = m.now;
  replicas = replicas_at idle_timeout m.last_used m.now;
}

-- A client notes a use, time passes but not past the next reconciliation, or there is one.
pub data Step (idle_timeout : ℤ) : Moment → Moment → Type 0 where
  used : {m : Moment} → Step idle_timeout m (record m { last_used = m.now })
  passes :
      {m : Moment} (later : Instant)
      → m.now ≤ℤ later
      → later ≤ℤ m.seen +ℤ period
      → Step idle_timeout m (record m { now = later })
  reconciled : {m : Moment} → Step idle_timeout m (reconciled_at idle_timeout m)

pub data IsReachable (idle_timeout : ℤ) : Moment → Type 0 where
  first : (n : Instant) → IsReachable idle_timeout (begun idle_timeout n)
  next :
      {m after : Moment}
      → IsReachable idle_timeout m
      → Step idle_timeout m after
      → IsReachable idle_timeout after

-- What holds between any two steps.
record IsTimely (idle_timeout : ℤ) (m : Moment) : Type 0 where
  pub binary : (m.replicas ≡ pos 0) ⊎ (m.replicas ≡ pos 1)
  pub use_past : m.last_used ≤ℤ m.now
  pub seen_past : m.seen ≤ℤ m.now
  pub seen_lately : m.now ≤ℤ m.seen +ℤ period
  pub awake : m.replicas ≡ pos 1 → m.seen <ℤ m.last_used +ℤ nanoseconds idle_timeout
  pub asleep :
      m.replicas ≡ pos 0
      → (m.last_used +ℤ nanoseconds idle_timeout ≤ℤ m.seen) ⊎ (m.seen ≤ℤ m.last_used)

lately : (a : ℤ) → a ≤ℤ a +ℤ period
lately a = omega (arith, +ℤ_parts a period)

-- A reconciliation that sleeps has seen the timeout pass.
overdue : (t : ℤ) (u n : Instant) → IsInt32 t → replicas_at t u n ≡ pos 0 → u +ℤ nanoseconds t ≤ℤ n
overdue t u n h e = ground (arith, replicas_at_iff t u n h)

begun-IsTimely : (t : ℤ) (n : Instant) → IsInt32 t → IsTimely t (begun t n)
begun-IsTimely t n h = record {
  binary = binary_at t n n;
  use_past = omega arith;
  seen_past = omega arith;
  seen_lately = lately n;
  awake = λ e. (replicas_at_iff t n n h).0 e;
  asleep = λ e. inl (overdue t n n h e);
}

Step-IsTimely :
    (t : ℤ) {m after : Moment} → IsInt32 t → Step t m after → IsTimely t m → IsTimely t after
Step-IsTimely t {m = m} h used p =
    let x = p.use_past in
    let y = p.seen_past in
    record {
      binary = p.binary;
      use_past = omega arith;
      seen_past = y;
      seen_lately = p.seen_lately;
      awake = λ e.
          let z = p.awake e in
          omega (arith, +ℤ_parts m.last_used (nanoseconds t), +ℤ_parts m.now (nanoseconds t));
      asleep = λ e. inr y;
    }
Step-IsTimely t {m = m} h (passes later forth bound) p =
    let x = p.use_past in
    let y = p.seen_past in
    record {
      binary = p.binary;
      use_past = omega arith;
      seen_past = omega arith;
      seen_lately = bound;
      awake = p.awake;
      asleep = p.asleep;
    }
Step-IsTimely t {m = m} h reconciled p = record {
  binary = binary_at t m.last_used m.now;
  use_past = p.use_past;
  seen_past = omega arith;
  seen_lately = lately m.now;
  awake = λ e. (replicas_at_iff t m.last_used m.now h).0 e;
  asleep = λ e. inl (overdue t m.last_used m.now h e);
}

IsReachable-IsTimely : (t : ℤ) {m : Moment} → IsInt32 t → IsReachable t m → IsTimely t m
IsReachable-IsTimely t h (first n) = begun-IsTimely t n h
IsReachable-IsTimely t h (next r step) = Step-IsTimely t h step (IsReachable-IsTimely t h r)

-- What a client sees of the builder at a moment.
pub data IsServed (idle_timeout : ℤ) (m : Moment) : Type 0 where
  is_awake :
      m.replicas ≡ pos 1
      → m.now <ℤ m.last_used +ℤ nanoseconds idle_timeout +ℤ period
      → IsServed idle_timeout m
  is_asleep :
      m.replicas ≡ pos 0
      → m.last_used +ℤ nanoseconds idle_timeout ≤ℤ m.now
      → IsServed idle_timeout m
  is_waking : m.replicas ≡ pos 0 → m.now ≤ℤ m.last_used +ℤ period → IsServed idle_timeout m

-- For a timeout that is an int32, where a reconciliation follows each one within thirty seconds, at
-- every moment that uses, time and reconciliations lead to: the builder has one replica, and less
-- than its timeout and thirty seconds have passed since its last use; or it has none, and its
-- timeout has passed since then; or it has none, and its last use lies at most thirty seconds back.
pub reachable-IsServed :
    (idle_timeout : ℤ) {m : Moment}
    → IsInt32 idle_timeout
    → IsReachable idle_timeout m
    → IsServed idle_timeout m
reachable-IsServed t {m = m} h r =
    let p = IsReachable-IsTimely t h r in
    let late = p.seen_lately in
    let past = p.seen_past in
    let deadline = +ℤ_parts m.last_used (nanoseconds t) in
    let limit = +ℤ_parts (m.last_used +ℤ nanoseconds t) period in
    let due = +ℤ_parts m.seen period in
    let waking = +ℤ_parts m.last_used period in
    elim p.binary [
      | inl off ↦ elim (p.asleep off) [
        | inl over ↦ is_asleep off (omega arith)
        | inr behind ↦ is_waking off (omega arith)
      ]
      | inr on ↦ let z = p.awake on in is_awake on (omega arith)
    ]
