-- ===== src/Controller/Sleep/Deadline.antt =====
-- When a sleepy builder is scaled to zero.
use build_operator.Prelude.{ℕ, ◌+◌, ◌*◌, ◌≡◌, ◌↔◌, ◌⊎◌, arith, if◌then◌else◌}
use build_operator.Prelude.Int.{
  ℤ, pos, negsuc, pos_part, neg_part, ◌+ℤ◌, ◌-ℤ◌, ◌*ℤ◌, ◌<ℤ◌, ◌≤ℤ◌, ltb_ℤ, +ℤ_parts, -ℤ_parts,
  IsInt32, IsInt64, wrap64_id,
}
use build_operator.Kube.Meta.{Instant}
use build_operator.Controller.Sleep.{
  saturate, idle_duration, replicas_at, min_duration, max_duration,
}

-- A timeout in nanoseconds, exactly.
unfoldable pub nanoseconds : ℤ → ℤ
unfolding ◌*ℤ◌
nanoseconds t = t *ℤ pos 1000000000

nanoseconds_parts :
    (t : ℤ)
    → pos_part (nanoseconds t) + neg_part t * 1000000000
      ≡ neg_part (nanoseconds t) + pos_part t * 1000000000
unfolding nanoseconds
nanoseconds_parts t = ground arith

nanoseconds_pos : (n : ℕ) → nanoseconds (pos n) ≡ pos (n * 1000000000)
unfolding nanoseconds
nanoseconds_pos n = ground arith

nanoseconds_negsuc : (n : ℕ) → nanoseconds (negsuc n) ≡ negsuc (n * 1000000000 + 999999999)
unfolding nanoseconds
nanoseconds_negsuc n = ground arith

nanoseconds-IsInt64 : (t : ℤ) → IsInt32 t → IsInt64 (nanoseconds t)
nanoseconds-IsInt64 (pos n) h = rw nanoseconds_pos (omega arith)
nanoseconds-IsInt64 (negsuc n) h = rw nanoseconds_negsuc (omega arith)

-- The timeout of any `int32` does not overflow a `time.Duration`.
pub idle_duration_exact : (t : ℤ) → IsInt32 t → idle_duration t ≡ nanoseconds t
unfolding idle_duration nanoseconds
idle_duration_exact t h = wrap64_id (nanoseconds t) (nanoseconds-IsInt64 t h)

-- Saturation does not change how a duration compares with one inside the range.
saturate-lt :
    (d limit : ℤ)
    → min_duration <ℤ limit
    → limit ≤ℤ max_duration
    → ltb_ℤ (saturate d) limit ≡ ltb_ℤ d limit
unfolding saturate
saturate-lt d limit lo hi = ground arith

nanoseconds_range :
    (t : ℤ) → IsInt32 t → (min_duration <ℤ nanoseconds t) × (nanoseconds t ≤ℤ max_duration)
nanoseconds_range (pos n) h = rw nanoseconds_pos (omega arith)
nanoseconds_range (negsuc n) h = rw nanoseconds_negsuc (omega arith)

-- The test of `replicas_at`, over the integers.
replicas_at_exact :
    (t : ℤ) (u n : Instant)
    → IsInt32 t
    → replicas_at t u n ≡ (if ltb_ℤ (n -ℤ u) (nanoseconds t) then pos 1 else pos 0)
unfolding replicas_at
replicas_at_exact t u n h =
    let (lo, hi) = nanoseconds_range t h in
    rw (idle_duration_exact t h, saturate-lt (n -ℤ u) (nanoseconds t) lo hi)

-- None or one.
pub binary_at : (t : ℤ) (u n : Instant) → (replicas_at t u n ≡ pos 0) ⊎ (replicas_at t u n ≡ pos 1)
unfolding replicas_at
binary_at t u n = ground arith

ltb_ℤ_sub : (n u d : ℤ) → ltb_ℤ (n -ℤ u) d ≡ ltb_ℤ n (u +ℤ d)
ltb_ℤ_sub n u d = ground (arith, -ℤ_parts n u, +ℤ_parts u d)

-- For a timeout that is an int32: a builder last used at one instant is awake at another exactly if
-- less than its timeout lies between them, as whole numbers. Neither the product nor the saturated
-- difference of the code changes the answer.
pub replicas_at_iff :
    (idle_timeout : ℤ) (last_used now : Instant)
    → IsInt32 idle_timeout
    → (replicas_at idle_timeout last_used now ≡ pos 1)
      ↔ (now <ℤ last_used +ℤ nanoseconds idle_timeout)
replicas_at_iff t u n h =
    rw (replicas_at_exact t u n h, ltb_ℤ_sub n u (nanoseconds t)) (ground arith)

-- For a timeout that is an int32: a builder that sleeps at one instant sleeps at every later one,
-- while its last use stays the same.
pub replicas_at_asleep :
    (idle_timeout : ℤ) (last_used now later : Instant)
    → IsInt32 idle_timeout
    → replicas_at idle_timeout last_used now ≡ pos 0
    → now ≤ℤ later
    → replicas_at idle_timeout last_used later ≡ pos 0
replicas_at_asleep t u n m h asleep order =
    rw (replicas_at_exact t u m h, ltb_ℤ_sub m u (nanoseconds t))
      (ground (arith, replicas_at_exact t u n h, ltb_ℤ_sub n u (nanoseconds t)))
