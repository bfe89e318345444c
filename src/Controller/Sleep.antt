-- ===== src/Controller/Sleep.antt =====
-- The choice of the replicas of a sleepy builder, in `reconcileSleepy`.
pub mod Deadline
pub mod Cycle
use build_operator.Prelude.{String, ◌==◌, Option, none, some, if◌then◌else◌}
use build_operator.Prelude.Int.{ℤ, pos, negsuc, ◌-ℤ◌, ◌*ℤ◌, ltb_ℤ, wrap64}
use build_operator.Exec.{Exec, pure, ◌>>=◌}
use build_operator.Kube.Meta.{Instant}
use build_operator.Builder.{BuildkitBuilder}
use build_operator.World.{World, read_clock}

abbrev pub min_duration : ℤ
min_duration = negsuc 9223372036854775807

abbrev pub max_duration : ℤ
max_duration = pos 9223372036854775807

-- A `time.Duration` is an int64, and `Sub` saturates.
unfoldable pub saturate : ℤ → ℤ
saturate d =
    if ltb_ℤ d min_duration then min_duration else if ltb_ℤ max_duration d then max_duration else d

-- `time.Since(t)`, at the instant `now`
unfoldable pub since : Instant → Instant → ℤ
unfolding saturate
since now t = saturate (now -ℤ t)

-- `time.Duration(idleTimeout)*time.Second`
unfoldable pub idle_duration : ℤ → ℤ
idle_duration idle_timeout = wrap64 (idle_timeout *ℤ pos 1000000000)

-- `idleTimeout := int32(300)`, and the spec's own
unfoldable pub idle_timeout_of : BuildkitBuilder → ℤ
idle_timeout_of b = elim b.spec.idle_timeout_seconds [ none ↦ pos 300 | some t ↦ t ]

-- Awake, while the last use lies within the idle timeout.
unfoldable pub replicas_at : ℤ → Instant → Instant → ℤ
unfolding since idle_duration
replicas_at idle_timeout last_used now =
    if ltb_ℤ (since now last_used) (idle_duration idle_timeout) then pos 1 else pos 0

module _ (W : World) where
  unfoldable pub replicas_since : ℤ → Option Instant → Exec W.State ℤ
  unfolding replicas_at
  replicas_since idle_timeout none = pure (pos 0)
  replicas_since idle_timeout (some last_used) = do
    now ← read_clock W
    pure (replicas_at idle_timeout last_used now)

  -- The clock is read only where the annotation holds an instant.
  unfoldable pub desired_replicas : String → ℤ → Exec W.State ℤ
  unfolding replicas_since
  desired_replicas last_used_str idle_timeout =
      if last_used_str == ""
      then pure (pos 1)
      else replicas_since idle_timeout (W.parse_time last_used_str)
