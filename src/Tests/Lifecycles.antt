-- ===== src/Tests/Lifecycles.antt =====
-- Requests, and steps of a sleepy builder's life, in the cluster in memory.
use build_operator.Prelude.{◌≡◌, eq_iff, lookup, refl, inl, inr, arith}
use build_operator.Prelude.Int.{ℤ, pos, ◌+ℤ◌}
use build_operator.Kube.Meta.{Key, ObjectMeta, is_zero}
use build_operator.Controller.Ingress.{exposure_enabled}
use build_operator.Controller.Sleep.{replicas_at}
use build_operator.Controller.Sleep.Cycle.{
  Moment, IsReachable, first, next, used, passes, reconciled, IsServed, reachable-IsServed,
}
use build_operator.Controller.Reconcile.{reconcile, reconcile_sleepy, ensure_surroundings}
use build_operator.Controller.Reconcile.Outcome.{IsConverged}
use build_operator.Controller.Reconcile.Whole.{IsWanted, reconcile-IsConverged}
use build_operator.Controller.Reconcile.Again.{after_requests, reconcile_always}
use build_operator.World.Laws.{IsOwning}
use build_operator.Builder.{BuildkitBuilder}
use build_operator.Controller.Reconcile.Lifecycle.{IsStep, reconcile_sleepy-IsStep}
use build_operator.Memory.{memory, parse_noon}
use build_operator.Memory.Objects.{read, put, write_at}
use build_operator.Memory.Laws.{reliable_memory, memory-IsOwning}
use build_operator.Tests.Reconciliations.{template_size}
use build_operator.Tests.Samples.{
  template_spec, sample_template, shared_builder, shared_cluster, nightly_builder, with_builder,
}

abbrev shared_request : Key
shared_request = record { namespace = "ci"; name = "shared" }

reconcile-IsConverged_example :
    (n : ℤ) × IsWanted memory reliable_memory shared_builder n
    × IsConverged memory reliable_memory shared_builder template_spec n shared_cluster
        (reconcile memory shared_request shared_cluster)
unfolding read put write_at exposure_enabled is_zero
reconcile-IsConverged_example =
    reconcile-IsConverged memory reliable_memory shared_request shared_builder template_spec
      shared_cluster (memory-IsOwning shared_builder.meta) refl refl (inl refl)
      (inr (sample_template, "base", refl, refl, refl)) template_size (inl refl) (λ old there. cc)

-- The nightly builder at the clock of its cluster, last used at noon.
abbrev night : Moment
night = record {
  last_used = pos 1704110400000000000;
  now =
      (memory.now
        (ensure_surroundings memory nightly_builder template_spec
          (with_builder nightly_builder)).1).0;
  seen = pos 0;
  replicas = pos 0;
}

reconcile_sleepy-IsStep_example :
    IsStep memory reliable_memory nightly_builder template_spec night
      (with_builder nightly_builder)
      (reconcile_sleepy memory nightly_builder template_spec (with_builder nightly_builder))
unfolding read put write_at exposure_enabled lookup parse_noon
reconcile_sleepy-IsStep_example =
    reconcile_sleepy-IsStep memory reliable_memory nightly_builder template_spec night
      (with_builder nightly_builder) (memory-IsOwning nightly_builder.meta) template_size (inl refl)
      (λ old there. cc) (nightly_builder, refl)
      (λ e. ground (arith, eq_iff "2024-01-01T12:00:00Z" "")) refl refl

-- Used at 0, looked at after 20 seconds, used again 5 seconds later.
abbrev third : Moment
third = record {
  last_used = pos 25000000000;
  now = pos 25000000000;
  seen = pos 20000000000;
  replicas = replicas_at (pos 60) (pos 0) (pos 20000000000);
}

third-IsReachable : IsReachable (pos 60) third
unfolding ◌+ℤ◌
third-IsReachable =
    next
      (next
        (next (next (first (pos 0)) (passes (pos 20000000000) (omega arith) (omega arith)))
          reconciled)
        (passes (pos 25000000000) (omega arith) (omega arith)))
      used

reachable-IsServed_example : IsServed (pos 60) third
reachable-IsServed_example = reachable-IsServed (pos 60) (omega arith) third-IsReachable

every_builder_owns : (m : ObjectMeta) → IsOwning memory m
every_builder_owns m = memory-IsOwning m

-- The third request for the builder, which names a template.
reconcile_always_example :
    (new : BuildkitBuilder) × (n : ℤ) × (new.spec ≡ shared_builder.spec)
    × IsWanted memory reliable_memory new n
    × IsConverged memory reliable_memory new template_spec n
        (after_requests memory reliable_memory 2 shared_request shared_cluster)
        (reconcile memory shared_request
          (after_requests memory reliable_memory 2 shared_request shared_cluster))
unfolding read put write_at exposure_enabled is_zero
reconcile_always_example =
    reconcile_always memory reliable_memory every_builder_owns shared_request shared_builder
      template_spec 2 shared_cluster
      (record {
        stored = refl;
        live = refl;
        mode = inl refl;
        resolved = inr (sample_template, "base", refl, refl, refl);
        sized = template_size;
        attainable = inl refl;
        updatable = (λ old there. cc);
      })
