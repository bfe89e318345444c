-- ===== src/Tests/Reconciliations.antt =====
-- Whole reconciliations in the cluster in memory.
use mathlib.Core.Option.{some-injective}
use build_operator.Controller.Endpoint.{resolve_stateful_set_endpoint}
use build_operator.Prelude.{String, ◌==◌, if◌then◌else◌, ◌≡◌, ◌⊎◌, some, refl, inl, inr}
use build_operator.Prelude.Int.{ℤ, pos}
use build_operator.Exec.{ok}
use build_operator.Kube.Meta.{annotation}
use build_operator.Kube.Storage.{Quantity}
use build_operator.Template.{PvcConfig}
use build_operator.Controller.Metadata.{annotation_last_used}
use build_operator.Controller.Objects.Claims.{requested}
use build_operator.Controller.Status.{ReconcileResult, no_requeue}
use build_operator.Controller.Reconcile.{
  persistent_replicas, ensure_surroundings, ensure_stateful_set, reconcile_persistent,
  reconcile_sleepy,
}
use build_operator.Controller.Reconcile.Errors.{
  reconcile_persistent_requeues, reconcile_sleepy_requeues,
}
use build_operator.Controller.Sleep.{idle_timeout_of, desired_replicas}
use build_operator.Controller.Ingress.{exposure_enabled}
use build_operator.Controller.Reconcile.Surroundings.{IsSized}
use build_operator.Controller.Reconcile.Outcome.{
  IsConverged, reconcile_persistent-IsConverged, reconcile_sleepy-IsConverged,
}
use build_operator.Builder.Webhook.{validate_builder, validate_exposure, is_empty_ref}
use build_operator.Memory.{memory}
use build_operator.Memory.Objects.{read, put, write_at}
use build_operator.Memory.Laws.{reliable_memory, memory-IsOwning, memory-IsTrusted}
use build_operator.Tests.Samples.{
  template_spec, pvc_config, sleepy_builder, persistent_builder, nightly_builder, with_builder,
}

abbrev Sized : PvcConfig → Type 0
Sized config = (size : Quantity) × (memory.parse_quantity (requested config) ≡ some size)

Sized-same : (c d : PvcConfig) → c ≡ d → Sized c → Sized d
Sized-same c d e p = rw e at p

pub template_size : IsSized memory reliable_memory template_spec.cache_config
template_size config e =
    Sized-same pvc_config config (some-injective pvc_config config e) ("50Gi", refl)

reconcile_persistent-IsConverged_example :
    IsConverged memory reliable_memory persistent_builder template_spec
      (persistent_replicas memory persistent_builder)
      (with_builder persistent_builder)
      (reconcile_persistent memory persistent_builder template_spec
        (with_builder persistent_builder))
unfolding read put write_at exposure_enabled
reconcile_persistent-IsConverged_example =
    reconcile_persistent-IsConverged memory reliable_memory persistent_builder template_spec
      (with_builder persistent_builder) (memory-IsOwning persistent_builder.meta) template_size
      (inl refl) (λ old there. cc) (persistent_builder, refl)

reconcile_sleepy-IsConverged_example :
    (n : ℤ) × ((desired_replicas memory
        (annotation sleepy_builder.meta.annotations annotation_last_used)
        (idle_timeout_of sleepy_builder)
        (ensure_surroundings memory sleepy_builder template_spec (with_builder sleepy_builder)).1).0
      ≡ ok n)
    × ((n ≡ pos 0) ⊎ (n ≡ pos 1))
    × IsConverged memory reliable_memory sleepy_builder template_spec n
        (with_builder sleepy_builder)
        (reconcile_sleepy memory sleepy_builder template_spec (with_builder sleepy_builder))
unfolding read put write_at validate_builder validate_exposure is_empty_ref
reconcile_sleepy-IsConverged_example =
    reconcile_sleepy-IsConverged memory reliable_memory sleepy_builder template_spec
      (with_builder sleepy_builder) (memory-IsOwning sleepy_builder.meta) template_size
      (inr (memory-IsTrusted, refl, refl, inl refl)) (λ old there. cc) (sleepy_builder, refl)

done_persistent :
    (r : ReconcileResult) × ((reconcile_persistent memory persistent_builder template_spec
        (with_builder persistent_builder)).0
      ≡ ok r)
unfolding read put write_at exposure_enabled
done_persistent =
    let c =
      reconcile_persistent-IsConverged memory reliable_memory persistent_builder template_spec
        (with_builder persistent_builder) (memory-IsOwning persistent_builder.meta) template_size
        (inl refl) (λ old there. cc) (persistent_builder, refl) in
    (c.result, c.succeeds)

done_sleepy :
    (r : ReconcileResult) × ((reconcile_sleepy memory nightly_builder template_spec
        (with_builder nightly_builder)).0
      ≡ ok r)
unfolding read put write_at exposure_enabled
done_sleepy =
    let (n, choice, binary, c) =
      reconcile_sleepy-IsConverged memory reliable_memory nightly_builder template_spec
        (with_builder nightly_builder) (memory-IsOwning nightly_builder.meta) template_size
        (inl refl) (λ old there. cc) (nightly_builder, refl) in
    (c.result, c.succeeds)

reconcile_persistent_requeues_example :
    (resolved : String × ℤ) × ((resolve_stateful_set_endpoint memory persistent_builder
        (ensure_stateful_set memory persistent_builder template_spec
          (persistent_replicas memory persistent_builder)
          (ensure_surroundings memory persistent_builder template_spec
            (with_builder persistent_builder)).1).1).0
      ≡ ok resolved)
    × (done_persistent.0
        ≡ (if resolved.0 == "" then record { requeue_after = some (pos 5) } else no_requeue))
reconcile_persistent_requeues_example =
    reconcile_persistent_requeues memory persistent_builder template_spec
      (with_builder persistent_builder) {r = done_persistent.0} done_persistent.1

reconcile_sleepy_requeues_example : done_sleepy.0 ≡ record { requeue_after = some (pos 30) }
reconcile_sleepy_requeues_example =
    reconcile_sleepy_requeues memory nightly_builder template_spec (with_builder nightly_builder)
      {r = done_sleepy.0} done_sleepy.1
