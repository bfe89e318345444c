-- ===== src/Controller/Reconcile.antt =====
-- `Reconcile`, `resolveSpec`, `reconcilePersistent` and `reconcileSleepy` of
-- buildkitbuilder_controller.go. Logging is left out.
pub mod Errors
pub mod Dispatch
pub mod Surroundings
pub mod SetUp
pub mod Reports
pub mod Replicas
pub mod Stability
pub mod Workload
pub mod Outcome
pub mod Again
pub mod Stuck
pub mod Whole
pub mod Lifecycle
use build_operator.Prelude.{String, ◌==◌, Bool, Option, none, some, if◌then◌else◌}
use build_operator.Prelude.Int.{ℤ, pos, eqb_ℤ}
use build_operator.Error.{Error, is_not_found, unknown_mode, template_not_found, template_missing}
use build_operator.Exec.{Result, ok, err, Exec, pure, raise, lift, attempt, ◌>>=◌, ◌>>◌}
use build_operator.Kube.Meta.{Key, is_zero, annotation}
use build_operator.Template.{
  BuildkitBuilderTemplate, BuildkitBuilderTemplateSpec, CacheConfig, PvcConfig, cache_type_pvc,
}
use build_operator.Builder.{BuildkitBuilder, mode_persistent, mode_sleepy}
use build_operator.Controller.Metadata.{annotation_last_used}
use build_operator.Controller.Merge.{merge_spec}
use build_operator.Controller.Objects.{
  headless_service_for_builder, node_port_service_for_builder, pvc_for_builder,
  stateful_set_for_builder,
}
use build_operator.Controller.Sleep.{idle_timeout_of, desired_replicas}
use build_operator.Controller.Upsert.{
  own, create_or_update_service, create_or_update_pvc, create_or_update_stateful_set,
  ensure_buildkitd_config_map,
}
use build_operator.Controller.Exposure.{reconcile_exposure}
use build_operator.Controller.Endpoint.{resolve_stateful_set_endpoint, resolve_node_port}
use build_operator.Controller.Status.{
  ReconcileResult, no_requeue, update_status, update_status_with_last_scaled, reconcile_delete,
}
use build_operator.World.{World, Kind, Action, builder, template, read_clock, record_event}

module _ (W : World) where
  found_template :
      String → String → Result BuildkitBuilderTemplate → Result (Option BuildkitBuilderTemplateSpec)
  found_template name namespace (ok tmpl) = ok (some tmpl.spec)
  found_template name namespace (err e) = err (template_not_found name namespace e)

  -- The template that `TemplateRef` names, if it names one.
  base_spec : BuildkitBuilder → Exec W.State (Option BuildkitBuilderTemplateSpec)
  unfolding found_template
  base_spec b = elim b.spec.template_ref [
    | none ↦ pure none
    | some name ↦ do
      got ← attempt (W.get template (record { namespace = b.meta.namespace; name = name }))
      lift (found_template name b.meta.namespace got)
  ]

  -- The inline template over the referenced one; at least one must be there.
  unfoldable pub merge_inline :
      Option BuildkitBuilderTemplateSpec
      → Option BuildkitBuilderTemplateSpec
      → Result BuildkitBuilderTemplateSpec
  merge_inline base (some inline) = ok (merge_spec base (some inline))
  merge_inline (some base) none = ok base
  merge_inline none none = err template_missing

  -- `resolveSpec`
  unfoldable pub resolve_spec : BuildkitBuilder → Exec W.State BuildkitBuilderTemplateSpec
  unfolding base_spec
  resolve_spec b = do base ← base_spec b; lift (merge_inline base b.spec.template)

  unfoldable pub create_claim : BuildkitBuilder → PvcConfig → Action W
  create_claim b config = do
    pvc ← lift (pvc_for_builder W b config)
    meta ← lift (own W b pvc.meta)
    create_or_update_pvc W (record pvc { meta = meta })

  -- "Create PVC if cache type is pvc"
  unfoldable pub ensure_claim : BuildkitBuilder → CacheConfig → Action W
  unfolding create_claim
  ensure_claim b cache = elim cache.pvc [
    | none ↦ lift (ok tt)
    | some config ↦ if cache.type == cache_type_pvc then create_claim b config else lift (ok tt)
  ]

  -- "Create or update StatefulSet"
  unfoldable pub ensure_stateful_set : BuildkitBuilder → BuildkitBuilderTemplateSpec → ℤ → Action W
  ensure_stateful_set b spec replicas = do
    let sts = stateful_set_for_builder W b spec replicas
    meta ← lift (own W b sts.meta)
    create_or_update_stateful_set W (record sts { meta = meta })

  -- What both modes do before they choose the replicas.
  unfoldable pub ensure_surroundings : BuildkitBuilder → BuildkitBuilderTemplateSpec → Action W
  ensure_surroundings b spec = do
    ensure_buildkitd_config_map W b spec
    create_or_update_service W (headless_service_for_builder b)
    create_or_update_service W (node_port_service_for_builder b)
    reconcile_exposure W b
    ensure_claim b spec.cache_config

  -- `replicas := int32(1)`, and the spec's own
  unfoldable pub persistent_replicas : BuildkitBuilder → ℤ
  persistent_replicas b = elim b.spec.replicas [ none ↦ pos 1 | some n ↦ n ]

  -- After the endpoint is known.
  unfoldable pub report_persistent : BuildkitBuilder → String × ℤ → Exec W.State ReconcileResult
  report_persistent b resolved =
      if resolved.0 == "" then pure (record { requeue_after = some (pos 5) }) else do
        node_port ← resolve_node_port W b
        update_status W b (record {
          phase = "Ready";
          endpoint = resolved.0;
          ready_replicas = resolved.1;
          desired_replicas = persistent_replicas b;
          node_port = node_port;
        })

  -- `reconcilePersistent`
  unfoldable pub reconcile_persistent :
      BuildkitBuilder → BuildkitBuilderTemplateSpec → Exec W.State ReconcileResult
  reconcile_persistent b spec = do
    ensure_surroundings b spec
    ensure_stateful_set b spec (persistent_replicas b)
    resolved ← resolve_stateful_set_endpoint W b
    report_persistent b resolved

  -- The endpoint of a builder that is to be awake, and none of one that is not.
  unfoldable pub awake_endpoint : BuildkitBuilder → ℤ → Exec W.State (String × ℤ)
  awake_endpoint b replicas =
      if eqb_ℤ replicas (pos 1) then resolve_stateful_set_endpoint W b else pure ("", pos 0)

  -- From `now := metav1.Now()` on. `resolveNodePort` is called before `updateStatusWithLastScaled`.
  unfoldable pub report_sleepy : BuildkitBuilder → ℤ → String × ℤ → Exec W.State ReconcileResult
  report_sleepy b replicas resolved = do
    now ← read_clock W
    node_port ← resolve_node_port W b
    update_status_with_last_scaled W b
        (record {
          phase = if eqb_ℤ replicas (pos 1) then "Ready" else "ScalingDown";
          endpoint = resolved.0;
          ready_replicas = resolved.1;
          desired_replicas = replicas;
          node_port = node_port;
        })
        (some now)
    pure (record { requeue_after = some (pos 30) })

  -- `reconcileSleepy`
  unfoldable pub reconcile_sleepy :
      BuildkitBuilder → BuildkitBuilderTemplateSpec → Exec W.State ReconcileResult
  reconcile_sleepy b spec = do
    ensure_surroundings b spec
    replicas ←
        desired_replicas W (annotation b.meta.annotations annotation_last_used) (idle_timeout_of b)
    ensure_stateful_set b spec replicas
    resolved ← awake_endpoint b replicas
    report_sleepy b replicas resolved

  -- The `switch` on `builder.Spec.Mode`
  unfoldable pub reconcile_mode :
      BuildkitBuilder → BuildkitBuilderTemplateSpec → Exec W.State ReconcileResult
  reconcile_mode b spec =
      if b.spec.mode == mode_persistent
      then reconcile_persistent b spec
      else if b.spec.mode == mode_sleepy
      then reconcile_sleepy b spec
      else raise (unknown_mode b.spec.mode)

  -- After `resolveSpec`: the event on its error, and deletion before the modes.
  unfoldable pub with_spec :
      BuildkitBuilder → Result BuildkitBuilderTemplateSpec → Exec W.State ReconcileResult
  with_spec b (err e) = do record_event W b "Warning" "SpecResolution" e; raise e
  with_spec b (ok spec) =
      if is_zero b.meta.deletion_timestamp then reconcile_mode b spec else reconcile_delete W b

  reconcile_found : Result BuildkitBuilder → Exec W.State ReconcileResult
  reconcile_found (err e) = if is_not_found e then pure no_requeue else raise e
  reconcile_found (ok b) = do spec ← attempt (resolve_spec b); with_spec b spec

  -- `Reconcile`
  unfoldable pub reconcile : Key → Exec W.State ReconcileResult
  unfolding reconcile_found
  reconcile request = do got ← attempt (W.get builder request); reconcile_found got
