-- ===== src/Controller/Status.antt =====
-- `updateStatus`, `updateStatusWithLastScaled` and `reconcileDelete` of helpers.go.
use build_operator.Prelude.{String, ◌==◌, Bool, not, Option, none, if◌then◌else◌}
use build_operator.Prelude.Int.{ℤ}
use build_operator.Exec.{Exec, pure, ◌>>=◌, ◌>>◌}
use build_operator.Kube.Meta.{Instant}
use build_operator.Builder.{
  BuildkitBuilder, BuildkitBuilderStatus, condition_ready, condition_endpoint,
  condition_last_scaled,
}
use build_operator.Controller.Metadata.{finalizer_pvc}
use build_operator.Controller.Ingress.{external_endpoint_for_builder, exposure_tls_secret_name}
use build_operator.Controller.Conditions.{set_condition}
use build_operator.World.{World, builder, read_clock}

-- `ctrl.Result`: `none` is the zero `RequeueAfter`, and otherwise it is in seconds.
pub record ReconcileResult : Type 0 where
  pub requeue_after : Option ℤ

abbrev pub no_requeue : ReconcileResult
no_requeue = record { requeue_after = none }

-- What the reconciliation reports: the arguments that both functions share.
pub record Report : Type 0 where
  pub phase : String
  pub endpoint : String
  pub ready_replicas : ℤ
  pub desired_replicas : ℤ
  pub node_port : ℤ

-- The assignments to `b.Status` that both functions begin with.
unfoldable pub report_status : BuildkitBuilder → Report → BuildkitBuilderStatus
report_status b r = record b.status {
  phase = r.phase;
  endpoint = r.endpoint;
  node_port = r.node_port;
  external_endpoint = external_endpoint_for_builder b;
  tls_secret_name = exposure_tls_secret_name b;
  ready_replicas = r.ready_replicas;
  desired_replicas = r.desired_replicas;
}

-- `setCondition(&b.Status, ConditionReady, …)` at an instant
unfoldable pub set_ready : Instant → String → BuildkitBuilderStatus → BuildkitBuilderStatus
set_ready now phase =
    set_condition now condition_ready (phase == "Ready")
      (if phase == "Ready" then "Ready" else "NotReady") "Builder ready"

unfoldable pub set_endpoint : Instant → String → BuildkitBuilderStatus → BuildkitBuilderStatus
set_endpoint now endpoint =
    set_condition now condition_endpoint (not (endpoint == ""))
      (if endpoint == "" then "NotSet" else "EndpointSet") "Endpoint set"

unfoldable pub set_last_scaled : Instant → BuildkitBuilderStatus → BuildkitBuilderStatus
set_last_scaled now = set_condition now condition_last_scaled Bool.true "Scaled" "Last scaled"

module _ (W : World) where
  -- `updateStatus`
  unfoldable pub update_status : BuildkitBuilder → Report → Exec W.State ReconcileResult
  unfolding report_status set_ready set_endpoint
  update_status b r = do
    at_ready ← read_clock W
    at_endpoint ← read_clock W
    W.update_status (record b {
      status = set_endpoint at_endpoint r.endpoint (set_ready at_ready r.phase (report_status b r));
    })
    pure no_requeue

  -- `updateStatusWithLastScaled`
  unfoldable pub update_status_with_last_scaled :
      BuildkitBuilder → Report → Option Instant → Exec W.State ReconcileResult
  unfolding report_status set_ready set_last_scaled
  update_status_with_last_scaled b r last_scaled = do
    at_ready ← read_clock W
    at_scaled ← read_clock W
    W.update_status (record b {
      status = set_last_scaled at_scaled (
          set_ready at_ready r.phase (record (report_status b r) { last_scaled_at = last_scaled }));
    })
    pure no_requeue

  -- `reconcileDelete`
  unfoldable pub reconcile_delete : BuildkitBuilder → Exec W.State ReconcileResult
  reconcile_delete b =
      if W.contains_finalizer b.meta finalizer_pvc
      then (do
        W.update builder (record b { meta = W.remove_finalizer b.meta finalizer_pvc })
        pure no_requeue)
      else pure no_requeue
