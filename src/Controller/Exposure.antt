-- ===== src/Controller/Exposure.antt =====
-- `reconcileExposure` and `deleteIngressRouteIfExists` of ingress.go.
pub mod State
pub mod Shown
pub mod Attained
use build_operator.Prelude.{◌==◌, Bool, ◌||◌, Option, none, some, if◌then◌else◌}
use build_operator.Error.{unsupported_ingress_controller}
use build_operator.Exec.{raise, lift, ◌>>=◌, ◌>>◌}
use build_operator.Builder.{BuildkitBuilder, ExposureConfig, ingress_controller_traefik}
use build_operator.Controller.Metadata.{base_name}
use build_operator.Controller.Ingress.{ingress_route_for_builder}
use build_operator.Controller.Upsert.{own, ignore_not_found, create_or_update_ingress_route}
use build_operator.Controller.Tls.Server.{ensure_builder_server_cert, delete_builder_server_cert}
use build_operator.World.{World, Action, ingress_route}

-- The guard on `b.Spec.Exposure.IngressController`
unfoldable pub is_supported : ExposureConfig → Bool
is_supported exp =
    exp.ingress_controller == "" || exp.ingress_controller == ingress_controller_traefik

module _ (W : World) where
  -- `deleteIngressRouteIfExists`
  unfoldable pub delete_ingress_route_if_exists : BuildkitBuilder → Action W
  unfolding ignore_not_found
  delete_ingress_route_if_exists b =
      ignore_not_found W
        (W.delete ingress_route (record { namespace = b.meta.namespace; name = base_name b }))

  -- The builder is not exposed.
  unfoldable pub withdraw : BuildkitBuilder → Action W
  unfolding delete_ingress_route_if_exists
  withdraw b = do delete_ingress_route_if_exists b; delete_builder_server_cert W b

  -- The builder is exposed.
  unfoldable pub expose : BuildkitBuilder → ExposureConfig → Action W
  expose b exp =
      if is_supported exp
      then (do
        ensure_builder_server_cert W b exp
        let desired = ingress_route_for_builder b exp
        meta ← lift (own W b desired.meta)
        create_or_update_ingress_route W (record desired { meta = meta }))
      else raise (unsupported_ingress_controller exp.ingress_controller)

  unfoldable pub reconcile_exposure_of : BuildkitBuilder → Option ExposureConfig → Action W
  reconcile_exposure_of b none = withdraw b
  reconcile_exposure_of b (some exp) = if exp.enabled then expose b exp else withdraw b

  -- `reconcileExposure`
  unfoldable pub reconcile_exposure : BuildkitBuilder → Action W
  unfolding reconcile_exposure_of
  reconcile_exposure b = reconcile_exposure_of b b.spec.exposure
