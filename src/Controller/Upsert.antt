-- ===== src/Controller/Upsert.antt =====
-- The calls of helpers.go and ingress.go that create an object or bring it up to date, and
-- `ensureBuildkitdConfigMap`.
pub mod Effects
pub mod Owners
use build_operator.Prelude.{String, ◌≡◌, Bool, Option, some, none, [], ◌∷◌, if◌then◌else◌}
use build_operator.Error.{Error, is_not_found}
use build_operator.Exec.{Result, ok, err, Exec, raise, lift, attempt, of_error, ◌>>=◌, ◌>>◌}
use build_operator.Kube.Meta.{ObjectMeta, new_meta, key_of}
use build_operator.Kube.Network.{Service, IngressRoute}
use build_operator.Kube.Storage.{PersistentVolumeClaim, ConfigMap}
use build_operator.Kube.Workload.{StatefulSet}
use build_operator.Template.{BuildkitBuilderTemplateSpec}
use build_operator.Builder.{BuildkitBuilder}
use build_operator.Controller.Metadata.{base_name, config_map_name}
use build_operator.Controller.Toml.{buildkitd_toml_for}
use build_operator.World.{
  World, Kind, Object, Action, service, claim, config_map, stateful_set, ingress_route,
}

module _ (W : World) where
  -- `err := r.Get(…)`: what to do with the object that is there, and `r.Create` on NotFound.
  unfoldable pub on_existing : {A : Type 0} → Result A → (A → Action W) → Action W → Action W
  on_existing (ok existing) change create = change existing
  on_existing (err e) change create = if is_not_found e then create else raise e

  -- `createOrUpdateService`
  unfoldable pub create_or_update_service : Service → Action W
  unfolding on_existing
  create_or_update_service svc = do
    got ← attempt (W.get service (key_of svc.meta))
    on_existing got
        (λ existing. W.update service (record svc {
          meta = record svc.meta { resource_version = existing.meta.resource_version };
          cluster_ip = existing.cluster_ip;
        }))
        (W.create service svc)

  -- `createOrUpdatePVC`: a claim that exists is left as it is.
  unfoldable pub create_or_update_pvc : PersistentVolumeClaim → Action W
  unfolding on_existing
  create_or_update_pvc pvc = do
    got ← attempt (W.get claim (key_of pvc.meta))
    on_existing got (λ existing. lift (ok tt)) (W.create claim pvc)

  -- `createOrUpdateStatefulSet`
  unfoldable pub create_or_update_stateful_set : StatefulSet → Action W
  unfolding on_existing
  create_or_update_stateful_set sts = do
    got ← attempt (W.get stateful_set (key_of sts.meta))
    on_existing got
        (λ existing. W.update stateful_set (record sts {
          meta = record sts.meta { resource_version = existing.meta.resource_version };
        }))
        (W.create stateful_set sts)

  -- `createOrUpdateIngressRoute`
  unfoldable pub create_or_update_ingress_route : IngressRoute → Action W
  unfolding on_existing
  create_or_update_ingress_route desired = do
    got ← attempt (W.get ingress_route (key_of desired.meta))
    on_existing got
        (λ existing. W.update ingress_route (record desired {
          meta = record desired.meta { resource_version = existing.meta.resource_version };
        }))
        (W.create ingress_route desired)

  -- `deleteIngressRouteIfExists`, `deleteBuilderServerCert`: NotFound is no error.
  unfoldable pub ignore_not_found : Action W → Action W
  ignore_not_found m = do done ← attempt m; on_existing done (λ _. lift (ok tt)) (lift (ok tt))

  -- `controllerutil.SetControllerReference(b, object, r.Scheme)`, and its error
  unfoldable pub own : BuildkitBuilder → ObjectMeta → Result ObjectMeta
  own b meta =
      let (owned, error) = W.set_controller_reference b.meta meta in
      elim error [ none ↦ ok owned | some e ↦ err e ]

  -- `ensureBuildkitdConfigMap`
  unfoldable pub ensure_buildkitd_config_map :
      BuildkitBuilder → BuildkitBuilderTemplateSpec → Action W
  unfolding on_existing own buildkitd_toml_for
  ensure_buildkitd_config_map b spec = do
    meta ← lift (own b (new_meta b.meta.namespace (config_map_name b)))
    let cm : ConfigMap = record {
      meta = meta;
      contents = ("buildkitd.toml", buildkitd_toml_for b spec) ∷ [];
    }
    got ← attempt (W.get config_map (key_of cm.meta))
    on_existing got (λ existing. W.update config_map (record existing { contents = cm.contents }))
        (W.create config_map cm)
