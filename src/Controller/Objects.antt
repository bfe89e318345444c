-- ===== src/Controller/Objects.antt =====
-- The objects that helpers.go builds for a builder: two services, the claim and the stateful set.
pub mod Coherent
pub mod Claims
use build_operator.Prelude.{
  String, ◌==◌, Bool, ◌&&◌, not, Option, none, some, List, [], ◌∷◌, is_empty, is_none,
  if◌then◌else◌,
}
use build_operator.Prelude.Int.{ℤ, pos}
use build_operator.Error.{panic}
use build_operator.Exec.{Result, ok, err}
use build_operator.Kube.Meta.{new_meta}
use build_operator.Kube.Network.{Service}
use build_operator.Kube.Storage.{PersistentVolumeClaim, Quantity}
use build_operator.Kube.Workload.{StatefulSet}
use build_operator.Template.{BuildkitBuilderTemplateSpec, CacheConfig, PvcConfig, cache_type_pvc}
use build_operator.Builder.{BuildkitBuilder}
use build_operator.Controller.Metadata.{base_name, client_name, cache_name}
use build_operator.Controller.Labels.{labels_for_builder}
use build_operator.Controller.PodSpec.{build_pod_spec}
use build_operator.World.{World}

-- `nodePortServiceForBuilder`
unfoldable pub node_port_service_for_builder : BuildkitBuilder → Service
node_port_service_for_builder b = record {
  meta = new_meta b.meta.namespace (client_name b);
  type = "NodePort";
  cluster_ip = "";
  selector = labels_for_builder b b.spec.mode;
  ports =
      record { name = "buildkit"; port = pos 1234; target_port = pos 1234; node_port = pos 0 }
      ∷ record { name = "metrics"; port = pos 1235; target_port = pos 1235; node_port = pos 0 }
      ∷ [];
}

-- `headlessServiceForBuilder`
unfoldable pub headless_service_for_builder : BuildkitBuilder → Service
headless_service_for_builder b = record {
  meta = new_meta b.meta.namespace (base_name b);
  type = "";
  cluster_ip = "None";
  selector = labels_for_builder b b.spec.mode;
  ports =
      record { name = "buildkit"; port = pos 1234; target_port = pos 1234; node_port = pos 0 }
      ∷ record { name = "metrics"; port = pos 1235; target_port = pos 1235; node_port = pos 0 }
      ∷ [];
}

-- `strPtr`
unfoldable pub str_ptr : String → Option String
str_ptr s = if s == "" then none else some s

-- `toAccessModes`: a conversion of each element to a string type.
unfoldable pub to_access_modes : List String → List String
to_access_modes [] = []
to_access_modes (s ∷ ss) = s ∷ to_access_modes ss

access_modes_of : List String → List String
access_modes_of [] = "ReadWriteOnce" ∷ []
access_modes_of (mode ∷ modes) = mode ∷ modes

claim_of : BuildkitBuilder → PvcConfig → Option Quantity → Result PersistentVolumeClaim
unfolding str_ptr access_modes_of
claim_of b pvc none = err (panic "cannot parse quantity")
claim_of b pvc (some size) = ok (record {
  meta = new_meta b.meta.namespace (cache_name b);
  access_modes = to_access_modes (access_modes_of pvc.access_modes);
  storage_class_name = str_ptr pvc.storage_class_name;
  requests = ("storage", size) ∷ [];
})

-- `spec.CacheConfig.Type == CacheTypePVC && spec.CacheConfig.PVC != nil`
abbrev pub wants_claim : CacheConfig → Bool
wants_claim cache = cache.type == cache_type_pvc && not (is_none cache.pvc)

-- `statefulSetForBuilder`, with the name of the claim that it mounts
unfoldable pub claim_name : BuildkitBuilder → BuildkitBuilderTemplateSpec → Option String
claim_name b spec = if wants_claim spec.cache_config then some (cache_name b) else none

module _ (W : World) where
  -- `pvcForBuilder`, given `*spec.CacheConfig.PVC`; `resource.MustParse` panics on a bad size.
  unfoldable pub pvc_for_builder : BuildkitBuilder → PvcConfig → Result PersistentVolumeClaim
  unfolding claim_of
  pvc_for_builder b pvc =
      claim_of b pvc (W.parse_quantity (if pvc.size == "" then "100Gi" else pvc.size))

  -- `statefulSetForBuilder`; the error of `SetControllerReference` is dropped.
  unfoldable pub stateful_set_for_builder :
      BuildkitBuilder → BuildkitBuilderTemplateSpec → ℤ → StatefulSet
  unfolding claim_name build_pod_spec
  stateful_set_for_builder b spec replicas = record {
    meta = (W.set_controller_reference b.meta (new_meta b.meta.namespace (base_name b))).0;
    replicas = some replicas;
    service_name = base_name b;
    match_labels = labels_for_builder b b.spec.mode;
    template = record {
      labels = labels_for_builder b b.spec.mode;
      spec = build_pod_spec spec b (claim_name b spec);
    };
  }
