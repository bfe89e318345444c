-- ===== src/Controller/PodSpec/WellFormed.antt =====
-- What the API server asks of the volumes of a pod, and which objects the pod mounts.
use build_operator.Prelude.{
  String, ◌==◌, ◌≡◌, refl, Bool, true, false, ◌&&◌, ◌||◌, not, Option, none, some, List, [], ◌∷◌,
  map, IsMap, lookup, insert, lookup-insert_all, override, arith, if◌then◌else◌,
}
use build_operator.Kube.Workload.{Volume, VolumeMount, VolumeSource, Container, PodSpec}
use build_operator.Template.{BuildkitBuilderTemplateSpec, cache_type_pvc, cache_type_s3}
use build_operator.Builder.{BuildkitBuilder}
use build_operator.Controller.Metadata.{config_map_name, builder_tls_secret_name}
use build_operator.Controller.Ingress.{exposure_enabled}
use build_operator.Controller.PodSpec.{s3_secret, entries, node_selector_for, build_pod_spec}

abbrev pub member : String → List String → Bool
member a [] = false
member a (x ∷ xs) = a == x || member a xs

abbrev pub distinct : List String → Bool
distinct [] = true
distinct (x ∷ xs) = not (member x xs) && distinct xs

abbrev pub all_members : List String → List String → Bool
all_members [] ys = true
all_members (x ∷ xs) ys = member x ys && all_members xs ys

abbrev pub volume_names : PodSpec → List String
volume_names p = map (λ (v : Volume). v.name) p.volumes

abbrev pub mount_names : Container → List String
mount_names c = map (λ (m : VolumeMount). m.name) c.volume_mounts

abbrev pub mount_paths : Container → List String
mount_paths c = map (λ (m : VolumeMount). m.mount_path) c.volume_mounts

-- Each mount names a volume of the pod, and no path is mounted twice.
abbrev pub are_mounted : List String → List Container → Bool
are_mounted names [] = true
are_mounted names (c ∷ cs) =
    all_members (mount_names c) names && distinct (mount_paths c) && are_mounted names cs

-- The same, by the four things that the volumes depend on.
abbrev MountsAreFine : BuildkitBuilderTemplateSpec → BuildkitBuilder → Option String → Type 0
MountsAreFine spec b claim =
    let p = build_pod_spec spec b claim in
    (distinct (volume_names p) ≡ true) × (are_mounted (volume_names p) p.containers ≡ true)

mounts_by_case :
    (spec : BuildkitBuilderTemplateSpec) (b : BuildkitBuilder) (claim : Option String)
    (exposed s3 rootless : Bool) (credentials : Option String)
    → exposure_enabled b ≡ exposed
    → (spec.cache_config.type == cache_type_s3) ≡ s3
    → spec.rootless ≡ rootless
    → s3_secret spec.cache_config.s3 ≡ credentials
    → MountsAreFine spec b claim
unfolding build_pod_spec
mounts_by_case spec b claim true true true (some n) h k r c = rw (h, k, r, c) (refl, refl)
mounts_by_case spec b claim true true true none h k r c = rw (h, k, r, c) (refl, refl)
mounts_by_case spec b claim true true false (some n) h k r c = rw (h, k, r, c) (refl, refl)
mounts_by_case spec b claim true true false none h k r c = rw (h, k, r, c) (refl, refl)
mounts_by_case spec b claim false true true (some n) h k r c = rw (h, k, r, c) (refl, refl)
mounts_by_case spec b claim false true true none h k r c = rw (h, k, r, c) (refl, refl)
mounts_by_case spec b claim false true false (some n) h k r c = rw (h, k, r, c) (refl, refl)
mounts_by_case spec b claim false true false none h k r c = rw (h, k, r, c) (refl, refl)
mounts_by_case spec b claim true false true _ h k r c = rw (h, k, r) (refl, refl)
mounts_by_case spec b claim true false false _ h k r c = rw (h, k, r) (refl, refl)
mounts_by_case spec b claim false false true _ h k r c = rw (h, k, r) (refl, refl)
mounts_by_case spec b claim false false false _ h k r c = rw (h, k, r) (refl, refl)

-- The pod's volumes have distinct names, and its containers mount volumes that it has, each at a
-- path of its own.
pub build_pod_spec-mounts :
    (spec : BuildkitBuilderTemplateSpec) (b : BuildkitBuilder) (claim : Option String)
    → let p = build_pod_spec spec b claim in
      (distinct (volume_names p) ≡ true) × (are_mounted (volume_names p) p.containers ≡ true)
build_pod_spec-mounts spec b claim =
    mounts_by_case spec b claim (exposure_enabled b) (spec.cache_config.type == cache_type_s3)
      spec.rootless (s3_secret spec.cache_config.s3) refl refl refl refl

abbrev pub claims_of : List Volume → List String
claims_of [] = []
claims_of (v ∷ vs) = elim v.source [
  | VolumeSource.persistent_volume_claim name ↦ name ∷ claims_of vs
  | _ ↦ claims_of vs
]

abbrev pub secrets_of : List Volume → List String
secrets_of [] = []
secrets_of (v ∷ vs) = elim v.source [
  | VolumeSource.secret name ↦ name ∷ secrets_of vs
  | _ ↦ secrets_of vs
]

abbrev pub config_maps_of : List Volume → List String
config_maps_of [] = []
config_maps_of (v ∷ vs) = elim v.source [
  | VolumeSource.config_map name ↦ name ∷ config_maps_of vs
  | _ ↦ config_maps_of vs
]

-- The claim that the cache volume names.
abbrev pub cache_claim : BuildkitBuilderTemplateSpec → Option String → List String
cache_claim spec none = []
cache_claim spec (some name) = if spec.cache_config.type == cache_type_pvc then name ∷ [] else []

abbrev pub MountsExactly : BuildkitBuilderTemplateSpec → BuildkitBuilder → Option String → Type 0
MountsExactly spec b claim =
    let volumes = (build_pod_spec spec b claim).volumes in
    (config_maps_of volumes ≡ config_map_name b ∷ [])
    × (secrets_of volumes ≡ (if exposure_enabled b then builder_tls_secret_name b ∷ [] else []))
    × (claims_of volumes ≡ cache_claim spec claim)

exactly_by_case :
    (spec : BuildkitBuilderTemplateSpec) (b : BuildkitBuilder) (claim : Option String)
    (exposed s3 : Bool) (credentials : Option String)
    → exposure_enabled b ≡ exposed
    → (spec.cache_config.type == cache_type_s3) ≡ s3
    → s3_secret spec.cache_config.s3 ≡ credentials
    → MountsExactly spec b claim
unfolding build_pod_spec
exactly_by_case spec b claim true true none h k c =
    rw (h, k, c) (ground arith, ground arith, ground arith)
exactly_by_case spec b claim _ true _ h k c =
    rw (h, k, c) (ground arith, ground arith, ground arith)
exactly_by_case spec b claim _ false _ h k c = rw (h, k) (ground arith, ground arith, ground arith)

-- The volumes of the pod by what they come from.
pub build_pod_spec-MountsExactly :
    (spec : BuildkitBuilderTemplateSpec) (b : BuildkitBuilder) (claim : Option String)
    → MountsExactly spec b claim
build_pod_spec-MountsExactly spec b claim =
    exactly_by_case spec b claim (exposure_enabled b) (spec.cache_config.type == cache_type_s3)
      (s3_secret spec.cache_config.s3) refl refl refl

-- Where the spec's selector names no key twice, the node selector holds its entries, and the
-- architecture where one is given and the selector does not set that key.
pub lookup-node_selector_for :
    (spec : BuildkitBuilderTemplateSpec) (key : String)
    → IsMap (entries spec.node_selector)
    → lookup key (node_selector_for spec)
      ≡ override (lookup key (entries spec.node_selector)) (
          if spec.arch == ""
          then none
          else if "kubernetes.io/arch" == key
          then some spec.arch
          else none)
unfolding node_selector_for lookup insert
lookup-node_selector_for spec key h =
    rw (lookup-insert_all key (entries spec.node_selector) _ h) (ground arith)
