-- ===== src/Controller/Merge.antt =====
-- `mergeSpec` of buildkitbuilder_controller.go. `DeepCopy` is the identity on values.
pub mod Precedence
use build_operator.Prelude.{
  String, ◌==◌, Bool, false, ◌||◌, not, Option, none, some, [], is_empty, if◌then◌else◌,
}
use build_operator.Kube.Workload.{ResourceRequirements}
use build_operator.Template.{BuildkitBuilderTemplateSpec}

-- The zero value, `var out BuildkitBuilderTemplateSpec`.
abbrev pub zero_spec : BuildkitBuilderTemplateSpec
zero_spec = record {
  buildkit_image = "";
  rootless = false;
  resources = record { limits = []; requests = []; claims = [] };
  node_selector = none;
  tolerations = none;
  affinity = none;
  buildkitd_toml = "";
  cache_config = record { type = ""; pvc = none; s3 = none };
  arch = "";
}

abbrev pub has_resources : ResourceRequirements → Bool
has_resources r = not (is_empty r.limits) || not (is_empty r.requests)

abbrev pub or_nil {ℓ} : {A : Type ℓ} → Option A → Option A → Option A
or_nil none old = old
or_nil (some a) old = some a

abbrev pub or_blank : String → String → String
or_blank new old = if new == "" then old else new

-- The assignments to `out`, field by field.
unfoldable pub override_spec :
    BuildkitBuilderTemplateSpec → BuildkitBuilderTemplateSpec → BuildkitBuilderTemplateSpec
override_spec out over = record {
  buildkit_image = or_blank over.buildkit_image out.buildkit_image;
  rootless = over.rootless;
  resources = if has_resources over.resources then over.resources else out.resources;
  node_selector = or_nil over.node_selector out.node_selector;
  tolerations = or_nil over.tolerations out.tolerations;
  affinity = or_nil over.affinity out.affinity;
  buildkitd_toml = or_blank over.buildkitd_toml out.buildkitd_toml;
  cache_config = if over.cache_config.type == "" then out.cache_config else over.cache_config;
  arch = or_blank over.arch out.arch;
}

abbrev pub base_of : Option BuildkitBuilderTemplateSpec → BuildkitBuilderTemplateSpec
base_of none = zero_spec
base_of (some base) = base

-- `mergeSpec`
unfoldable pub merge_spec :
    Option BuildkitBuilderTemplateSpec
    → Option BuildkitBuilderTemplateSpec
    → BuildkitBuilderTemplateSpec
unfolding override_spec
merge_spec base none = base_of base
merge_spec base (some over) = override_spec (base_of base) over
