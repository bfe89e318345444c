-- ===== src/Tests/Files.antt =====
-- buildkitd.toml, labels and the pod on sample builders.
use build_operator.Prelude.{◌≡◌, ◌↔◌, ◌⊎◌, true, none, some, refl, lookup, override, contains}
use build_operator.Controller.Metadata.{label_key_builder_name}
use build_operator.Controller.Toml.{buildkitd_toml_for}
use build_operator.Controller.Toml.Listener.{buildkitd_toml_for-keeps}
use build_operator.Controller.Labels.{labels_for_builder}
use build_operator.Controller.Labels.Values.{codes, valid_label_value}
use build_operator.Controller.Labels.Syntax.{IsLabelValue, valid_label_value_iff}
use build_operator.Controller.Labels.Lookup.{
  kept, own_label, lookup-labels_for_builder, name_label_iff,
}
use build_operator.Controller.PodSpec.{build_pod_spec}
use build_operator.Controller.PodSpec.WellFormed.{
  volume_names, distinct, are_mounted, build_pod_spec-mounts,
}
use build_operator.Tests.Samples.{sleepy_builder, template_spec}

buildkitd_toml_for-keeps_example :
    contains (buildkitd_toml_for sleepy_builder template_spec) "debug = true\n" ≡ true
buildkitd_toml_for-keeps_example = buildkitd_toml_for-keeps sleepy_builder template_spec

valid_label_value_iff_example :
    (valid_label_value "v1.2-rc" ≡ true) ↔ IsLabelValue (codes "v1.2-rc")
valid_label_value_iff_example = valid_label_value_iff "v1.2-rc"

lookup-labels_for_builder_example :
    lookup "note" (labels_for_builder sleepy_builder "sleepy")
    ≡ override
        (kept (lookup "note" sleepy_builder.spec.labels))
        (own_label sleepy_builder "sleepy" "note")
unfolding lookup
lookup-labels_for_builder_example =
    lookup-labels_for_builder sleepy_builder "sleepy" "note" (refl, (refl, tt))

name_label_iff_example :
    (lookup label_key_builder_name (labels_for_builder sleepy_builder "sleepy") ≡ some "arm") ↔ (
      (kept (lookup label_key_builder_name sleepy_builder.spec.labels) ≡ none)
      ⊎ (kept (lookup label_key_builder_name sleepy_builder.spec.labels) ≡ some "arm"))
unfolding lookup
name_label_iff_example = name_label_iff sleepy_builder "sleepy" (refl, (refl, tt))

build_pod_spec-mounts_example :
    (distinct
        (volume_names (build_pod_spec template_spec sleepy_builder (some "builder-arm-cache")))
      ≡ true)
    × (are_mounted
          (volume_names (build_pod_spec template_spec sleepy_builder (some "builder-arm-cache")))
          (build_pod_spec template_spec sleepy_builder (some "builder-arm-cache")).containers
        ≡ true)
build_pod_spec-mounts_example =
    build_pod_spec-mounts template_spec sleepy_builder (some "builder-arm-cache")
