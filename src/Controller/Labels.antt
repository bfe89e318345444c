-- ===== src/Controller/Labels.antt =====
-- `validLabelValueRegex` and `labelsForBuilder` of buildkitbuilder_controller.go.
pub mod Regex
pub mod Values
pub mod Syntax
pub mod Lookup
use build_operator.Prelude.{String, Bool, [], ◌∷◌, Dict, insert, if◌then◌else◌}
use build_operator.Builder.{BuildkitBuilder}
use build_operator.Controller.Metadata.{label_key_builder_name, label_key_builder_mode}
use Values.{valid_label_value}

-- The loop over `b.Spec.Labels`: values that the expression does not match are skipped.
unfoldable pub add_labels : Dict String → Dict String → Dict String
add_labels [] m = m
add_labels ((k, v) ∷ labels) m = add_labels labels (if valid_label_value v then insert k v m else m)

-- `labelsForBuilder`
unfoldable pub labels_for_builder : BuildkitBuilder → String → Dict String
unfolding add_labels
labels_for_builder b mode =
    add_labels b.spec.labels
      ((label_key_builder_name, b.meta.name) ∷ (label_key_builder_mode, mode) ∷ [])
