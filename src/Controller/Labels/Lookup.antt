-- ===== src/Controller/Labels/Lookup.antt =====
-- The labels of a builder's objects, key by key.
use build_operator.Prelude.{
  String, ◌==◌, eq_iff, ◌≡◌, refl, ◌↔◌, ◌⊎◌, inl, inr, true, Option, none, some, [], ◌∷◌, Dict,
  IsMap, lookup, insert, lookup-insert, override, arith, Bool-cases, if◌then◌else◌,
}
use build_operator.Builder.{BuildkitBuilder}
use build_operator.Controller.Metadata.{label_key_builder_name, label_key_builder_mode}
use build_operator.Controller.Labels.Values.{valid_label_value}
use build_operator.Controller.Labels.{add_labels, labels_for_builder}

-- A user label that passes the filter.
abbrev pub kept : Option String → Option String
kept none = none
kept (some v) = if valid_label_value v then some v else none

-- The operator's own labels.
abbrev pub own_label : BuildkitBuilder → String → String → Option String
own_label b mode key =
    if label_key_builder_name == key
    then some b.meta.name
    else if label_key_builder_mode == key
    then some mode
    else none

lookup-add_labels :
    (j : String) (labels m : Dict String)
    → IsMap labels
    → lookup j (add_labels labels m) ≡ override (kept (lookup j labels)) (lookup j m)
unfolding add_labels lookup
lookup-add_labels j [] m h = refl
lookup-add_labels j ((k, v) ∷ labels) m (fresh, h) = elim (Bool-cases (valid_label_value v)) [
  | inl valid ↦ rw valid (
      ground
        (arith, lookup-add_labels j labels (insert k v m) h, lookup-insert k j v m, eq_iff k j))
  | inr invalid ↦ rw invalid (ground (arith, lookup-add_labels j labels m h, eq_iff k j))
]

-- Where the user's labels name no key twice, each label is the user's, if the user gives the key a
-- valid value, and otherwise the operator's name or mode label, or absent.
pub lookup-labels_for_builder :
    (b : BuildkitBuilder) (mode key : String)
    → IsMap b.spec.labels
    → lookup key (labels_for_builder b mode)
      ≡ override (kept (lookup key b.spec.labels)) (own_label b mode key)
unfolding labels_for_builder lookup
lookup-labels_for_builder b mode key h = lookup-add_labels key b.spec.labels _ h

-- Go visits a map in any order: two label maps that agree key by key give the same labels.
pub labels_for_builder_order :
    (b c : BuildkitBuilder) (mode key : String)
    → IsMap b.spec.labels
    → IsMap c.spec.labels
    → b.meta.name ≡ c.meta.name
    → lookup key b.spec.labels ≡ lookup key c.spec.labels
    → lookup key (labels_for_builder b mode) ≡ lookup key (labels_for_builder c mode)
labels_for_builder_order b c mode key hb hc name same =
    rw
      (lookup-labels_for_builder b mode key hb, lookup-labels_for_builder c mode key hc, same, name)

-- Every label that the objects carry has a valid value, the operator's two excepted.
pub labels_for_builder_valid :
    (b : BuildkitBuilder) (mode key v : String)
    → IsMap b.spec.labels
    → lookup key (labels_for_builder b mode) ≡ some v
    → (valid_label_value v ≡ true) ⊎ (own_label b mode key ≡ some v)
labels_for_builder_valid b mode key v h found =
    let e = lookup-labels_for_builder b mode key h in ground (arith, e)

-- Where the user's labels name no key twice, the pods carry the label by which the endpoint is
-- looked up exactly if the user's labels do not give its key another valid value.
pub name_label_iff :
    (b : BuildkitBuilder) (mode : String)
    → IsMap b.spec.labels
    → (lookup label_key_builder_name (labels_for_builder b mode) ≡ some b.meta.name) ↔ (
        (kept (lookup label_key_builder_name b.spec.labels) ≡ none)
        ⊎ (kept (lookup label_key_builder_name b.spec.labels) ≡ some b.meta.name))
name_label_iff b mode h =
    rw (lookup-labels_for_builder b mode label_key_builder_name h) (ground arith)
