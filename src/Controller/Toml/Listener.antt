-- ===== src/Controller/Toml/Listener.antt =====
-- What buildkitd finds in the file that the operator writes.
use text.Mathlib.TextPositions.{starts_with_of_prefix}
use text.Mathlib.TextLemmas.{nil-append}
use build_operator.Prelude.{
  String, ◌==◌, eq_iff, ◌≡◌, refl, ap, ◌∙◌, Bool, true, false, inl, inr, contains,
  contains-append_left, contains-append_right, contains_self, arith, Bool-cases,
}
use build_operator.Template.{BuildkitBuilderTemplateSpec}
use build_operator.Builder.{BuildkitBuilder}
use build_operator.Controller.Ingress.{exposure_enabled}
use build_operator.Controller.Toml.{
  tcp_listener, grpc_tls, or_default_toml, with_listener, with_tls, buildkitd_toml_for,
}

with_listener-tcp : (toml : String) → contains (with_listener toml) "tcp://" ≡ true
unfolding with_listener
with_listener-tcp toml = elim (Bool-cases (contains toml "tcp://")) [
  | inl has ↦ rw has has
  | inr hasnt ↦
      rw hasnt (contains-append_right tcp_listener toml "tcp://" (unfold contains in refl))
]

with_tls-keeps :
    (exposed : Bool) (toml t : String)
    → contains toml t ≡ true
    → contains (with_tls exposed toml) t ≡ true
unfolding with_tls
with_tls-keeps exposed toml t h = ground (arith, contains-append_right toml grpc_tls t)

with_listener-keeps :
    (toml t : String) → contains toml t ≡ true → contains (with_listener toml) t ≡ true
unfolding with_listener
with_listener-keeps toml t h = ground (arith, contains-append_left tcp_listener toml t)

-- The file always names a TCP listener.
pub buildkitd_toml_for-tcp :
    (b : BuildkitBuilder) (spec : BuildkitBuilderTemplateSpec)
    → contains (buildkitd_toml_for b spec) "tcp://" ≡ true
unfolding buildkitd_toml_for
buildkitd_toml_for-tcp b spec = with_tls-keeps (exposure_enabled b) _ "tcp://" (with_listener-tcp _)

-- The file of an exposed builder has the text "[grpc.tls]" somewhere, be it in a comment of the
-- user's.
pub buildkitd_toml_for-tls :
    (b : BuildkitBuilder) (spec : BuildkitBuilderTemplateSpec)
    → exposure_enabled b ≡ true
    → contains (buildkitd_toml_for b spec) "[grpc.tls]" ≡ true
unfolding buildkitd_toml_for
buildkitd_toml_for-tls b spec h =
    let toml = with_listener (or_default_toml spec.buildkitd_toml) in
    elim (Bool-cases (contains toml "[grpc.tls]")) [
      | inl has ↦ with_tls-keeps (exposure_enabled b) toml "[grpc.tls]" has
      | inr hasnt ↦
          unfold with_tls in
          rw (h, hasnt) (contains-append_left toml grpc_tls "[grpc.tls]" (unfold contains in refl))
    ]

contains_empty : (s : String) → contains s "" ≡ true
unfolding contains
contains_empty String.[] = refl
contains_empty (String.◌∷◌ c s) =
    rw (starts_with_of_prefix "" (String.◌∷◌ c s) (String.◌∷◌ c s, nil-append (String.◌∷◌ c s)))

or_default_toml-keeps : (toml : String) → contains (or_default_toml toml) toml ≡ true
unfolding or_default_toml
or_default_toml-keeps toml = elim (Bool-cases (toml == "")) [
  | inl blank ↦ rw blank (rw ((eq_iff toml "").0 blank) (contains_empty _))
  | inr text ↦ rw text (contains_self toml)
]

-- The text that the spec gives is kept whole inside the file.
pub buildkitd_toml_for-keeps :
    (b : BuildkitBuilder) (spec : BuildkitBuilderTemplateSpec)
    → contains (buildkitd_toml_for b spec) spec.buildkitd_toml ≡ true
unfolding buildkitd_toml_for
buildkitd_toml_for-keeps b spec =
    with_tls-keeps (exposure_enabled b) _ spec.buildkitd_toml
      (with_listener-keeps _ spec.buildkitd_toml (or_default_toml-keeps spec.buildkitd_toml))

or_default_toml_id : (toml : String) → contains toml "tcp://" ≡ true → or_default_toml toml ≡ toml
unfolding or_default_toml contains
or_default_toml_id toml h = elim (Bool-cases (toml == "")) [
  | inl blank ↦ cc (rw ((eq_iff toml "").0 blank) at h)
  | inr text ↦ rw text
]

with_listener_id : (toml : String) → contains toml "tcp://" ≡ true → with_listener toml ≡ toml
unfolding with_listener
with_listener_id toml h = rw h

with_tls_id :
    (exposed : Bool) (toml : String)
    → (exposed ≡ true → contains toml "[grpc.tls]" ≡ true)
    → with_tls exposed toml ≡ toml
unfolding with_tls
with_tls_id true toml h = rw (h refl)
with_tls_id false toml h = refl

-- Given back as the spec's own text, the file is left as it is.
pub buildkitd_toml_for_idem :
    (b : BuildkitBuilder) (spec : BuildkitBuilderTemplateSpec)
    → buildkitd_toml_for b (record spec { buildkitd_toml = buildkitd_toml_for b spec })
      ≡ buildkitd_toml_for b spec
buildkitd_toml_for_idem b spec =
    let out = buildkitd_toml_for b spec in
    let tcp = buildkitd_toml_for-tcp b spec in
    let tls = with_tls_id (exposure_enabled b) out (buildkitd_toml_for-tls b spec) in
    unfold buildkitd_toml_for in
    ap (λ t. with_tls (exposure_enabled b) t)
      (ap with_listener (or_default_toml_id out tcp) ∙ with_listener_id out tcp)
    ∙ tls
