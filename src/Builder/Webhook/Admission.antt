-- ===== src/Builder/Webhook/Admission.antt =====
-- What a builder that the webhooks admit looks like, and what defaulting keeps.
use build_operator.Prelude.{
  String, ◌==◌, eq_iff, ◌≡◌, ◌≢◌, ◌↔◌, ◌⊎◌, inl, inr, refl, ap, ◌&&◌, Bool-cases, false, Option,
  none, some, arith, is_none,
}
use mathlib.Core.Option.{some-injective}
use build_operator.Builder.{BuildkitBuilder, ExposureConfig, ingress_controller_traefik}
use build_operator.Builder.Webhook.{
  is_empty_ref, default_exposure, default_builder, validate_exposure, validate_builder,
}

-- An exposure that is off, or has a host and names Traefik or nothing.
abbrev pub IsExposable : Option ExposureConfig → Type 0
IsExposable none = Unit
IsExposable (some exp) =
    (exp.enabled ≡ false)
    ⊎ ((exp.host ≢ "")
        × ((exp.ingress_controller ≡ "") ⊎ (exp.ingress_controller ≡ ingress_controller_traefik)))

abbrev HasSource : BuildkitBuilder → Type 0
HasSource b = (b.spec.template_ref ≢ none) ⊎ (b.spec.template ≢ none)

-- What `validate` promises.
pub record IsAdmissible (b : BuildkitBuilder) : Type 0 where
  pub source : HasSource b
  pub reference : b.spec.template_ref ≢ some ""
  pub exposure : IsExposable b.spec.exposure

-- Defaulting a defaulted builder changes nothing.
pub default_builder_idem :
    (b : BuildkitBuilder) → default_builder (default_builder b) ≡ default_builder b
unfolding default_builder
default_builder_idem b = ground arith

validate_exposure-default :
    (o : Option ExposureConfig) → validate_exposure (default_exposure o) ≡ validate_exposure o
unfolding default_exposure validate_exposure
validate_exposure-default none = refl
validate_exposure-default (some exp) = elim (Bool-cases (exp.ingress_controller == "")) [
  | inl blank ↦ rw blank (ground (arith, blank))
  | inr given ↦ rw given (ground (arith, given))
]

-- Validation has the same answer before and after defaulting.
pub validate-default :
    (b : BuildkitBuilder) → validate_builder (default_builder b) ≡ validate_builder b
unfolding default_builder validate_builder
validate-default b = rw validate_exposure-default

validate_exposure_iff : (o : Option ExposureConfig) → (validate_exposure o ≡ none) ↔ IsExposable o
unfolding validate_exposure
validate_exposure_iff none = (λ h. tt, λ h. refl)
validate_exposure_iff (some exp) = ground (
  arith,
  eq_iff exp.host "",
  eq_iff exp.ingress_controller "",
  eq_iff exp.ingress_controller ingress_controller_traefik,
)

reference_iff : (o : Option String) → (is_empty_ref o ≡ false) ↔ (o ≢ some "")
unfolding is_empty_ref
reference_iff none = (λ h e. cc, λ h. refl)
reference_iff (some name) = (
  λ h e. ground (arith, eq_iff name "", some-injective name "" e),
  λ h. elim (Bool-cases (name == "")) [
    | inl blank ↦ absurd (h (ap {B = Option String} some ((eq_iff name "").0 blank)))
    | inr given ↦ given
  ],
)

source_iff {ℓ κ} :
    {A : Type ℓ} {B : Type κ} (a : Option A) (b : Option B)
    → ((is_none a && is_none b) ≡ false) ↔ ((a ≢ none) ⊎ (b ≢ none))
source_iff none none = (λ h. cc, λ h. elim h [ inl n ↦ absurd (n refl) | inr n ↦ absurd (n refl) ])
source_iff none (some b) = (λ h. inr (λ e. cc), λ h. refl)
source_iff (some a) b = (λ h. inl (λ e. cc), λ h. refl)

-- The webhook admits exactly the builders that have a template or a reference, no empty reference,
-- and an exposure that is absent, is off, or has a host and names Traefik or nothing.
pub validate_builder_iff : (b : BuildkitBuilder) → (validate_builder b ≡ none) ↔ IsAdmissible b
unfolding validate_builder
validate_builder_iff b =
    let (ex, ex') = validate_exposure_iff b.spec.exposure in
    let (src, src') = source_iff b.spec.template_ref b.spec.template in
    let (ref, ref') = reference_iff b.spec.template_ref in
    (
      λ h. record {
        source = src (ground arith);
        reference = ref (ground arith);
        exposure = ex (ground arith);
      },
      λ a. rw (src' a.source, ref' a.reference) (ex' a.exposure),
    )
