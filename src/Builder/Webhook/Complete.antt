-- ===== src/Builder/Webhook/Complete.antt =====
-- What a builder that has passed both webhooks holds, as the controller relies on it.
use build_operator.Prelude.{
  String, ◌==◌, eq_iff, ◌≡◌, ◌≢◌, ◌⊎◌, ◌&&◌, ◌↔◌, refl, inl, inr, Bool, true, false, Option, none,
  some, [], is_none, arith, if◌then◌else◌,
}
use build_operator.Prelude.Int.{ℤ, pos}
use build_operator.Builder.{
  BuildkitBuilder, ExposureConfig, mode_sleepy, ingress_controller_traefik,
}
use build_operator.Builder.Webhook.{
  default_exposure, default_builder, default_entry_point, validate_builder_create,
  validate_builder_update, validate_builder_delete, validate_builder,
}
use build_operator.Builder.Webhook.Admission.{
  IsExposable, IsAdmissible, validate-default, validate_builder_iff,
}

-- An exposure that is on has its host, its ingress controller and its entry point.
abbrev pub IsFilled : Option ExposureConfig → Type 0
IsFilled none = Unit
IsFilled (some exp) =
    (exp.enabled ≡ false)
    ⊎ ((exp.host ≢ "")
        × (exp.ingress_controller ≡ ingress_controller_traefik)
        × (exp.entry_point ≢ ""))

pub record IsComplete (b : BuildkitBuilder) : Type 0 where
  pub replicas : b.spec.replicas ≢ none
  pub timeout : b.spec.mode ≡ mode_sleepy → b.spec.idle_timeout_seconds ≢ none
  pub exposure : IsFilled b.spec.exposure

either_way :
    (c : Bool) (x y : Option ExposureConfig)
    → (c ≡ true → IsFilled x)
    → (c ≡ false → IsFilled y)
    → IsFilled (if c then x else y)
either_way true x y on off = on refl
either_way false x y on off = off refl

entry_point_of : (e : String) → (if e == "" then default_entry_point else e) ≢ ""
entry_point_of e = ground (arith, eq_iff e "", eq_iff default_entry_point "")

controller_of :
    (c : String)
    → (c ≡ "") ⊎ (c ≡ ingress_controller_traefik)
    → (if c == "" then ingress_controller_traefik else c) ≡ ingress_controller_traefik
controller_of c h = ground (arith, eq_iff c "")

default_exposure-IsFilled :
    (o : Option ExposureConfig) → IsExposable o → IsFilled (default_exposure o)
unfolding default_exposure
default_exposure-IsFilled none h = tt
default_exposure-IsFilled (some exp) (inl off) = either_way exp.enabled _ _ (λ on. cc) (λ e. inl e)
default_exposure-IsFilled (some exp) (inr (host, named)) =
    either_way exp.enabled _ _
      (λ on. inr (host, controller_of exp.ingress_controller named, entry_point_of exp.entry_point))
      (λ e. inl e)

given_replicas : (o : Option ℤ) → (if is_none o then some (pos 1) else o) ≢ none
given_replicas none = λ e. cc
given_replicas (some n) = λ e. cc

given_timeout :
    (sleepy : Bool) (o : Option ℤ)
    → sleepy ≡ true
    → (if sleepy && is_none o then some (pos 300) else o) ≢ none
given_timeout sleepy none e = rw e (λ e'. cc)
given_timeout sleepy (some n) e = rw e (λ e'. cc)

complete : (b : BuildkitBuilder) → validate_builder b ≡ none → IsComplete (default_builder b)
unfolding default_builder
complete b fine = record {
  replicas = given_replicas b.spec.replicas;
  timeout = λ e.
      given_timeout (b.spec.mode == mode_sleepy) b.spec.idle_timeout_seconds
        ((eq_iff b.spec.mode mode_sleepy).1 e);
  exposure = default_exposure-IsFilled b.spec.exposure ((validate_builder_iff b).0 fine).exposure;
}

-- A builder that has been defaulted is admitted at its creation exactly if it was admissible
-- before; an update to it has the same verdict, whatever the old object was, and deletion is never
-- refused. No review gives a warning. One that is admitted has its replicas, its timeout if it is
-- sleepy, and, where its exposure is on, a host, Traefik as its ingress controller and an entry
-- point.
pub admitted-IsComplete :
    (old b : BuildkitBuilder)
    → (((validate_builder_create (default_builder b)).1 ≡ none) ↔ IsAdmissible b)
      × ((validate_builder_create (default_builder b)).0 ≡ [])
      × (validate_builder_update old (default_builder b)
          ≡ validate_builder_create (default_builder b))
      × (validate_builder_delete old ≡ ([], none))
      × (IsAdmissible b → IsComplete (default_builder b))
unfolding validate_builder_create validate_builder_update validate_builder_delete
admitted-IsComplete old b =
    let (admissible, fine) = validate_builder_iff b in
    (
      (λ h. admissible (rw (validate-default b) at h), λ a. rw (validate-default b) (fine a)),
      refl,
      refl,
      refl,
      λ a. complete b (fine a),
    )
