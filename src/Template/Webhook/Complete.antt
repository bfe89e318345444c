-- ===== src/Template/Webhook/Complete.antt =====
-- What a template that has passed both webhooks holds, as the controller relies on it.
use build_operator.Prelude.{
  String, ◌==◌, eq_iff, ◌≡◌, ◌≢◌, ◌↔◌, refl, Bool-cases, inl, inr, Option, none, some, List, [],
  ◌∷◌, is_empty, arith, if◌then◌else◌,
}
use build_operator.Template.{BuildkitBuilderTemplate, CacheConfig, PvcConfig, cache_type_pvc}
use build_operator.Template.Webhook.{
  default_image, default_access_modes, default_cache, default_template, validate_template_create,
  validate_template_update, validate_template_delete, read_write_once,
}
use build_operator.Template.Webhook.Admission.{
  IsUsable, validate_template_iff, validate-default_template,
}

-- A claim that the template asks for can be mounted in some way.
abbrev pub IsMountable : Option PvcConfig → Type 0
IsMountable none = Unit
IsMountable (some pvc) = pvc.access_modes ≢ []

pub record IsComplete (t : BuildkitBuilderTemplate) : Type 0 where
  pub image : t.spec.buildkit_image ≢ ""
  pub modes : t.spec.cache_config.type ≡ cache_type_pvc → IsMountable t.spec.cache_config.pvc

given_modes :
    (pvc : PvcConfig) (modes : List String)
    → modes ≡ pvc.access_modes
    → IsMountable (
        if is_empty modes
        then some (record pvc { access_modes = read_write_once ∷ [] })
        else some pvc)
given_modes pvc [] e = λ f. cc
given_modes pvc (m ∷ ms) e = λ f. cc

default_access_modes-IsMountable : (o : Option PvcConfig) → IsMountable (default_access_modes o)
unfolding default_access_modes
default_access_modes-IsMountable none = tt
default_access_modes-IsMountable (some pvc) = given_modes pvc pvc.access_modes refl

-- The claim that defaulting leaves, where the type asks for one.
default_cache-IsMountable :
    (c : CacheConfig) → (default_cache c).type ≡ cache_type_pvc → IsMountable (default_cache c).pvc
unfolding default_cache
default_cache-IsMountable c = elim (Bool-cases (c.type == cache_type_pvc)) [
  | inl asked ↦ rw asked (λ e. default_access_modes-IsMountable c.pvc)
  | inr unasked ↦ rw unasked (λ e. ground (arith, eq_iff c.type cache_type_pvc))
]

-- A template that has been defaulted is admitted at its creation exactly if its cache was usable
-- before; an update to it has the same verdict, whatever the old object was, and deletion is never
-- refused. No review gives a warning. Every template that has been defaulted has an image, and
-- access modes for its claim if its cache is one.
pub admitted_template-IsComplete :
    (old t : BuildkitBuilderTemplate)
    → (((validate_template_create (default_template t)).1 ≡ none) ↔ IsUsable t.spec.cache_config)
      × ((validate_template_create (default_template t)).0 ≡ [])
      × (validate_template_update old (default_template t)
          ≡ validate_template_create (default_template t))
      × (validate_template_delete old ≡ ([], none))
      × IsComplete (default_template t)
unfolding validate_template_create validate_template_update validate_template_delete
    default_template
admitted_template-IsComplete old t =
    let (usable, fine) = validate_template_iff t in
    let (same, image) = validate-default_template t in
    (
      (λ h. usable (rw same at h), λ u. rw same (fine u)),
      refl,
      refl,
      refl,
      record {
        image = image;
        modes = default_cache-IsMountable (default_image t.spec).cache_config;
      },
    )
