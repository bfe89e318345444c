-- ===== src/Template/Webhook/Admission.antt =====
-- What a template that the webhooks admit looks like, and what defaulting keeps.
use build_operator.Prelude.{
  String, ◌==◌, eq_iff, ◌≡◌, ◌≢◌, ◌↔◌, refl, inl, inr, Bool-cases, false, Option, none, some, arith,
}
use build_operator.Template.{
  BuildkitBuilderTemplate, CacheConfig, PvcConfig, S3Config, cache_type_pvc, cache_type_s3,
}
use build_operator.Template.Webhook.{validate_pvc, validate_s3, default_template, validate_template}

abbrev pub HasSize : Option PvcConfig → Type 0
HasSize none = ⊥
HasSize (some pvc) = pvc.size ≢ ""

abbrev pub HasBucket : Option S3Config → Type 0
HasBucket none = ⊥
HasBucket (some s3) = s3.bucket ≢ ""

-- A claim backend has a size, and an S3 backend a bucket.
pub record IsUsable (c : CacheConfig) : Type 0 where
  pub claim : c.type ≡ cache_type_pvc → HasSize c.pvc
  pub bucket : c.type ≡ cache_type_s3 → HasBucket c.s3

validate_pvc_iff : (o : Option PvcConfig) → (validate_pvc o ≡ none) ↔ HasSize o
unfolding validate_pvc
validate_pvc_iff none = (λ h. cc, λ h. absurd h)
validate_pvc_iff (some pvc) = ground (arith, eq_iff pvc.size "")

validate_s3_iff : (o : Option S3Config) → (validate_s3 o ≡ none) ↔ HasBucket o
unfolding validate_s3
validate_s3_iff none = (λ h. cc, λ h. absurd h)
validate_s3_iff (some s3) = ground (arith, eq_iff s3.bucket "")

-- Defaulting a defaulted template changes nothing.
pub default_template_idem :
    (t : BuildkitBuilderTemplate) → default_template (default_template t) ≡ default_template t
unfolding default_template
default_template_idem t = ground arith

literal_image : (s : String) → (s == "") ≡ false → s ≢ ""
literal_image s h e = ground (arith, eq_iff s "")

-- Defaulting does not change the verdict of validation, and leaves an image that is not empty.
pub validate-default_template :
    (t : BuildkitBuilderTemplate)
    → (validate_template (default_template t) ≡ validate_template t)
      × ((default_template t).spec.buildkit_image ≢ "")
unfolding default_template validate_template
validate-default_template t = (
  ground arith,
  ground (
    arith,
    eq_iff t.spec.buildkit_image "",
    literal_image "moby/buildkit:master-rootless" refl,
    literal_image "moby/buildkit:master" refl,
  ),
)

-- The webhook admits exactly the templates whose claim backend has a size and whose S3 backend has
-- a bucket, where the backend is of that type.
pub validate_template_iff :
    (t : BuildkitBuilderTemplate) → (validate_template t ≡ none) ↔ IsUsable t.spec.cache_config
unfolding validate_template
validate_template_iff t =
    let c = t.spec.cache_config in
    let (size, size') = validate_pvc_iff c.pvc in
    let (bucket, bucket') = validate_s3_iff c.s3 in
    (
      λ h. record {
        claim = λ e. size (ground (arith, (eq_iff c.type cache_type_pvc).1 e));
        bucket = λ e.
            let other : (c.type == cache_type_pvc) ≡ false = rw e refl in
            bucket (ground (arith, other, (eq_iff c.type cache_type_s3).1 e));
      },
      λ u. elim (Bool-cases (c.type == cache_type_pvc)) [
        | inl pvc ↦ rw pvc (size' (u.claim ((eq_iff c.type cache_type_pvc).0 pvc)))
        | inr not_pvc ↦ rw not_pvc (elim (Bool-cases (c.type == cache_type_s3)) [
          | inl s3 ↦ rw s3 (bucket' (u.bucket ((eq_iff c.type cache_type_s3).0 s3)))
          | inr neither ↦ rw neither
        ])
      ],
    )
