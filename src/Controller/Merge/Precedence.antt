-- ===== src/Controller/Merge/Precedence.antt =====
-- Which settings win where a template and an inline template combine.
use build_operator.Prelude.{
  String, ◌==◌, eq_iff, ◌≡◌, ◌↔◌, refl, Option, none, some, List, [], ◌∷◌, is_empty, inl, inr, true,
  if◌then◌else◌, Bool-cases, arith,
}
use build_operator.Kube.Workload.{ResourceRequirements}
use build_operator.Template.{CacheConfig, BuildkitBuilderTemplateSpec}
use build_operator.Controller.Merge.{has_resources, or_nil, or_blank, base_of, merge_spec}

-- The new value counts, unless it is blank.
abbrev pub Prefers {ℓ} : {A : Type ℓ} → Type 0 → A → A → A → Type ℓ
Prefers blank old new out = (blank → out ≡ old) × (¬ blank → out ≡ new)

or_blank-Prefers : (new old : String) → Prefers (new ≡ "") old new (or_blank new old)
or_blank-Prefers new old = ground (arith, eq_iff new "")

or_nil-Prefers : {A : Type 0} (new old : Option A) → Prefers (new ≡ none) old new (or_nil new old)
or_nil-Prefers none old = ((λ e. refl), λ given. absurd (given refl))
or_nil-Prefers (some a) old = ((λ e. cc), λ given. refl)

-- No limits and no requests.
abbrev IsBare : ResourceRequirements → Type 0
IsBare r = (r.limits ≡ []) × (r.requests ≡ [])

is_empty_iff {ℓ} : {A : Type ℓ} (xs : List A) → (is_empty xs ≡ true) ↔ (xs ≡ [])
is_empty_iff [] = ((λ e. refl), λ e. refl)
is_empty_iff (x ∷ xs) = ((λ e. cc), λ e. cc)

resources-Prefers :
    (new old : ResourceRequirements)
    → Prefers (IsBare new) old new (if has_resources new then new else old)
resources-Prefers new old =
    let limits = is_empty_iff new.limits in
    let requests = is_empty_iff new.requests in
    elim (Bool-cases (is_empty new.limits)) [
      | inl a ↦ elim (Bool-cases (is_empty new.requests)) [
        | inl b ↦ rw (a, b) ((λ e. refl), λ given. absurd (given (limits.0 a, requests.0 b)))
        | inr b ↦ rw (a, b) ((λ e. cc (requests.1 e.1, b)), λ given. refl)
      ]
      | inr a ↦ rw a ((λ e. cc (limits.1 e.0, a)), λ given. refl)
    ]

cache-Prefers :
    (new old : CacheConfig) → Prefers (new.type ≡ "") old new (if new.type == "" then old else new)
cache-Prefers new old = ground (arith, eq_iff new.type "")

-- Each field of a merged spec, by the old and the new one: `rootless` is always the new one's, and
-- the others where the new one sets them. Resources count as set with a limit or a request, and a
-- cache with a type.
pub record IsMerged (old new out : BuildkitBuilderTemplateSpec) : Type 0 where
  pub image :
      Prefers (new.buildkit_image ≡ "") old.buildkit_image new.buildkit_image out.buildkit_image
  pub rootless : out.rootless ≡ new.rootless
  pub resources : Prefers (IsBare new.resources) old.resources new.resources out.resources
  pub node_selector :
      Prefers (new.node_selector ≡ none) old.node_selector new.node_selector out.node_selector
  pub tolerations : Prefers (new.tolerations ≡ none) old.tolerations new.tolerations out.tolerations
  pub affinity : Prefers (new.affinity ≡ none) old.affinity new.affinity out.affinity
  pub toml :
      Prefers (new.buildkitd_toml ≡ "") old.buildkitd_toml new.buildkitd_toml out.buildkitd_toml
  pub cache :
      Prefers (new.cache_config.type ≡ "") old.cache_config new.cache_config out.cache_config
  pub arch : Prefers (new.arch ≡ "") old.arch new.arch out.arch

-- A merged spec has, field by field, the settings of the inline template where it gives them and
-- those of the template otherwise, or the zero value without a template; `rootless` is always the
-- inline template's. Without an inline template it is the template's spec.
pub merge_spec-IsMerged :
    (base : Option BuildkitBuilderTemplateSpec) (over : BuildkitBuilderTemplateSpec)
    → IsMerged (base_of base) over (merge_spec base (some over))
      × (merge_spec base none ≡ base_of base)
unfolding merge_spec
merge_spec-IsMerged base over = (
  record {
    image = or_blank-Prefers over.buildkit_image (base_of base).buildkit_image;
    rootless = refl;
    resources = resources-Prefers over.resources (base_of base).resources;
    node_selector = or_nil-Prefers over.node_selector (base_of base).node_selector;
    tolerations = or_nil-Prefers over.tolerations (base_of base).tolerations;
    affinity = or_nil-Prefers over.affinity (base_of base).affinity;
    toml = or_blank-Prefers over.buildkitd_toml (base_of base).buildkitd_toml;
    cache = cache-Prefers over.cache_config (base_of base).cache_config;
    arch = or_blank-Prefers over.arch (base_of base).arch;
  },
  refl,
)
