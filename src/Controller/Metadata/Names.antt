-- ===== src/Controller/Metadata/Names.antt =====
-- Which objects of builders may share a name.
use Prim.Native.String.{count}
use text.Mathlib.TextLemmas.{append_cancel_left, append_cancel_right, length-append}
use text.Mathlib.Text.{starts_with}
use text.Mathlib.TextPositions.{starts_with_of_prefix}
use build_operator.Prelude.{◌<>◌, ◌∙◌, ◌≡◌, refl, true, false, ◌≢◌, ap, ◌⊎◌, inl, inr, arith}
use build_operator.Builder.{BuildkitBuilder}
use build_operator.Controller.Tls.Certificates.{ca_secret_name}
use build_operator.Controller.Metadata.{
  base_name, client_name, cache_name, config_map_name, builder_tls_secret_name,
}

-- Two builders that share the name of the stateful set, of the client service, of the claim, of the
-- config map or of the certificate have the same name.
pub names_injective :
    (b c : BuildkitBuilder)
    → (base_name b ≡ base_name c)
      ⊎ (client_name b ≡ client_name c)
      ⊎ (cache_name b ≡ cache_name c)
      ⊎ (config_map_name b ≡ config_map_name c)
      ⊎ (builder_tls_secret_name b ≡ builder_tls_secret_name c)
    → b.meta.name ≡ c.meta.name
unfolding base_name client_name cache_name config_map_name builder_tls_secret_name
names_injective b c (inl e) = append_cancel_left "builder-" _ _ e
names_injective b c (inr (inl e)) =
    append_cancel_right _ _ "-client" (append_cancel_left "builder-" _ _ e)
names_injective b c (inr (inr (inl e))) =
    append_cancel_right _ _ "-cache" (append_cancel_left "builder-" _ _ e)
names_injective b c (inr (inr (inr (inl e)))) =
    append_cancel_right _ _ "-buildkitd" (append_cancel_left "builder-" _ _ e)
names_injective b c (inr (inr (inr (inr e)))) =
    append_cancel_right _ _ "-tls" (append_cancel_left "builder-" _ _ e)

-- The two services of one builder have different names.
pub base_name-ne-client_name : (b : BuildkitBuilder) → base_name b ≢ client_name b
unfolding base_name client_name
base_name-ne-client_name b e =
    let f = ap count (append_cancel_left "builder-" _ _ e) in
    absurd (omega (arith, f, length-append b.meta.name "-client"))

-- The client service of a builder has the name of the headless service of the builder that is
-- named like it with "-client" behind.
pub client_name_collision :
    (b c : BuildkitBuilder) → c.meta.name ≡ b.meta.name <> "-client" → client_name b ≡ base_name c
unfolding base_name client_name
client_name_collision b c e = rw e

-- No builder's certificate has the name of the authority.
pub authority_name : (b : BuildkitBuilder) → ca_secret_name ≢ builder_tls_secret_name b
unfolding builder_tls_secret_name
authority_name b e =
    let yes : starts_with ca_secret_name "builder-" ≡ true =
      ap (λ name. starts_with name "builder-") e
      ∙ starts_with_of_prefix "builder-" _ (b.meta.name <> "-tls", refl) in
    let no : starts_with ca_secret_name "builder-" ≡ false = refl in cc
