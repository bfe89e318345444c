-- ===== src/Controller/Objects/Coherent.antt =====
-- The objects of a builder fit one another.
use build_operator.Prelude.{◌≡◌, ◌≢◌, refl, sym, ◌∙◌, [], ◌∷◌, arith, if◌then◌else◌}
use build_operator.Prelude.Int.{ℤ}
use build_operator.Template.{BuildkitBuilderTemplateSpec}
use build_operator.Builder.{BuildkitBuilder}
use build_operator.Controller.Metadata.{config_map_name, cache_name, builder_tls_secret_name}
use build_operator.Controller.Ingress.{exposure_enabled}
use build_operator.Controller.PodSpec.WellFormed.{
  claims_of, secrets_of, config_maps_of, cache_claim, build_pod_spec-MountsExactly,
}
use build_operator.Controller.Metadata.Names.{base_name-ne-client_name}
use build_operator.Controller.Objects.{
  wants_claim, claim_name, headless_service_for_builder, node_port_service_for_builder,
  stateful_set_for_builder,
}
use build_operator.World.{World}

cache_claim-claim_name :
    (b : BuildkitBuilder) (spec : BuildkitBuilderTemplateSpec)
    → cache_claim spec (claim_name b spec)
      ≡ (if wants_claim spec.cache_config then cache_name b ∷ [] else [])
unfolding claim_name
cache_claim-claim_name b spec = ground arith

-- The pod mounts the config map of its builder, the secret of its server certificate exactly if the
-- builder is exposed, and the cache claim exactly if the cache is configured as a claim. It has no
-- other volume of a config map, a secret or a claim; S3 credentials are a projected volume.
pub pod_mounts :
    (W : World) (b : BuildkitBuilder) (spec : BuildkitBuilderTemplateSpec) (replicas : ℤ)
    → let volumes = (stateful_set_for_builder W b spec replicas).template.spec.volumes in
      (config_maps_of volumes ≡ config_map_name b ∷ [])
      × (secrets_of volumes ≡ (if exposure_enabled b then builder_tls_secret_name b ∷ [] else []))
      × (claims_of volumes ≡ (if wants_claim spec.cache_config then cache_name b ∷ [] else []))
unfolding stateful_set_for_builder
pod_mounts W b spec replicas =
    let (configs, secrets, claims) = build_pod_spec-MountsExactly spec b (claim_name b spec) in
    (configs, secrets, claims ∙ cache_claim-claim_name b spec)

-- The labels that the stateful set and both services select by are those of its pods. The stateful
-- set is governed by the headless service, which has no cluster IP and another name than the client
-- service.
pub selectors_agree :
    (W : World) (b : BuildkitBuilder) (spec : BuildkitBuilderTemplateSpec) (replicas : ℤ)
    → let sts = stateful_set_for_builder W b spec replicas in
      let headless = headless_service_for_builder b in
      let client = node_port_service_for_builder b in
      (sts.match_labels ≡ sts.template.labels)
      × (headless.selector ≡ sts.template.labels)
      × (client.selector ≡ sts.template.labels)
      × (sts.service_name ≡ headless.meta.name)
      × (headless.cluster_ip ≡ "None")
      × (client.meta.name ≢ headless.meta.name)
unfolding stateful_set_for_builder headless_service_for_builder node_port_service_for_builder
selectors_agree W b spec replicas =
    (refl, refl, refl, refl, refl, λ e. base_name-ne-client_name b (sym e))
