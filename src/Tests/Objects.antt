-- ===== src/Tests/Objects.antt =====
-- The objects of sample builders, and their names.
use build_operator.Prelude.{◌≡◌, ◌≢◌, inl, [], ◌∷◌, refl, if◌then◌else◌}
use build_operator.Prelude.Int.{pos}
use build_operator.Controller.Metadata.{cache_name, config_map_name, builder_tls_secret_name}
use build_operator.Controller.Metadata.Names.{names_injective}
use build_operator.Controller.Ingress.{exposure_enabled}
use build_operator.Controller.Objects.{
  wants_claim, pvc_for_builder, stateful_set_for_builder, headless_service_for_builder,
  node_port_service_for_builder,
}
use build_operator.Controller.Objects.Coherent.{pod_mounts, selectors_agree}
use build_operator.Controller.Objects.Claims.{Builds, requested, pvc_for_builder_lem}
use build_operator.Controller.PodSpec.WellFormed.{config_maps_of, secrets_of, claims_of}
use build_operator.Memory.{memory}
use build_operator.Tests.Samples.{sleepy_builder, template_spec, pvc_config}

names_injective_example : sleepy_builder.meta.name ≡ sleepy_builder.meta.name
names_injective_example = names_injective sleepy_builder sleepy_builder (inl refl)

pod_mounts_example :
    let volumes =
      (stateful_set_for_builder memory sleepy_builder template_spec
        (pos 1)).template.spec.volumes in
    (config_maps_of volumes ≡ config_map_name sleepy_builder ∷ [])
    × (secrets_of volumes ≡ (
        if exposure_enabled sleepy_builder
        then builder_tls_secret_name sleepy_builder ∷ []
        else []))
    × (claims_of volumes
        ≡ (if wants_claim template_spec.cache_config then cache_name sleepy_builder ∷ [] else []))
pod_mounts_example = pod_mounts memory sleepy_builder template_spec (pos 1)

selectors_agree_example :
    let sts = stateful_set_for_builder memory sleepy_builder template_spec (pos 1) in
    let headless = headless_service_for_builder sleepy_builder in
    let client = node_port_service_for_builder sleepy_builder in
    (sts.match_labels ≡ sts.template.labels)
    × (headless.selector ≡ sts.template.labels)
    × (client.selector ≡ sts.template.labels)
    × (sts.service_name ≡ headless.meta.name)
    × (headless.cluster_ip ≡ "None")
    × (client.meta.name ≢ headless.meta.name)
selectors_agree_example = selectors_agree memory sleepy_builder template_spec (pos 1)

pvc_for_builder_lem_example :
    Builds sleepy_builder pvc_config
      (pvc_for_builder memory sleepy_builder pvc_config)
      (memory.parse_quantity (requested pvc_config))
pvc_for_builder_lem_example = pvc_for_builder_lem memory sleepy_builder pvc_config
