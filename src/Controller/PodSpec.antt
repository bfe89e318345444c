-- ===== src/Controller/PodSpec.antt =====
-- `buildPodSpec` of buildkitbuilder_controller.go.
pub mod WellFormed
use build_operator.Prelude.{
  String, ◌==◌, Bool, true, false, Option, none, some, List, [], ◌∷◌, ◌++◌, Dict, insert,
  insert_all, if◌then◌else◌,
}
use build_operator.Prelude.Int.{pos}
use build_operator.Kube.Workload.{
  PodSecurityContext, SecurityContext, Volume, VolumeMount, VolumeSource, Container, Probe, PodSpec,
}
use build_operator.Template.{
  BuildkitBuilderTemplateSpec, S3Config, CacheConfig, cache_type_pvc, cache_type_s3,
}
use build_operator.Builder.{BuildkitBuilder}
use build_operator.Controller.Metadata.{config_map_name, builder_tls_secret_name}
use build_operator.Controller.Ingress.{exposure_enabled}
use build_operator.Controller.Toml.{tls_mount_path}

abbrev pub root_security : PodSecurityContext
root_security = record {
  run_as_non_root = none;
  run_as_user = none;
  run_as_group = none;
  fs_group = none;
}

abbrev pub rootless_security : PodSecurityContext
rootless_security = record {
  run_as_non_root = some true;
  run_as_user = some (pos 1000);
  run_as_group = some (pos 1000);
  fs_group = some (pos 1000);
}

abbrev pub root_container_security : SecurityContext
root_container_security = record {
  run_as_non_root = none;
  run_as_user = none;
  run_as_group = none;
  seccomp_profile = none;
  app_armor_profile = none;
}

abbrev pub rootless_container_security : SecurityContext
rootless_container_security = record {
  run_as_non_root = some true;
  run_as_user = some (pos 1000);
  run_as_group = some (pos 1000);
  seccomp_profile = some "Unconfined";
  app_armor_profile = some "Unconfined";
}

abbrev pub cache_mount_path : Bool → String
cache_mount_path rootless =
    if rootless then "/home/user/.local/share/buildkit" else "/var/lib/buildkit"

abbrev pub buildkit_args : Bool → List String
buildkit_args rootless =
    let args = "--config" ∷ "/etc/buildkit/buildkitd.toml" ∷ [] in
    if rootless then "--oci-worker-no-process-sandbox" ∷ args else args

-- A range over a nil map does nothing.
abbrev pub entries : Option (Dict String) → Dict String
entries none = []
entries (some m) = m

-- The architecture first, then the selector of the spec over it.
unfoldable pub node_selector_for : BuildkitBuilderTemplateSpec → Dict String
node_selector_for spec =
    insert_all (entries spec.node_selector)
      (if spec.arch == "" then [] else insert "kubernetes.io/arch" spec.arch [])

-- The local variables `volumes` and `volumeMounts`, which grow together.
pub record Mounts : Type 0 where
  pub volumes : List Volume
  pub volume_mounts : List VolumeMount

abbrev no_mounts : Mounts
no_mounts = record { volumes = []; volume_mounts = [] }

-- The two calls of `append`: a volume, and a mount of the same name.
unfoldable pub mount : String → VolumeSource → String → Bool → Mounts → Mounts
mount name source path read_only m = record {
  volumes = m.volumes ++ (record { name = name; source = source } ∷ []);
  volume_mounts =
      m.volume_mounts ++ (record { name = name; mount_path = path; read_only = read_only } ∷ []);
}

mount_config : BuildkitBuilder → Mounts → Mounts
unfolding mount
mount_config b m =
    mount "buildkitd-config" (VolumeSource.config_map (config_map_name b)) "/etc/buildkit" false m

mount_tls : BuildkitBuilder → Mounts → Mounts
unfolding mount
mount_tls b m =
    if exposure_enabled b
    then mount "builder-tls" (VolumeSource.secret (builder_tls_secret_name b)) tls_mount_path true m
    else m

cache_source : CacheConfig → Option String → VolumeSource
cache_source cache none = VolumeSource.empty_dir
cache_source cache (some claim) =
    if cache.type == cache_type_pvc
    then VolumeSource.persistent_volume_claim claim
    else VolumeSource.empty_dir

mount_cache : BuildkitBuilderTemplateSpec → Option String → Mounts → Mounts
unfolding mount cache_source
mount_cache spec pvc_name m =
    mount "cache" (cache_source spec.cache_config pvc_name) (cache_mount_path spec.rootless) false m

s3_secret : Option S3Config → Option String
s3_secret none = none
s3_secret (some s3) = s3.secret_ref

mount_projected : Option String → Mounts → Mounts
unfolding mount
mount_projected none m = m
mount_projected (some name) m =
    mount "s3-creds"
      (VolumeSource.projected_secret name
        (record { key = "credentials"; path = "credentials" } ∷ []))
      "/etc/buildkit/s3-creds" true m

mount_s3 : CacheConfig → Mounts → Mounts
unfolding mount_projected s3_secret
mount_s3 cache m = if cache.type == cache_type_s3 then mount_projected (s3_secret cache.s3) m else m

unfoldable pub mounts_for : BuildkitBuilderTemplateSpec → BuildkitBuilder → Option String → Mounts
unfolding mount_config mount_tls mount_cache mount_s3
mounts_for spec b pvc_name =
    mount_s3 spec.cache_config (mount_cache spec pvc_name (mount_tls b (mount_config b no_mounts)))

-- `buildPodSpec`
unfoldable pub build_pod_spec :
    BuildkitBuilderTemplateSpec → BuildkitBuilder → Option String → PodSpec
unfolding node_selector_for mounts_for
build_pod_spec spec b pvc_name =
    let m = mounts_for spec b pvc_name in
    record {
      security_context = if spec.rootless then rootless_security else root_security;
      node_selector = node_selector_for spec;
      tolerations = spec.tolerations;
      affinity = spec.affinity;
      volumes = m.volumes;
      restart_policy = "Always";
      image_pull_secrets = [];
      containers =
          record {
            name = "buildkitd";
            image = spec.buildkit_image;
            args = buildkit_args spec.rootless;
            security_context =
                if spec.rootless then rootless_container_security else root_container_security;
            ports =
                record { name = "buildkit"; container_port = pos 1234 }
                ∷ record { name = "metrics"; container_port = pos 1235 }
                ∷ [];
            resources = spec.resources;
            volume_mounts = m.volume_mounts;
            liveness_probe = record {
              tcp_port = pos 1234;
              initial_delay_seconds = pos 10;
              period_seconds = pos 10;
            };
            readiness_probe = record {
              tcp_port = pos 1234;
              initial_delay_seconds = pos 5;
              period_seconds = pos 5;
            };
          }
          ∷ [];
    }
