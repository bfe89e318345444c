-- ===== src/Tests/Samples.antt =====
-- Sample builders, templates, pods and clusters.
use build_operator.Controller.Tls.Certificates.{
  ca_template, server_template, encode_cert_pem, encode_key_pem,
}
use build_operator.Memory.Toys.{encode_certificate}
use build_operator.World.{Certificate}
use build_operator.Prelude.{true, none, some, List, [], ◌∷◌}
use build_operator.Prelude.Int.{pos}
use build_operator.Kube.Meta.{Condition, new_meta}
use build_operator.Kube.Storage.{Secret, PersistentVolumeClaim}
use build_operator.Kube.Workload.{Pod}
use build_operator.Template.{
  PvcConfig, BuildkitBuilderTemplate, BuildkitBuilderTemplateSpec, cache_type_pvc,
}
use build_operator.Builder.{BuildkitBuilder, BuildkitBuilderStatus, ExposureConfig, mode_sleepy}
use build_operator.World.{template, secret, builder}
use build_operator.Memory.{memory, Cluster}
use build_operator.Memory.Objects.{put}

abbrev pub pvc_config : PvcConfig
pvc_config = record { storage_class_name = "fast"; size = "50Gi"; access_modes = [] }

abbrev pub template_spec : BuildkitBuilderTemplateSpec
template_spec = record {
  buildkit_image = "moby/buildkit:v0.17.0";
  rootless = true;
  resources = record { limits = []; requests = ("cpu", "2") ∷ []; claims = [] };
  node_selector = some (("disk", "ssd") ∷ []);
  tolerations = none;
  affinity = none;
  buildkitd_toml = "debug = true\n";
  cache_config = record { type = cache_type_pvc; pvc = some pvc_config; s3 = none };
  arch = "arm64";
}

abbrev pub exposure : ExposureConfig
exposure = record {
  enabled = true;
  host = "build.example.com";
  ingress_controller = "traefik";
  entry_point = "";
  annotations = [];
}

abbrev pub empty_status : BuildkitBuilderStatus
empty_status = record {
  endpoint = "";
  node_port = pos 0;
  external_endpoint = "";
  tls_secret_name = "";
  conditions = [];
  phase = "";
  ready_replicas = pos 0;
  desired_replicas = pos 0;
  last_scaled_at = none;
}

abbrev pub sleepy_builder : BuildkitBuilder
sleepy_builder = record {
  meta = record (new_meta "ci" "arm") { uid = "7"; resource_version = "1" };
  spec = record {
    template_ref = none;
    template = some template_spec;
    mode = mode_sleepy;
    replicas = none;
    idle_timeout_seconds = some (pos 60);
    labels = ("team", "platform") ∷ ("note", "not a label!") ∷ [];
    exposure = some exposure;
  };
  status = empty_status;
}

abbrev pub persistent_builder : BuildkitBuilder
persistent_builder = record {
  meta = record (new_meta "ci" "amd") { uid = "8"; resource_version = "1" };
  spec = record sleepy_builder.spec { mode = "persistent"; exposure = none };
  status = empty_status;
}

-- Not exposed, and last used at noon.
abbrev pub nightly_builder : BuildkitBuilder
nightly_builder = record {
  meta = record (new_meta "ci" "nightly") {
    annotations = some (("builder.builder-hub.dev/last-used", "2024-01-01T12:00:00Z") ∷ []);
  };
  spec = record sleepy_builder.spec { exposure = none };
  status = empty_status;
}

-- Its template is gone, and it is being deleted.
abbrev pub lost_builder : BuildkitBuilder
lost_builder = record {
  meta = record (new_meta "ci" "lost") { deletion_timestamp = some (pos 5) };
  spec = record sleepy_builder.spec { template_ref = some "gone"; template = none };
  status = empty_status;
}

abbrev pub sample_template : BuildkitBuilderTemplate
sample_template = record { meta = new_meta "ci" "base"; spec = template_spec }

abbrev pub pods : List Pod
pods =
    record { name = "p0"; labels = []; phase = "Pending"; pod_ip = "" }
    ∷ record { name = "p1"; labels = []; phase = "Running"; pod_ip = "10.0.0.7" }
    ∷ record { name = "p2"; labels = []; phase = "Running"; pod_ip = "10.0.0.8" }
    ∷ []

abbrev pub conditions : List Condition
conditions =
    record {
      type = "Ready";
      status = "False";
      reason = "NotReady";
      message = "";
      last_transition_time = pos 1;
    }
    ∷ []

-- Nothing is stored.
abbrev pub empty_cluster : Cluster
empty_cluster = record {
  objects = record { at = λ k key. none };
  clock = pos 1704110400000000000;
  keys_made = 3;
  pods = pods;
  events = [];
}

abbrev pub with_builder : BuildkitBuilder → Cluster
with_builder b = record empty_cluster { objects = put builder b empty_cluster.objects }

-- The authority's certificate ends at 1000, and the server's two years after the cluster's clock.
abbrev pub ca_sample : Certificate
ca_sample = record (ca_template 1 (pos 0) (pos 0) "ci") { not_after = pos 1000 }

abbrev pub server_sample : Certificate
server_sample = record (server_template 2 (pos 0) (pos 0) "build.example.com") {
  not_after = pos 1767182400000000000;
}

abbrev pub ca_secret : Secret
ca_secret = record {
  meta = new_meta "ci" "builderhub-builder-ca";
  type = "Opaque";
  contents =
      ("ca.crt", encode_cert_pem memory (encode_certificate ca_sample 1 1))
      ∷ ("ca.key", encode_key_pem memory 1)
      ∷ [];
}

abbrev pub stored_secret : Secret
stored_secret = record {
  meta = record (new_meta "ci" "builder-arm-tls") {
    annotations = some (("builder-hub.dev/cert-host", "build.example.com") ∷ []);
  };
  type = "kubernetes.io/tls";
  contents =
      ("tls.crt", encode_cert_pem memory (encode_certificate server_sample 2 1))
      ∷ ("tls.key", encode_key_pem memory 2)
      ∷ [];
}

abbrev pub tls_cluster : Cluster
tls_cluster = record empty_cluster {
  objects = put secret stored_secret (put secret ca_secret empty_cluster.objects);
}

abbrev pub sample_claim : PersistentVolumeClaim
sample_claim = record {
  meta = new_meta "ci" "builder-arm-cache";
  access_modes = "ReadWriteOnce" ∷ [];
  storage_class_name = some "fast";
  requests = ("storage", "50Gi") ∷ [];
}

-- It takes its settings from a shared template.
abbrev pub shared_builder : BuildkitBuilder
shared_builder = record {
  meta = new_meta "ci" "shared";
  spec = record persistent_builder.spec { template_ref = some "base"; template = none };
  status = empty_status;
}

abbrev pub shared_cluster : Cluster
shared_cluster = record empty_cluster {
  objects = put builder shared_builder (put template sample_template empty_cluster.objects);
}
