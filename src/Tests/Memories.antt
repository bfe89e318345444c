-- ===== src/Tests/Memories.antt =====
-- Deep copies in a small heap, where the types of the libraries hold no addresses.
use build_operator.Prelude.{ℕ, String, true, false, none, some, [], ◌∷◌, arith}
use build_operator.Prelude.Int.{pos}
use build_operator.Kube.Meta.{ObjectMeta, Condition, Instant, new_meta}
use build_operator.Kube.Workload.{ResourceRequirements, Toleration, Affinity}
use build_operator.Copies.{
  Types, StoredTemplateSpec, StoredTemplate, StoredBuilder, Sort, CellOf, Heap, text, number, words,
  dict, pvc, s3, tolerations, affinity, template_spec, exposure, conditions, time, spec, status,
  cache, builder, builders, template, templates, list, foreign,
}
use build_operator.Copies.Laws.{plain, plain-IsDeep, pair, each}
use build_operator.Copies.Pointers.{pointer}
use build_operator.Copies.Structures.{Library, IsDocumented, through}
use build_operator.Copies.Builders.{deep_copy_builder_list}
use build_operator.Copies.Templates.{deep_copy_template_list, deep_copy_template_spec}
use build_operator.Copies.Apart.{
  AreApart, deep_copy_builder_list-AreApart, deep_copy_template_list-AreApart,
}

abbrev types : Types
types = record {
  Cell = Unit {0};
  Meta = ObjectMeta;
  ListMeta = String;
  Resources = ResourceRequirements;
  Toleration = Toleration;
  Affinity = Affinity;
  Condition = Condition;
  Time = Instant;
}

abbrev library : Library types
library = record {
  ListView = String;
  meta = plain types ObjectMeta;
  list_meta = plain types String;
  resources = plain types ResourceRequirements;
  toleration = plain types Toleration;
  affinity = plain types Affinity;
  condition = plain types Condition;
  time = plain types Instant;
}

library-IsDocumented : IsDocumented types library
library-IsDocumented = record {
  meta = plain-IsDeep types ObjectMeta;
  list_meta = plain-IsDeep types String;
  resources = plain-IsDeep types ResourceRequirements;
  toleration = plain-IsDeep types Toleration;
  affinity = plain-IsDeep types Affinity;
  condition = plain-IsDeep types Condition;
  time = plain-IsDeep types Instant;
}

abbrev stored_spec : StoredTemplateSpec types
stored_spec = record {
  buildkit_image = "moby/buildkit:v0.17.0";
  rootless = true;
  resources = record { limits = []; requests = ("cpu", "2") ∷ []; claims = [] };
  node_selector = none;
  tolerations = none;
  affinity = none;
  buildkitd_toml = "";
  cache_config = record { type = "pvc"; pvc = some 3; s3 = none };
  arch = "arm64";
}

abbrev stored_builder : StoredBuilder types
stored_builder = record {
  type_meta = record { kind = "BuildkitBuilder"; api_version = "builder-hub.dev/v1alpha1" };
  meta = new_meta "ci" "arm";
  spec = record {
    template_ref = none;
    template = some 4;
    mode = "persistent";
    replicas = some 1;
    idle_timeout_seconds = none;
    labels = some 0;
    exposure = none;
  };
  status = record {
    endpoint = "";
    node_port = pos 0;
    external_endpoint = "";
    tls_secret_name = "";
    conditions = none;
    phase = "";
    ready_replicas = pos 0;
    desired_replicas = pos 0;
    last_scaled_at = none;
  };
}

abbrev stored_template : StoredTemplate types
stored_template = record {
  type_meta = record { kind = "BuildkitBuilderTemplate"; api_version = "v1alpha1" };
  meta = new_meta "ci" "base";
  spec = stored_spec;
}

-- The cells of each sort: labels, replicas, access modes, a claim, a spec, and slices of one.
cells : (k : Sort) → ℕ → CellOf types k
cells text a = ""
cells number a = pos 2
cells words a = "ReadWriteOnce" ∷ []
cells dict a = ("team", "platform") ∷ []
cells pvc a = record { storage_class_name = ""; size = "50Gi"; access_modes = some 2 }
cells s3 a = record { bucket = ""; region = ""; endpoint = ""; secret_ref = none }
cells tolerations a = []
cells affinity a = record { manifest = "" }
cells template_spec a = stored_spec
cells exposure a = record {
  enabled = false;
  host = "";
  ingress_controller = "";
  entry_point = "";
  annotations = none;
}
cells conditions a = []
cells time a = pos 0
cells spec a = stored_builder.spec
cells status a = stored_builder.status
cells cache a = stored_spec.cache_config
cells builder a = stored_builder
cells builders a = stored_builder ∷ []
cells template a = stored_template
cells templates a = stored_template ∷ []
cells list a = record {
  type_meta = record { kind = "List"; api_version = "v1" };
  meta = "7";
  items = some 5;
}
cells foreign a = tt

abbrev heap : Heap types
heap = record { next = 7; at = cells }

deep_copy_builder_list-AreApart_example :
    AreApart types
      (deep_copy_builder_list types library)
      (some 6)
      heap
      ((deep_copy_builder_list types library).copy (some 6) heap)
unfolding cells deep_copy_builder_list deep_copy_template_spec plain pair each pointer through
deep_copy_builder_list-AreApart_example =
    deep_copy_builder_list-AreApart types library library-IsDocumented (some 6) heap (
      omega arith,
      omega arith,
      (
        tt,
        (
          omega arith,
          omega arith,
          (
            (
              tt,
              (
                (
                  tt,
                  (
                    (
                      omega arith,
                      omega arith,
                      (
                        tt,
                        (
                          tt,
                          (
                            tt,
                            (tt, ((omega arith, omega arith, (omega arith, omega arith, tt)), tt)),
                          ),
                        ),
                      ),
                    ),
                    (
                      (omega arith, omega arith, tt),
                      (tt, ((omega arith, omega arith, (tt, tt)), tt)),
                    ),
                  ),
                ),
                (tt, tt),
              ),
            ),
            tt,
          ),
        ),
      ),
    )

deep_copy_template_list-AreApart_example :
    AreApart types
      (deep_copy_template_list types library)
      (some 6)
      heap
      ((deep_copy_template_list types library).copy (some 6) heap)
unfolding cells deep_copy_template_list plain pair each pointer through
deep_copy_template_list-AreApart_example =
    deep_copy_template_list-AreApart types library library-IsDocumented (some 6) heap (
      omega arith,
      omega arith,
      (
        tt,
        (
          omega arith,
          omega arith,
          (
            (
              tt,
              (
                tt,
                (tt, (tt, (tt, ((omega arith, omega arith, (omega arith, omega arith, tt)), tt)))),
              ),
            ),
            tt,
          ),
        ),
      ),
    )
