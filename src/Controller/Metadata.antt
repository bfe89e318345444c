-- ===== src/Controller/Metadata.antt =====
-- internal/controller/metadata.go, and the names of the objects that a builder owns.
pub mod Names
use build_operator.Prelude.{String, ◌<>◌}
use build_operator.Builder.{BuildkitBuilder}

abbrev pub label_key_builder_name : String
label_key_builder_name = "builder.builder-hub.dev/name"

abbrev pub label_key_builder_mode : String
label_key_builder_mode = "builder.builder-hub.dev/mode"

abbrev pub annotation_last_used : String
annotation_last_used = "builder.builder-hub.dev/last-used"

abbrev pub finalizer_pvc : String
finalizer_pvc = "builder.builder-hub.dev/pvc-finalizer"

-- `fmt.Sprintf("builder-%s", b.Name)`: the headless service, the stateful set and the route.
unfoldable pub base_name : BuildkitBuilder → String
base_name b = "builder-" <> b.meta.name

-- `fmt.Sprintf("builder-%s-client", b.Name)`
unfoldable pub client_name : BuildkitBuilder → String
client_name b = "builder-" <> (b.meta.name <> "-client")

-- `fmt.Sprintf("builder-%s-cache", b.Name)`
unfoldable pub cache_name : BuildkitBuilder → String
cache_name b = "builder-" <> (b.meta.name <> "-cache")

-- `fmt.Sprintf("builder-%s-buildkitd", b.Name)`
unfoldable pub config_map_name : BuildkitBuilder → String
config_map_name b = "builder-" <> (b.meta.name <> "-buildkitd")

-- `builderTLSSecretName`
unfoldable pub builder_tls_secret_name : BuildkitBuilder → String
builder_tls_secret_name b = "builder-" <> (b.meta.name <> "-tls")
