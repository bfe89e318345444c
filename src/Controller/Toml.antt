-- ===== src/Controller/Toml.antt =====
-- `defaultBuildkitdToml` and the text that `ensureBuildkitdConfigMap` writes.
pub mod Listener
use build_operator.Prelude.{String, ◌<>◌, ◌==◌, Bool, ◌&&◌, not, contains, if◌then◌else◌}
use build_operator.Template.{BuildkitBuilderTemplateSpec}
use build_operator.Builder.{BuildkitBuilder}
use build_operator.Controller.Ingress.{exposure_enabled}

abbrev pub tls_mount_path : String
tls_mount_path = "/etc/buildkit-tls"

-- `defaultBuildkitdToml`
abbrev pub default_buildkitd_toml : String
default_buildkitd_toml =
    "[grpc]\n  address = [ \"tcp://0.0.0.0:1234\" ]\n\n[worker.containerd]\n  enabled = false\n\n[worker.oci]\n  enabled = true\n"

abbrev pub tcp_listener : String
tcp_listener = "[grpc]\n  address = [ \"tcp://0.0.0.0:1234\" ]\n\n"

-- The `fmt.Sprintf` of the TLS table.
abbrev pub grpc_tls : String
grpc_tls =
    "\n[grpc.tls]\n  cert = \""
    <> (tls_mount_path
        <> ("/tls.crt\"\n  key = \""
            <> (tls_mount_path <> ("/tls.key\"\n  ca = \"" <> (tls_mount_path <> "/ca.crt\"\n")))))

unfoldable pub or_default_toml : String → String
or_default_toml toml = if toml == "" then default_buildkitd_toml else toml

unfoldable pub with_listener : String → String
with_listener toml = if contains toml "tcp://" then toml else tcp_listener <> toml

unfoldable pub with_tls : Bool → String → String
with_tls exposed toml =
    if exposed && not (contains toml "[grpc.tls]") then toml <> grpc_tls else toml

-- The first half of `ensureBuildkitdConfigMap`.
unfoldable pub buildkitd_toml_for : BuildkitBuilder → BuildkitBuilderTemplateSpec → String
unfolding or_default_toml with_listener with_tls
buildkitd_toml_for b spec =
    with_tls (exposure_enabled b) (with_listener (or_default_toml spec.buildkitd_toml))
