-- ===== src/Tests/Certificates.antt =====
-- Certificates in the cluster in memory.
use build_operator.Prelude.{ℕ, ◌≡◌, eq_iff, lookup, inl, inr, some, refl, arith}
use build_operator.Prelude.Int.{◌+ℤ◌}
use build_operator.Exec.{ok, and_then}
use build_operator.Kube.Storage.{entry}
use build_operator.Controller.Metadata.{builder_tls_secret_name}
use build_operator.Controller.Tls.Certificates.{Authority, parse_cert_and_key}
use build_operator.Controller.Tls.Namespace.{read_authority, ensure_namespace_ca}
use build_operator.Controller.Tls.Certificates.{encode_cert_pem, encode_key_pem}
use build_operator.Controller.Tls.Renewal.{parse-encode}
use build_operator.Controller.Tls.Creation.{ensure_namespace_ca_twice}
use build_operator.Controller.Tls.Issue.{IsServed, ensure_builder_server_cert-IsServed}
use build_operator.Controller.Exposure.{reconcile_exposure}
use build_operator.Controller.Exposure.State.{IsExposed}
use build_operator.Controller.Exposure.Shown.{reconcile_exposure-IsExposed}
use build_operator.Controller.Tls.Server.{ensure_builder_server_cert}
use build_operator.Controller.Tls.Renewal.{ensure_builder_server_cert-keeps}
use build_operator.World.Laws.{IsUnchanged}
use build_operator.Memory.{memory}
use build_operator.Memory.Toys.{toy_certificate, encode_certificate, decode-encode}
use build_operator.World.{Certificate}
use build_operator.Memory.Objects.{read, put, write_at}
use build_operator.Memory.Laws.{peek, reliable_memory, memory-IsTrusted, memory-IsOwning}
use build_operator.Tests.Samples.{
  sleepy_builder, exposure, ca_secret, stored_secret, ca_sample, server_sample, tls_cluster,
  empty_cluster,
}

abbrev authority : Authority memory
authority = record {
  pem = entry ca_secret "ca.crt";
  certificate = toy_certificate ca_sample 1 1;
  key = 1;
}

-- The stored pairs parse.
parses :
    (tmpl : Certificate) (key signer : ℕ)
    → parse_cert_and_key memory
        (encode_cert_pem memory (encode_certificate tmpl key signer))
        (encode_key_pem memory key)
      ≡ ok (toy_certificate tmpl key signer, key)
parses tmpl key signer =
    parse-encode memory reliable_memory memory-IsTrusted (encode_certificate tmpl key signer)
      (toy_certificate tmpl key signer) key (decode-encode tmpl key signer)

authority_parses : read_authority memory ca_secret ≡ ok authority
unfolding read_authority and_then entry lookup
authority_parses = rw (parses ca_sample 1 1) refl

server_parses :
    parse_cert_and_key memory (entry stored_secret "tls.crt") (entry stored_secret "tls.key")
    ≡ ok (toy_certificate server_sample 2 1, 2)
unfolding entry lookup
server_parses = parses server_sample 2 1

ensure_builder_server_cert-keeps_example :
    (ensure_builder_server_cert memory sleepy_builder exposure tls_cluster
      ≡ (ok (builder_tls_secret_name sleepy_builder), (memory.now tls_cluster).1))
    × IsUnchanged memory peek tls_cluster (memory.now tls_cluster).1
unfolding read put write_at toy_certificate builder_tls_secret_name ◌+ℤ◌ lookup
ensure_builder_server_cert-keeps_example =
    ensure_builder_server_cert-keeps memory reliable_memory sleepy_builder exposure ca_secret
      stored_secret authority (toy_certificate server_sample 2 1, 2) tls_cluster
      (λ e. ground (arith, eq_iff "build.example.com" "")) refl authority_parses refl refl
      server_parses (omega arith)

-- A cluster without an authority gets one, and a second call finds it.
ensure_namespace_ca_twice_example :
    ensure_namespace_ca memory "ci" (ensure_namespace_ca memory "ci" empty_cluster).1 ≡ (
      (ensure_namespace_ca memory "ci" empty_cluster).0,
      (ensure_namespace_ca memory "ci" empty_cluster).1,
    )
unfolding read
ensure_namespace_ca_twice_example =
    ensure_namespace_ca_twice memory reliable_memory memory-IsTrusted "ci" empty_cluster
      (ensure_namespace_ca memory "ci" empty_cluster).1 (inl refl) refl

ensure_builder_server_cert-IsServed_example :
    IsServed memory reliable_memory sleepy_builder "build.example.com" empty_cluster
      (ensure_builder_server_cert memory sleepy_builder exposure empty_cluster)
unfolding read
ensure_builder_server_cert-IsServed_example =
    ensure_builder_server_cert-IsServed memory reliable_memory memory-IsTrusted sleepy_builder
      exposure empty_cluster (memory-IsOwning sleepy_builder.meta)
      (λ e. ground (arith, eq_iff "build.example.com" "")) refl (inl refl)

reconcile_exposure-IsExposed_example :
    IsExposed memory reliable_memory sleepy_builder
      (some exposure)
      empty_cluster
      (reconcile_exposure memory sleepy_builder empty_cluster)
unfolding read
reconcile_exposure-IsExposed_example =
    reconcile_exposure-IsExposed memory reliable_memory memory-IsTrusted sleepy_builder
      empty_cluster (memory-IsOwning sleepy_builder.meta)
      (inr ((λ e. ground (arith, eq_iff "build.example.com" "")), inr refl)) refl (inl refl)

parse-encode_example :
    parse_cert_and_key memory
      (encode_cert_pem memory (encode_certificate server_sample 7 1))
      (encode_key_pem memory 7)
    ≡ ok (toy_certificate server_sample 7 1, 7)
parse-encode_example =
    parse-encode memory reliable_memory memory-IsTrusted (encode_certificate server_sample 7 1)
      (toy_certificate server_sample 7 1) 7 (decode-encode server_sample 7 1)
