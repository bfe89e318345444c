-- ===== src/Controller/Tls/Server.antt =====
-- tls.go: the server certificate of a builder.
use build_operator.Prelude.{
  String, ◌==◌, Bool, true, not, Option, none, some, [], ◌∷◌, insert, Dict, if◌then◌else◌,
}
use build_operator.Prelude.Int.{◌+ℤ◌, ltb_ℤ}
use build_operator.Error.{is_not_found, is_already_exists, certificate_host_required}
use build_operator.Exec.{Result, ok, err, Exec, pure, raise, lift, attempt, and_then, ◌>>=◌, ◌>>◌}
use build_operator.Kube.Meta.{Key, new_meta, annotation}
use build_operator.Kube.Storage.{Secret, Bytes, entry}
use build_operator.Builder.{BuildkitBuilder, ExposureConfig}
use build_operator.Controller.Metadata.{builder_tls_secret_name}
use build_operator.Controller.Upsert.{own, ignore_not_found}
use build_operator.World.{World, Certificate, Action, secret, read_clock}
use build_operator.Controller.Tls.Certificates.{
  renew_before, cert_host_annotation, Authority, CertAndKey, parse_cert_and_key, sign_server_cert,
}
use build_operator.Controller.Tls.Namespace.{ensure_namespace_ca}

abbrev pub tls_key : BuildkitBuilder → Key
tls_key b = record { namespace = b.meta.namespace; name = builder_tls_secret_name b }

module _ (W : World) where
  -- `time.Now().Add(renewBefore).After(cert.NotAfter)`
  unfoldable pub expires_soon : Certificate → Exec W.State Bool
  expires_soon cert = do now ← read_clock W; pure (ltb_ℤ cert.not_after (now +ℤ renew_before))

  unfoldable pub renewal_of : Result (CertAndKey W) → Exec W.State Bool
  unfolding expires_soon
  renewal_of (err e) = pure true
  renewal_of (ok parsed) = expires_soon parsed.0

  -- `serverCertNeedsRenewal`
  unfoldable pub server_cert_needs_renewal : Secret → String → Exec W.State Bool
  unfolding renewal_of
  server_cert_needs_renewal sec host =
      if not (annotation sec.meta.annotations cert_host_annotation == host)
      then pure true
      else renewal_of (parse_cert_and_key W (entry sec "tls.crt") (entry sec "tls.key"))

  -- `existing.Annotations`, made if it is nil, with the host written.
  unfoldable pub annotate_host : Secret → String → Option (Dict String)
  annotate_host sec host = elim sec.meta.annotations [
    | none ↦ some (insert cert_host_annotation host [])
    | some m ↦ some (insert cert_host_annotation host m)
  ]

  -- The desired secret, its owner set.
  unfoldable pub server_secret : BuildkitBuilder → String → Bytes → Bytes × Bytes → Result Secret
  unfolding own
  server_secret b host ca_pem signed =
      and_then
        (own W b (record (new_meta b.meta.namespace (builder_tls_secret_name b)) {
          annotations = some ((cert_host_annotation, host) ∷ []);
        }))
        λ meta. ok (record {
          meta = meta;
          type = "Opaque";
          contents = ("ca.crt", ca_pem) ∷ ("tls.crt", signed.0) ∷ ("tls.key", signed.1) ∷ [];
        })

  -- `r.Create(ctx, desired)`, where AlreadyExists is no error.
  unfoldable pub create_server_secret : Secret → Action W
  create_server_secret desired = do
    created ← attempt (W.create secret desired)
    elim created [ ok _ ↦ pure tt | err e ↦ if is_already_exists e then pure tt else raise e ]

  -- From `signServerCert` to the end: `existing` is the secret to bring up to date, if there is one.
  unfoldable pub issue_server_cert :
      BuildkitBuilder → String → Authority W → Option Secret → Exec W.State String
  unfolding server_secret create_server_secret annotate_host
  issue_server_cert b host ca existing = do
    signed ← sign_server_cert W ca host
    desired ← lift (server_secret b host ca.pem signed)
    elim existing [
      | none ↦ create_server_secret desired
      | some old ↦ W.update secret (record old {
        contents = desired.contents;
        meta = record old.meta { annotations = annotate_host old host };
      })
    ]
    pure (builder_tls_secret_name b)

  unfoldable pub keep_or_issue :
      BuildkitBuilder → String → Authority W → Result Secret → Exec W.State String
  keep_or_issue b host ca (ok existing) = do
    renew ← server_cert_needs_renewal existing host
    if renew then issue_server_cert b host ca (some existing) else pure (builder_tls_secret_name b)
  keep_or_issue b host ca (err e) =
      if is_not_found e then issue_server_cert b host ca none else raise e

  -- `ensureBuilderServerCert`, given `*b.Spec.Exposure`
  unfoldable pub ensure_builder_server_cert : BuildkitBuilder → ExposureConfig → Exec W.State String
  unfolding keep_or_issue
  ensure_builder_server_cert b exp = if exp.host == "" then raise certificate_host_required else do
    ca ← ensure_namespace_ca W b.meta.namespace
    got ← attempt (W.get secret (tls_key b))
    keep_or_issue b exp.host ca got

  -- `deleteBuilderServerCert`
  unfoldable pub delete_builder_server_cert : BuildkitBuilder → Action W
  unfolding ignore_not_found
  delete_builder_server_cert b = ignore_not_found W (W.delete secret (tls_key b))
