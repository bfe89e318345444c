-- ===== src/Controller/Tls/Namespace.antt =====
-- tls.go: `ensureNamespaceCA`, the certificate authority of a namespace.
use build_operator.Prelude.{String, [], ◌∷◌, if◌then◌else◌}
use build_operator.Error.{is_not_found, is_already_exists, parsing_existing_ca}
use build_operator.Exec.{Result, ok, err, Exec, pure, raise, lift, attempt, and_then, ◌>>=◌}
use build_operator.Kube.Meta.{Key, new_meta}
use build_operator.Kube.Storage.{Secret, entry}
use build_operator.World.{World, secret}
use build_operator.Controller.Tls.Certificates.{
  ca_secret_name, Authority, parse_cert_and_key, generate_ca,
}

module _ (W : World) where
  -- What `parseCertAndKey` reads out of the authority's secret.
  unfoldable pub read_authority : Secret → Result (Authority W)
  read_authority sec =
      and_then (parse_cert_and_key W (entry sec "ca.crt") (entry sec "ca.key"))
        λ parsed. ok (record { pem = entry sec "ca.crt"; certificate = parsed.0; key = parsed.1 })

  -- `fmt.Errorf("parsing existing CA: %w", err)`
  unfoldable pub existing_authority : Result (Authority W) → Result (Authority W)
  existing_authority (ok ca) = ok ca
  existing_authority (err e) = err (parsing_existing_ca e)

  abbrev pub ca_key : String → Key
  ca_key namespace = record { namespace = namespace; name = ca_secret_name }

  -- After the `r.Create` of the authority's secret: another reconciliation may have won the race.
  unfoldable pub settle_race : String → Authority W → Result (Unit {0}) → Exec W.State (Authority W)
  settle_race namespace ca (ok _) = pure ca
  settle_race namespace ca (err e) =
      if is_already_exists e
      then (do sec ← W.get secret (ca_key namespace); lift (read_authority sec))
      else raise e

  unfoldable pub create_authority : String → Exec W.State (Authority W)
  create_authority namespace = do
    made ← generate_ca W namespace
    created ← attempt (
        W.create secret (record {
          meta = new_meta namespace ca_secret_name;
          type = "Opaque";
          contents = ("ca.crt", made.0.pem) ∷ ("ca.key", made.1) ∷ [];
        }))
    settle_race namespace made.0 created

  unfoldable pub use_authority : String → Result Secret → Exec W.State (Authority W)
  unfolding create_authority existing_authority
  use_authority namespace (ok sec) = lift (existing_authority (read_authority sec))
  use_authority namespace (err e) = if is_not_found e then create_authority namespace else raise e

  -- `ensureNamespaceCA`
  unfoldable pub ensure_namespace_ca : String → Exec W.State (Authority W)
  unfolding use_authority
  ensure_namespace_ca namespace = do
    got ← attempt (W.get secret (ca_key namespace))
    use_authority namespace got
