-- ===== src/Controller/Tls/Renewal.antt =====
-- When certificates are issued, kept and renewed.
use text.Mathlib.TextPositions.{eq_refl}
use build_operator.Prelude.{
  String, ◌==◌, eq_iff, ◌≡◌, ◌≢◌, refl, ap, ◌∙◌, true, false, [], ◌∷◌, some, arith, inl, inr,
  Bool-cases,
}
use build_operator.Prelude.Int.{pos, ◌+ℤ◌, ◌<ℤ◌, ◌≤ℤ◌}
use build_operator.Exec.{Result, ok, ◌>>=◌}
use build_operator.Kube.Meta.{Instant, annotation}
use build_operator.Kube.Storage.{Secret, Bytes, entry}
use build_operator.Builder.{BuildkitBuilder, ExposureConfig}
use build_operator.Controller.Metadata.{builder_tls_secret_name}
use build_operator.Controller.Tls.Certificates.{
  Authority, CertAndKey, parse_cert_and_key, server_template, encode_cert_pem, encode_key_pem,
  sign_server_cert, renew_before, server_validity, cert_host_annotation,
}
use build_operator.Controller.Tls.Namespace.{
  existing_authority, ca_key, read_authority, ensure_namespace_ca,
}
use build_operator.Controller.Tls.Server.{
  tls_key, server_cert_needs_renewal, ensure_builder_server_cert,
}
use build_operator.World.{World, Certificate, secret, read_clock}
use build_operator.World.Laws.{IsReliable, IsTrusted, IsUnchanged}

module _ (W : World) (R : IsReliable W) where
  -- Where the authority's secret is there, the answer is what is read from it, or the error of the
  -- reading, wrapped. Nothing is written: an authority is never replaced, whatever its end of
  -- validity and whether it parses or not.
  pub ensure_namespace_ca-keeps :
      (namespace : String) (sec : Secret) (s : W.State)
      → R.peek secret (ca_key W namespace) s ≡ some sec
      → ensure_namespace_ca W namespace s ≡ (existing_authority W (read_authority W sec), s)
  unfolding ensure_namespace_ca ◌>>=◌
  ensure_namespace_ca-keeps namespace sec s there = rw (R.get_lem, there)

  pub authority_read :
      (namespace : String) (sec : Secret) (ca : Authority W) (s : W.State)
      → R.peek secret (ca_key W namespace) s ≡ some sec
      → read_authority W sec ≡ ok ca
      → ensure_namespace_ca W namespace s ≡ (ok ca, s)
  unfolding existing_authority
  authority_read namespace sec ca s there h = ensure_namespace_ca-keeps namespace sec s there ∙ rw h

  -- A certificate for the host and nothing else, to authenticate a server, with its key, signed by
  -- the authority's key, and valid until a year after `now`, less the second that is rounded off.
  pub record IsFor (ca : Authority W) (host : String) (now : Instant) (parsed : CertAndKey W)
      : Type 0 where
    pub matches : W.IsMatching parsed.1 parsed.0
    pub signed : W.IsSignedBy parsed.0 ca.key
    pub common_name : parsed.0.common_name ≡ host
    pub dns_names : parsed.0.dns_names ≡ host ∷ []
    pub ext_key_usage : parsed.0.ext_key_usage ≡ "server auth" ∷ []
    pub lasts : now +ℤ server_validity <ℤ parsed.0.not_after +ℤ pos 1000000000

  -- The second look at the clock of `signServerCert`, after the key, the serial number and the first.
  abbrev pub second_look : W.State → Instant
  second_look s = (W.now (W.now (W.random_serial (W.generate_key s).1).1).1).0

  -- What a signature of a server certificate gives: a pair of texts that parse.
  pub record IsSigned (ca : Authority W) (host : String) (s : W.State)
      (r : Result (Bytes × Bytes) × W.State) : Type 0 where
    pub signed : Bytes × Bytes
    pub parsed : CertAndKey W
    pub succeeds : r.0 ≡ ok signed
    pub parses : parse_cert_and_key W signed.0 signed.1 ≡ ok parsed
    pub certified : IsFor ca host (second_look s) parsed
    pub untouched : IsUnchanged W R.peek s r.1

  -- With the certificate libraries behaving as documented: a certificate that parses and a private
  -- key, both written as PEM, are read back.
  pub parse-encode :
      (T : IsTrusted W R.peek) (der : Bytes) (cert : Certificate) (key : W.PrivateKey)
      → W.parse_certificate der ≡ ok cert
      → parse_cert_and_key W (encode_cert_pem W der) (encode_key_pem W key) ≡ ok (cert, key)
  unfolding parse_cert_and_key encode_cert_pem encode_key_pem
  parse-encode T der cert key p = ground (
    arith,
    T.pem_lem "CERTIFICATE" der,
    T.pem_lem "RSA PRIVATE KEY" (W.marshal_private_key key),
    T.private_key_lem key,
  )

  -- With the certificate libraries behaving as documented, an authority's key that is that of its
  -- certificate, and a host in ASCII, signing succeeds and changes no object. The certificate and
  -- key that it gives parse, and are for the host.
  pub sign_server_cert-IsSigned :
      (T : IsTrusted W R.peek) (ca : Authority W) (host : String) (s : W.State)
      → W.IsMatching ca.key ca.certificate
      → W.is_ia5 host ≡ true
      → IsSigned ca host s (sign_server_cert W ca host s)
  unfolding sign_server_cert read_clock ◌>>=◌
  sign_server_cert-IsSigned T ca host s matching ascii =
      let (key, t1, e1, u1) = T.generate_key_lem s in
      let (serial, t2, e2, u2) = T.random_serial_lem t1 in
      let (start, t3) = W.now t2 in
      let (end, t4) = W.now t3 in
      let tmpl = server_template serial start end host in
      let (der, cert, t5, e3, u3, p, l) =
        T.create_certificate_lem tmpl ca.certificate key ca.key t4 (inr matching) (ascii, tt) in
      let look : second_look s ≡ end =
        ap (λ t. (W.now (W.now (W.random_serial t).1).1).0) (ap (λ r. r.1) e1)
        ∙ ap (λ t. (W.now (W.now t).1).0) (ap (λ r. r.1) e2) in
      rw (e1, e2, e3)
        (record {
          signed = (encode_cert_pem W der, encode_key_pem W key);
          parsed = (cert, key);
          succeeds = refl;
          parses = parse-encode T der cert key p;
          certified = record {
            matches = l.matches;
            signed = l.signed;
            common_name = l.common_name;
            dns_names = l.dns_names;
            ext_key_usage = l.ext_key_usage;
            lasts = rw look l.lasts;
          };
          untouched = λ k o. u3 k o ∙ (R.now_lem t3 k o ∙ (R.now_lem t2 k o ∙ (u2 k o ∙ u1 k o)));
        })

  -- A certificate for the host that parses is not renewed while more than `renewBefore` is left.
  pub server_cert_needs_renewal-fresh :
      (sec : Secret) (host : String) (parsed : CertAndKey W) (s : W.State)
      → annotation sec.meta.annotations cert_host_annotation ≡ host
      → parse_cert_and_key W (entry sec "tls.crt") (entry sec "tls.key") ≡ ok parsed
      → (W.now s).0 +ℤ renew_before ≤ℤ parsed.0.not_after
      → server_cert_needs_renewal W sec host s ≡ (ok false, (W.now s).1)
  unfolding server_cert_needs_renewal read_clock ◌>>=◌
  server_cert_needs_renewal-fresh sec host parsed s e p left = rw (e, eq_refl, p) (ground arith)

  -- In a cluster with one writer, for an exposure with a host in a namespace whose authority is
  -- stored and parses, a stored server certificate that is for the host, parses, and lasts at least
  -- 30 days more is kept: the call succeeds with the secret's name and writes nothing.
  pub ensure_builder_server_cert-keeps :
      (b : BuildkitBuilder) (exp : ExposureConfig) (ca_secret sec : Secret) (ca : Authority W)
      (parsed : CertAndKey W) (s : W.State)
      → exp.host ≢ ""
      → R.peek secret (ca_key W b.meta.namespace) s ≡ some ca_secret
      → read_authority W ca_secret ≡ ok ca
      → R.peek secret (tls_key b) s ≡ some sec
      → annotation sec.meta.annotations cert_host_annotation ≡ exp.host
      → parse_cert_and_key W (entry sec "tls.crt") (entry sec "tls.key") ≡ ok parsed
      → (W.now s).0 +ℤ renew_before ≤ℤ parsed.0.not_after
      → (ensure_builder_server_cert W b exp s ≡ (ok (builder_tls_secret_name b), (W.now s).1))
        × IsUnchanged W R.peek s (W.now s).1
  unfolding ensure_builder_server_cert ◌>>=◌
  ensure_builder_server_cert-keeps b exp ca_secret sec ca parsed s host there read present e p
        left =
      elim (Bool-cases (exp.host == "")) [
        | inl blank ↦ absurd (host ((eq_iff exp.host "").0 blank))
        | inr given ↦ (
          rw (
            given,
            authority_read b.meta.namespace ca_secret ca s there read,
            R.get_lem,
            present,
            server_cert_needs_renewal-fresh sec exp.host parsed s e p left,
          ),
          R.now_lem s,
        )
      ]
