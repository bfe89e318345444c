-- ===== src/Controller/Tls/Certificates.antt =====
-- tls.go: constants, PEM, and the generation and signing of certificates.
use build_operator.Prelude.{ℕ, String, ◌<>◌, true, false, none, some, [], ◌∷◌}
use build_operator.Prelude.Int.{ℤ, pos, negsuc, ◌+ℤ◌}
use build_operator.Error.{Error, invalid_certificate_pem, invalid_key_pem}
use build_operator.Exec.{Result, ok, err, Exec, pure, lift, and_then, ◌>>=◌}
use build_operator.Kube.Meta.{Instant}
use build_operator.Kube.Storage.{Bytes}
use build_operator.World.{World, Certificate, read_clock}

abbrev pub ca_secret_name : String
ca_secret_name = "builderhub-builder-ca"

-- Durations, in nanoseconds.
abbrev pub ca_validity : ℤ
ca_validity = pos 315360000000000000

abbrev pub server_validity : ℤ
server_validity = pos 31536000000000000

abbrev pub renew_before : ℤ
renew_before = pos 2592000000000000

-- `-5 * time.Minute`
abbrev pub clock_skew : ℤ
clock_skew = negsuc 299999999999

abbrev pub cert_host_annotation : String
cert_host_annotation = "builder-hub.dev/cert-host"

-- The `tmpl` of `generateCA`.
abbrev pub ca_template : ℕ → Instant → Instant → String → Certificate
ca_template serial start end namespace = record {
  serial_number = serial;
  common_name = "builderhub-builder-ca:" <> namespace;
  not_before = start +ℤ clock_skew;
  not_after = end +ℤ ca_validity;
  key_usage = "cert sign" ∷ "crl sign" ∷ "digital signature" ∷ [];
  ext_key_usage = [];
  basic_constraints_valid = true;
  is_ca = true;
  max_path_len_zero = true;
  dns_names = [];
}

-- The `tmpl` of `signServerCert`.
abbrev pub server_template : ℕ → Instant → Instant → String → Certificate
server_template serial start end host = record {
  serial_number = serial;
  common_name = host;
  not_before = start +ℤ clock_skew;
  not_after = end +ℤ server_validity;
  key_usage = "digital signature" ∷ "key encipherment" ∷ [];
  ext_key_usage = "server auth" ∷ [];
  basic_constraints_valid = false;
  is_ca = false;
  max_path_len_zero = false;
  dns_names = host ∷ [];
}

module _ (W : World) where
  -- A certificate authority: the certificate in PEM, parsed, and its key.
  pub record Authority : Type 0 where
    pub pem : Bytes
    pub certificate : Certificate
    pub key : W.PrivateKey

  abbrev pub CertAndKey : Type 0
  CertAndKey = Certificate × W.PrivateKey

  decode : Error → Bytes → Result Bytes
  decode invalid pem = elim (W.pem_decode pem) [ none ↦ err invalid | some der ↦ ok der ]

  -- `parseCertAndKey`
  unfoldable pub parse_cert_and_key : Bytes → Bytes → Result CertAndKey
  unfolding decode and_then
  parse_cert_and_key cert_pem key_pem = and_then (decode invalid_certificate_pem cert_pem) λ cb.
      and_then (W.parse_certificate cb) λ cert.
        and_then (decode invalid_key_pem key_pem)
          λ kb. and_then (W.parse_private_key kb) λ key. ok (cert, key)

  -- `encodeCertPEM` and `encodeKeyPEM`
  unfoldable pub encode_cert_pem : Bytes → Bytes
  encode_cert_pem der = W.pem_encode "CERTIFICATE" der

  unfoldable pub encode_key_pem : W.PrivateKey → Bytes
  encode_key_pem key = W.pem_encode "RSA PRIVATE KEY" (W.marshal_private_key key)

  -- `generateCA`: the authority, and its key in PEM
  unfoldable pub generate_ca : String → Exec W.State (Authority × Bytes)
  unfolding encode_cert_pem encode_key_pem
  generate_ca namespace = do
    key ← W.generate_key
    serial ← W.random_serial
    start ← read_clock W
    end ← read_clock W
    let tmpl = ca_template serial start end namespace
    der ← W.create_certificate tmpl tmpl key key
    cert ← lift (W.parse_certificate der)
    pure (record { pem = encode_cert_pem der; certificate = cert; key = key }, encode_key_pem key)

  -- `signServerCert`: the certificate and its key in PEM
  unfoldable pub sign_server_cert : Authority → String → Exec W.State (Bytes × Bytes)
  unfolding encode_cert_pem encode_key_pem
  sign_server_cert ca host = do
    key ← W.generate_key
    serial ← W.random_serial
    start ← read_clock W
    end ← read_clock W
    let tmpl = server_template serial start end host
    der ← W.create_certificate tmpl ca.certificate key ca.key
    pure (encode_cert_pem der, encode_key_pem key)
