-- ===== src/Controller/Tls/Creation.antt =====
-- The certificate authority of a namespace, made once.
use build_operator.Prelude.{String, ◌≡◌, refl, ◌∙◌, ◌⊎◌, inl, inr, none, [], ◌∷◌, lookup}
use build_operator.Error.{is_not_found}
use build_operator.Exec.{Result, ok, and_then, ◌>>=◌}
use build_operator.Kube.Meta.{new_meta}
use build_operator.Kube.Storage.{Secret, Bytes, entry}
use build_operator.Controller.Tls.Certificates.{
  Authority, parse_cert_and_key, encode_cert_pem, encode_key_pem, ca_template, ca_secret_name,
  generate_ca,
}
use build_operator.Controller.Tls.Namespace.{
  ca_key, read_authority, settle_race, use_authority, create_authority, ensure_namespace_ca,
}
use build_operator.Controller.Tls.Renewal.{parse-encode, authority_read}
use build_operator.World.{World, secret, read_clock}
use build_operator.World.Laws.{IsReliable, IsTrusted, IsUnchanged, OnlyAt}
use build_operator.World.Held.{Holds, Holds-same}

module _ (W : World) (R : IsReliable W) where
  -- The authority's secret is absent, or parses, and its key is that of its certificate.
  abbrev pub IsReadable : String → W.State → Type 0
  IsReadable namespace s =
      (R.peek secret (ca_key W namespace) s ≡ none)
      ⊎ Holds W R.peek secret (ca_key W namespace)
          (λ sec.
            (ca : Authority W) × (read_authority W sec ≡ ok ca)
            × W.IsMatching ca.key ca.certificate)
          s

  pub IsReadable-same :
      (namespace : String) (s t : W.State)
      → R.peek secret (ca_key W namespace) t ≡ R.peek secret (ca_key W namespace) s
      → IsReadable namespace s
      → IsReadable namespace t
  IsReadable-same namespace s t e (inl absent) = inl (e ∙ absent)
  IsReadable-same namespace s t e (inr held) = inr (Holds-same W R secret _ _ s t e held)

  -- An authority came of the call, and it is the one that is stored.
  pub record IsEstablished (namespace : String) (s : W.State) (r : Result (Authority W) × W.State)
      : Type 0 where
    pub ca : Authority W
    pub succeeds : r.0 ≡ ok ca
    pub matches : W.IsMatching ca.key ca.certificate
    pub stored :
        Holds W R.peek secret (ca_key W namespace) (λ sec. read_authority W sec ≡ ok ca) r.1
    pub frame : OnlyAt W R.peek secret (ca_key W namespace) s r.1

  record IsGenerated (s : W.State) (r : Result (Authority W × Bytes) × W.State) : Type 0 where
    pub made : Authority W
    pub key_pem : Bytes
    pub succeeds : r.0 ≡ ok (made, key_pem)
    pub parses : parse_cert_and_key W made.pem key_pem ≡ ok (made.certificate, made.key)
    pub matches : W.IsMatching made.key made.certificate
    pub untouched : IsUnchanged W R.peek s r.1

  generate_ca-IsGenerated :
      (T : IsTrusted W R.peek) (namespace : String) (s : W.State)
      → IsGenerated s (generate_ca W namespace s)
  unfolding generate_ca read_clock ◌>>=◌
  generate_ca-IsGenerated T namespace s =
      let (key, t1, e1, u1) = T.generate_key_lem s in
      let (serial, t2, e2, u2) = T.random_serial_lem t1 in
      let (start, t3) = W.now t2 in
      let (end, t4) = W.now t3 in
      let tmpl = ca_template serial start end namespace in
      let (der, cert, t5, e3, u3, p, l) =
        T.create_certificate_lem tmpl tmpl key key t4 (inl refl) tt in
      rw (e1, e2, e3, p)
        (record {
          made = record { pem = encode_cert_pem W der; certificate = cert; key = key };
          key_pem = encode_key_pem W key;
          succeeds = refl;
          parses = parse-encode W R T der cert key p;
          matches = l.matches;
          untouched = λ k o. u3 k o ∙ (R.now_lem t3 k o ∙ (R.now_lem t2 k o ∙ (u2 k o ∙ u1 k o)));
        })

  -- What is written is what is read back.
  read_written :
      (made : Authority W) (key_pem : Bytes) (sec : Secret)
      → sec.contents ≡ ("ca.crt", made.pem) ∷ ("ca.key", key_pem) ∷ []
      → parse_cert_and_key W made.pem key_pem ≡ ok (made.certificate, made.key)
      → read_authority W sec ≡ ok made
  unfolding read_authority entry lookup and_then
  read_written made key_pem sec e p = rw (e, p) refl

  create_authority-IsEstablished :
      (T : IsTrusted W R.peek) (namespace : String) (s : W.State)
      → R.peek secret (ca_key W namespace) s ≡ none
      → IsEstablished namespace s (create_authority W namespace s)
  unfolding create_authority settle_race ◌>>=◌
  create_authority-IsEstablished T namespace s absent =
      let g = generate_ca-IsGenerated T namespace s in
      let t = (generate_ca W namespace s).1 in
      let put =
        R.create_lem secret
          (record {
            meta = new_meta namespace ca_secret_name;
            type = "Opaque";
            contents = ("ca.crt", g.made.pem) ∷ ("ca.key", g.key_pem) ∷ [];
          })
          t (g.untouched secret (ca_key W namespace) ∙ absent) in
      rw g.succeeds (
        rw put.succeeds (record {
          ca = g.made;
          succeeds = refl;
          matches = g.matches;
          stored = (
            put.object,
            put.present,
            read_written g.made g.key_pem put.object put.agrees.0 g.parses,
          );
          frame = λ j other off. put.frame j other off ∙ g.untouched j other;
        }))

  -- In a cluster with one writer, whose API server finds no object invalid, with the certificate
  -- libraries behaving as documented, and where the authority of the namespace is absent or parses
  -- with the key of its certificate, the call succeeds, and the authority that it gives is the one
  -- that is stored afterwards. Nothing else has changed.
  pub ensure_namespace_ca-IsEstablished :
      (T : IsTrusted W R.peek) (namespace : String) (s : W.State)
      → IsReadable namespace s
      → IsEstablished namespace s (ensure_namespace_ca W namespace s)
  unfolding ensure_namespace_ca use_authority is_not_found ◌>>=◌
  ensure_namespace_ca-IsEstablished T namespace s (inl absent) =
      rw (R.get_lem, absent) (create_authority-IsEstablished T namespace s absent)
  ensure_namespace_ca-IsEstablished T namespace s (inr (sec, there, (ca, read, matches))) =
      rw (authority_read W R namespace sec ca s there read) (record {
        ca = ca;
        succeeds = refl;
        matches = matches;
        stored = (sec, there, read);
        frame = λ j other off. refl;
      })

  -- In a cluster with one writer, whose API server finds no object invalid, with the certificate
  -- libraries behaving as documented, and where the authority of the namespace is absent or parses
  -- with the key of its certificate: a second call gives the authority of the first, and changes
  -- nothing, where the authority's secret is still what the first call left, whatever other objects
  -- have been written in between.
  pub ensure_namespace_ca_twice :
      (T : IsTrusted W R.peek) (namespace : String) (s t : W.State)
      → IsReadable namespace s
      → R.peek secret (ca_key W namespace) t
        ≡ R.peek secret (ca_key W namespace) (ensure_namespace_ca W namespace s).1
      → ensure_namespace_ca W namespace t ≡ ((ensure_namespace_ca W namespace s).0, t)
  ensure_namespace_ca_twice T namespace s t readable same =
      let first = ensure_namespace_ca-IsEstablished T namespace s readable in
      let (sec, there, read) = first.stored in
      rw first.succeeds (authority_read W R namespace sec first.ca t (same ∙ there) read)
