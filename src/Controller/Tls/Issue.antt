-- ===== src/Controller/Tls/Issue.antt =====
-- The server certificate of an exposed builder, as it is stored.
use build_operator.Prelude.{
  String, ◌==◌, eq_iff, ◌≡◌, ◌≢◌, refl, sym, ap, ◌∙◌, ◌⊎◌, inl, inr, true, false, Option, none,
  some, [], ◌∷◌, Option-cases, Bool-cases, arith,
}
use build_operator.Error.{is_not_found}
use build_operator.Exec.{Result, ok, and_then, ◌>>=◌}
use build_operator.Kube.Meta.{Key, annotation, new_meta, ObjectMeta}
use build_operator.Kube.Storage.{Secret, Bytes}
use build_operator.Builder.{BuildkitBuilder, ExposureConfig}
use build_operator.Controller.Metadata.{builder_tls_secret_name}
use build_operator.Controller.Metadata.Names.{authority_name}
use build_operator.Controller.Upsert.Owners.{owned}
use build_operator.Controller.Tls.Certificates.{Authority, sign_server_cert, cert_host_annotation}
use build_operator.Controller.Tls.Server.{
  tls_key, server_cert_needs_renewal, annotate_host, server_secret, create_server_secret,
  issue_server_cert, keep_or_issue, ensure_builder_server_cert,
}
use build_operator.Controller.Tls.Namespace.{ca_key, ensure_namespace_ca}
use build_operator.Controller.Tls.Renewal.{sign_server_cert-IsSigned}
use build_operator.Controller.Tls.Creation.{
  IsReadable, IsReadable-same, IsEstablished, ensure_namespace_ca-IsEstablished,
}
use build_operator.Controller.Tls.Serving.{
  one_annotation, annotation-annotate_host, IsNoted, IsLasting, IsFresh,
  server_cert_needs_renewal-IsAnswered, signed-IsFresh,
}
use build_operator.World.{World, secret, Kind}
use build_operator.World.Laws.{IsReliable, IsOwning, IsTrusted, OnlyAt}
use build_operator.World.Held.{Holds, IsPut-key}

module _ (W : World) (R : IsReliable W) where
  -- The stored secret is one that was there and is kept, or it is fresh.
  abbrev pub IsKeptOrFresh :
      BuildkitBuilder → String → Authority W → W.State → W.State → Secret → Type 0
  IsKeptOrFresh b host ca s t sec =
      ((R.peek secret (tls_key b) s ≡ some sec) × IsLasting W R host (W.now t).0 sec)
      ⊎ IsFresh W R ca host t sec

  pub IsKeptOrFresh-noted :
      (b : BuildkitBuilder) (host : String) (ca : Authority W) (s t : W.State) (sec : Secret)
      → IsKeptOrFresh b host ca s t sec
      → IsNoted W R host sec
  IsKeptOrFresh-noted b host ca s t sec (inl (there, p)) = p.noted
  IsKeptOrFresh-noted b host ca s t sec (inr p) = p.noted

  -- The call succeeds with the secret's name, the secret is stored, and nothing but that secret has
  -- changed.
  pub record IsIssued (b : BuildkitBuilder) (P : Secret → Type 0) (s : W.State)
      (r : Result String × W.State) : Type 0 where
    pub succeeds : r.0 ≡ ok (builder_tls_secret_name b)
    pub stored : Holds W R.peek secret (tls_key b) P r.1
    pub frame : OnlyAt W R.peek secret (tls_key b) s r.1

  created :
      (sec : Secret) (s : W.State)
      → (W.create secret sec s).0 ≡ ok tt
      → create_server_secret W sec s ≡ (ok tt, (W.create secret sec s).1)
  unfolding create_server_secret ◌>>=◌
  created sec s e = rw e

  abbrev issued_meta : BuildkitBuilder → String → ObjectMeta
  issued_meta b host = record (new_meta b.meta.namespace (builder_tls_secret_name b)) {
    annotations = some ((cert_host_annotation, host) ∷ []);
  }

  -- The desired secret, once its owner is accepted.
  abbrev issued_secret :
      (b : BuildkitBuilder) → String → Authority W → Bytes × Bytes → IsOwning W b.meta → Secret
  issued_secret b host ca signed O = record {
    meta = record (issued_meta b host) {
      owner_references = (O.accepted (issued_meta b host) (refl, refl)).0;
    };
    type = "Opaque";
    contents = ("ca.crt", ca.pem) ∷ ("tls.crt", signed.0) ∷ ("tls.key", signed.1) ∷ [];
  }

  server_secret-owned :
      (b : BuildkitBuilder) (host : String) (ca : Authority W) (signed : Bytes × Bytes)
      (O : IsOwning W b.meta)
      → server_secret W b host ca.pem signed ≡ ok (issued_secret b host ca signed O)
  unfolding server_secret and_then
  server_secret-owned b host ca signed O = rw (owned W b O (issued_meta b host) (refl, refl))

  issue_server_cert-IsIssued :
      (T : IsTrusted W R.peek) (b : BuildkitBuilder) (host : String) (ca : Authority W)
      (existing : Option Secret) (t s : W.State)
      → IsOwning W b.meta
      → W.IsMatching ca.key ca.certificate
      → W.is_ia5 host ≡ true
      → (s ≡ t) ⊎ (s ≡ (W.now t).1)
      → R.peek secret (tls_key b) s ≡ existing
      → IsIssued b (IsFresh W R ca host t) s (issue_server_cert W b host ca existing s)
  unfolding issue_server_cert ◌>>=◌
  issue_server_cert-IsIssued T b host ca none before s O matching ascii moment absent =
      let g = sign_server_cert-IsSigned W R T ca host s matching ascii in
      let t = (sign_server_cert W ca host s).1 in
      let desired = issued_secret b host ca g.signed O in
      let p = R.create_lem secret desired t (g.untouched secret (tls_key b) ∙ absent) in
      rw (g.succeeds, server_secret-owned b host ca g.signed O, created desired t p.succeeds)
        (record {
          succeeds = refl;
          stored = (
            p.object,
            p.present,
            signed-IsFresh W R host ca before s p.object g moment
                (ap (λ m. annotation m cert_host_annotation) p.agrees.1 ∙ one_annotation host)
                p.agrees.0,
          );
          frame = λ j other off. p.frame j other off ∙ g.untouched j other;
        })
  issue_server_cert-IsIssued T b host ca (some old) before s O matching ascii moment there =
      let g = sign_server_cert-IsSigned W R T ca host s matching ascii in
      let t = (sign_server_cert W ca host s).1 in
      let desired = issued_secret b host ca g.signed O in
      let same = R.key_lem secret (tls_key b) s there in
      let next : Secret = record old {
        contents = desired.contents;
        meta = record old.meta { annotations = annotate_host W old host };
      } in
      let p = IsPut-key W R _ same (
        R.update_lem secret next old t
          (ap (λ x. R.peek secret x t) same ∙ g.untouched secret (tls_key b) ∙ there) refl refl) in
      rw (g.succeeds, server_secret-owned b host ca g.signed O, p.succeeds)
        (record {
          succeeds = refl;
          stored = (
            p.object,
            p.present,
            signed-IsFresh W R host ca before s p.object g moment
                (ap (λ m. annotation m cert_host_annotation) p.agrees.1
                  ∙ annotation-annotate_host W old host)
                p.agrees.0,
          );
          frame = λ j other off. p.frame j other off ∙ g.untouched j other;
        })

  keep_or_issue-IsIssued :
      (T : IsTrusted W R.peek) (b : BuildkitBuilder) (host : String) (ca : Authority W)
      (sec : Secret) (s : W.State)
      → IsOwning W b.meta
      → W.IsMatching ca.key ca.certificate
      → W.is_ia5 host ≡ true
      → R.peek secret (tls_key b) s ≡ some sec
      → IsIssued b (IsKeptOrFresh b host ca s s) s (keep_or_issue W b host ca (ok sec) s)
  unfolding keep_or_issue ◌>>=◌
  keep_or_issue-IsIssued T b host ca sec s O matching ascii there =
      let a = server_cert_needs_renewal-IsAnswered W R sec host s in
      let t = (server_cert_needs_renewal W sec host s).1 in
      elim (Bool-cases a.renew) [
        | inl stale ↦
            let again =
              issue_server_cert-IsIssued T b host ca (some sec) s t O matching ascii a.moment
                (a.still secret (tls_key b) ∙ there) in
            rw (a.answer ∙ ap (λ x. ok x) stale) (record {
              succeeds = again.succeeds;
              stored = (again.stored.0, again.stored.1, inr again.stored.2);
              frame = λ j other off. again.frame j other off ∙ a.still j other;
            })
        | inr current ↦ rw (a.answer ∙ ap (λ x. ok x) current) (record {
          succeeds = refl;
          stored = (sec, a.still secret (tls_key b) ∙ there, inl (there, a.kept current));
          frame = λ j other off. a.still j other;
        })
      ]

  -- The outcome of `ensureBuilderServerCert`, from the state that `ensureNamespaceCA` leaves.
  pub record IsServed (b : BuildkitBuilder) (host : String) (s : W.State)
      (r : Result String × W.State) : Type 0 where
    pub succeeds : r.0 ≡ ok (builder_tls_secret_name b)
    pub ca : Authority W
    pub authority : (ensure_namespace_ca W b.meta.namespace s).0 ≡ ok ca
    pub stored :
        Holds W R.peek secret
          (tls_key b)
          (IsKeptOrFresh b host ca s (ensure_namespace_ca W b.meta.namespace s).1)
          r.1
    pub frame :
        (j : Kind) (other : Key)
        → (j ≢ secret) ⊎ ((other ≢ ca_key W b.meta.namespace) × (other ≢ tls_key b))
        → R.peek j other r.1 ≡ R.peek j other s
    pub readable : IsReadable W R b.meta.namespace r.1

  off_both :
      {j : Kind} {other a c : Key}
      → (j ≢ secret) ⊎ ((other ≢ a) × (other ≢ c))
      → ((j ≢ secret) ⊎ (other ≢ a)) × ((j ≢ secret) ⊎ (other ≢ c))
  off_both (inl ne) = (inl ne, inl ne)
  off_both (inr (p, q)) = (inr p, inr q)

  tls_key-ne-ca_key : (b : BuildkitBuilder) → tls_key b ≢ ca_key W b.meta.namespace
  tls_key-ne-ca_key b e = authority_name b (ap (λ (k : Key). k.name) (sym e))

  kept_before :
      (b : BuildkitBuilder) (host : String) (ca : Authority W) (s t : W.State) (sec : Secret)
      → OnlyAt W R.peek secret (ca_key W b.meta.namespace) s t
      → IsKeptOrFresh b host ca t t sec
      → IsKeptOrFresh b host ca s t sec
  kept_before b host ca s t sec frame (inl (there, p)) =
      inl (sym (frame secret (tls_key b) (inr (tls_key-ne-ca_key b))) ∙ there, p)
  kept_before b host ca s t sec frame (inr p) = inr p

  -- Two calls in turn: the authority, and the certificate.
  serving :
      (b : BuildkitBuilder) (host : String) (s : W.State) (r : Result String × W.State)
      (e : IsEstablished W R b.meta.namespace s (ensure_namespace_ca W b.meta.namespace s))
      → (let t = (ensure_namespace_ca W b.meta.namespace s).1 in
          IsIssued b (IsKeptOrFresh b host e.ca t t) t r)
      → IsServed b host s r
  serving b host s r e p =
      let t = (ensure_namespace_ca W b.meta.namespace s).1 in
      record {
        succeeds = p.succeeds;
        ca = e.ca;
        authority = e.succeeds;
        stored =
            (p.stored.0, p.stored.1, kept_before b host e.ca s t p.stored.0 e.frame p.stored.2);
        frame = λ j other off. let (x, y) = off_both off in p.frame j other y ∙ e.frame j other x;
        readable =
            IsReadable-same W R b.meta.namespace t r.1
              (p.frame secret (ca_key W b.meta.namespace)
                (inr λ x. authority_name b (ap (λ (k : Key). k.name) x)))
              (inr (e.stored.0, e.stored.1, (e.ca, e.stored.2, e.matches)));
      }

  -- In a cluster with one writer, whose API server finds no object invalid, with the certificate
  -- libraries behaving as documented, where the builder is accepted as owner of the objects of its
  -- namespace without one, and the authority of its namespace is absent or parses with the key of
  -- its certificate: for an exposure with a host in ASCII the call succeeds with the secret's name.
  -- The builder's secret is stored then, noted for the host, with a certificate and a key that
  -- parse. Either it was there before and is kept, and its certificate lasts 30 days more at the
  -- clock that the authority's call leaves, or it holds that authority and a fresh certificate:
  -- with the host as its only name, for server authentication, signed by the authority's key and
  -- matching its own, for a year from the second look at the clock in its signing, less the second
  -- that is rounded off. Nothing but the secrets of the builder and of the authority has changed.
  pub ensure_builder_server_cert-IsServed :
      (T : IsTrusted W R.peek) (b : BuildkitBuilder) (exp : ExposureConfig) (s : W.State)
      → IsOwning W b.meta
      → exp.host ≢ ""
      → W.is_ia5 exp.host ≡ true
      → IsReadable W R b.meta.namespace s
      → IsServed b exp.host s (ensure_builder_server_cert W b exp s)
  unfolding ensure_builder_server_cert is_not_found ◌>>=◌
  ensure_builder_server_cert-IsServed T b exp s O host ascii readable =
      let first = ensure_namespace_ca-IsEstablished W R T b.meta.namespace s readable in
      let t = (ensure_namespace_ca W b.meta.namespace s).1 in
      let given : (exp.host == "") ≡ false = ground (arith, eq_iff exp.host "") in
      rw (given, first.succeeds, R.get_lem)
        (elim (Option-cases (R.peek secret (tls_key b) t)) [
          | inl absent ↦ rw absent (
              let p =
                issue_server_cert-IsIssued T b exp.host first.ca none t t O first.matches ascii
                  (inl refl) absent in
              serving b exp.host s _ first (record {
                succeeds = p.succeeds;
                stored = (p.stored.0, p.stored.1, inr p.stored.2);
                frame = p.frame;
              }))
          | inr (sec, there) ↦ rw there (
              serving b exp.host s _ first
                (keep_or_issue-IsIssued T b exp.host first.ca sec t O first.matches ascii there))
        ])
