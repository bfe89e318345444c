-- ===== src/Controller/Exposure/Shown.antt =====
-- What `reconcileExposure` leaves behind, in a reliable cluster.
use build_operator.Prelude.{
  ◌≡◌, ◌≢◌, refl, ap, ◌∙◌, false, Option, none, some, inl, inr, Bool-cases, Option-cases,
}
use build_operator.Error.{is_not_found}
use build_operator.Exec.{Result, ok, ◌>>=◌}
use build_operator.Kube.Meta.{Key}
use build_operator.Builder.{BuildkitBuilder, ExposureConfig}
use build_operator.Controller.Ingress.{is_enabled, exposure_enabled}
use build_operator.Controller.Metadata.Names.{authority_name}
use build_operator.Controller.Upsert.{on_existing, ignore_not_found}
use build_operator.Controller.Upsert.Owners.{owned}
use build_operator.Controller.Tls.Server.{tls_key, delete_builder_server_cert}
use build_operator.Controller.Exposure.{
  reconcile_exposure_of, delete_ingress_route_if_exists, withdraw, reconcile_exposure,
}
use build_operator.World.{World, Kind, secret, ingress_route}
use build_operator.World.Laws.{IsReliable, IsOwning, removal}
use build_operator.Kube.Network.{IngressRoute}
use build_operator.Builder.Webhook.Admission.{IsExposable}
use build_operator.Builder.{ingress_controller_traefik}
use build_operator.Prelude.{true, eq_iff, arith, ◌⊎◌, Bool, if◌then◌else◌}
use build_operator.Controller.Ingress.{ingress_route_for_builder}
use build_operator.Controller.Exposure.{expose, is_supported}
use build_operator.Controller.Upsert.Effects.{create_or_update_ingress_route-stores}
use build_operator.Controller.Tls.Creation.{IsReadable, IsReadable-same}
use build_operator.Controller.Tls.Server.{ensure_builder_server_cert}
use build_operator.Controller.Tls.Issue.{ensure_builder_server_cert-IsServed, IsKeptOrFresh-noted}
use build_operator.Controller.Tls.Namespace.{ensure_namespace_ca}
use build_operator.World.Laws.{IsTrusted}
use build_operator.Controller.Exposure.State.{route_key, IsHidden, IsShown, HasAsciiHost, IsExposed}

module _ (W : World) (R : IsReliable W) where
  ignore-delete :
      (k : Kind) (key : Key) (s : W.State)
      → ignore_not_found W (W.delete k key) s ≡ (ok tt, (W.delete k key s).1)
  unfolding ignore_not_found on_existing ◌>>=◌ is_not_found
  ignore-delete k key s =
      let e = (R.delete_lem k key s).answer in
      elim (Option-cases (R.peek k key s)) [
        | inl missing ↦ let f = e ∙ ap removal missing in rw f
        | inr (old, there) ↦ let f = e ∙ ap removal there in rw f
      ]

  record IsWithdrawn (b : BuildkitBuilder) (s : W.State) (r : Result (Unit {0}) × W.State)
      : Type 0 where
    pub succeeds : r.0 ≡ ok tt
    pub hidden : IsHidden W R b r.1
    pub kept :
        (j : Kind) (key : Key) → j ≢ ingress_route → j ≢ secret → R.peek j key r.1 ≡ R.peek j key s
    pub readable : IsReadable W R b.meta.namespace s → IsReadable W R b.meta.namespace r.1

  withdraw-IsWithdrawn : (b : BuildkitBuilder) (s : W.State) → IsWithdrawn b s (withdraw W b s)
  unfolding withdraw delete_ingress_route_if_exists delete_builder_server_cert ◌>>=◌
  withdraw-IsWithdrawn b s =
      let first = R.delete_lem ingress_route (route_key W R b) s in
      let t = (W.delete ingress_route (route_key W R b) s).1 in
      let second = R.delete_lem secret (tls_key b) t in
      rw (ignore-delete ingress_route (route_key W R b) s, ignore-delete secret (tls_key b) t)
        (record {
          succeeds = refl;
          hidden = record {
            route = second.frame ingress_route _ (inl λ e. cc) ∙ first.absent;
            certificate = second.absent;
          };
          kept = λ j key p q. second.frame j key (inl q) ∙ first.frame j key (inl p);
          readable = IsReadable-same W R b.meta.namespace s _ (
              second.frame secret _ (inr λ e. authority_name b (ap (λ (k : Key). k.name) e))
              ∙ first.frame secret _ (inl λ e. cc));
        })

  record IsRouted (b : BuildkitBuilder) (exp : ExposureConfig) (s : W.State)
      (r : Result (Unit {0}) × W.State) : Type 0 where
    pub succeeds : r.0 ≡ ok tt
    pub shown : IsShown W R b exp r.1
    pub kept :
        (j : Kind) (key : Key) → j ≢ ingress_route → j ≢ secret → R.peek j key r.1 ≡ R.peek j key s
    pub readable : IsReadable W R b.meta.namespace s → IsReadable W R b.meta.namespace r.1

  expose-IsRouted :
      (T : IsTrusted W R.peek) (b : BuildkitBuilder) (exp : ExposureConfig) (s : W.State)
      → IsOwning W b.meta
      → is_supported exp ≡ true
      → exp.host ≢ ""
      → W.is_ia5 exp.host ≡ true
      → IsReadable W R b.meta.namespace s
      → IsRouted b exp s (expose W b exp s)
  unfolding expose ◌>>=◌ ingress_route_for_builder
  expose-IsRouted T b exp s O supported host ascii readable =
      let served = ensure_builder_server_cert-IsServed W R T b exp s O host ascii readable in
      let t = (ensure_builder_server_cert W b exp s).1 in
      let meta = (ingress_route_for_builder b exp).meta in
      let route : IngressRoute = record (ingress_route_for_builder b exp) {
        meta = record meta { owner_references = (O.accepted meta (refl, refl)).0 };
      } in
      let p = create_or_update_ingress_route-stores W R route t in
      rw (supported, served.succeeds, owned W b O meta (refl, refl))
        (record {
          succeeds = p.succeeds;
          shown = record {
            route = (p.object, p.present, p.agrees);
            certificate =
                let (sec, there, serves) = served.stored in
                (
                  sec,
                  p.frame secret (tls_key b) (inl λ e. cc) ∙ there,
                  IsKeptOrFresh-noted W R b exp.host served.ca s
                      (ensure_namespace_ca W b.meta.namespace s).1 sec serves,
                );
          };
          kept = λ j key x y. p.frame j key (inl x) ∙ served.frame j key (inl y);
          readable = λ before.
              IsReadable-same W R b.meta.namespace t _ (p.frame secret _ (inl λ e. cc))
                served.readable;
        })

  -- An exposure that the webhook admits is one that the controller supports, with a host.
  supported_of :
      (exp : ExposureConfig)
      → (exp.ingress_controller ≡ "") ⊎ (exp.ingress_controller ≡ ingress_controller_traefik)
      → is_supported exp ≡ true
  unfolding is_supported
  supported_of exp h = ground (
    arith,
    eq_iff exp.ingress_controller "",
    eq_iff exp.ingress_controller ingress_controller_traefik,
  )

  branch :
      (b : BuildkitBuilder) (exp : ExposureConfig) (s : W.State) (c d : Bool)
      → c ≡ d
      → IsExposed W R b (some exp) s ((if d then expose W b exp else withdraw W b) s)
      → IsExposed W R b (some exp) s ((if c then expose W b exp else withdraw W b) s)
  branch b exp s c d e p = rw e p

  unexposed_of-IsExposed :
      (b : BuildkitBuilder) (o : Option ExposureConfig) (s : W.State)
      → is_enabled o ≡ false
      → IsExposed W R b o s (reconcile_exposure_of W b o s)
  unfolding reconcile_exposure_of
  unexposed_of-IsExposed b none s off =
      let p = withdraw-IsWithdrawn b s in
      record { succeeds = p.succeeds; exposes = p.hidden; kept = p.kept; readable = p.readable }
  unexposed_of-IsExposed b (some exp) s off =
      let p = withdraw-IsWithdrawn b s in
      branch b exp s _ false off (record {
        succeeds = p.succeeds;
        exposes = inl (off, p.hidden);
        kept = p.kept;
        readable = p.readable;
      })

  exposure_of-IsExposed :
      (T : IsTrusted W R.peek) (b : BuildkitBuilder) (o : Option ExposureConfig) (s : W.State)
      → IsOwning W b.meta
      → IsExposable o
      → HasAsciiHost W R o
      → IsReadable W R b.meta.namespace s
      → IsExposed W R b o s (reconcile_exposure_of W b o s)
  unfolding reconcile_exposure_of
  exposure_of-IsExposed T b none s O fine ascii readable = unexposed_of-IsExposed b none s refl
  exposure_of-IsExposed T b (some exp) s O (inl off) ascii readable =
      unexposed_of-IsExposed b (some exp) s off
  exposure_of-IsExposed T b (some exp) s O (inr (host, named)) ascii readable =
      elim (Bool-cases exp.enabled) [
        | inl on ↦
            let p = expose-IsRouted T b exp s O (supported_of exp named) host ascii readable in
            branch b exp s _ true on (record {
              succeeds = p.succeeds;
              exposes = inr (on, p.shown);
              kept = p.kept;
              readable = p.readable;
            })
        | inr off ↦ unexposed_of-IsExposed b (some exp) s off
      ]

  -- A builder that is not exposed: its route and its certificate are gone.
  pub unexposed-IsExposed :
      (b : BuildkitBuilder) (s : W.State)
      → exposure_enabled b ≡ false
      → IsExposed W R b b.spec.exposure s (reconcile_exposure W b s)
  unfolding reconcile_exposure exposure_enabled
  unexposed-IsExposed b s off = unexposed_of-IsExposed b b.spec.exposure s off

  -- In a cluster with one writer, whose API server finds no object invalid, with the certificate
  -- libraries behaving as documented, where the builder is accepted as owner of the objects of its
  -- namespace without one, the authority of its namespace is absent or parses with the key of its
  -- certificate, and the builder's exposure is one that the webhook admits, with a host in ASCII if
  -- there is an exposure, the call succeeds. An exposure that is on has its route then, and a secret
  -- that is noted for its host, with a certificate and a key that parse. One that is absent or off
  -- has neither route nor secret. Nothing but routes and secrets has changed, and the authority
  -- is still absent or parses with the key of its certificate.
  pub reconcile_exposure-IsExposed :
      (T : IsTrusted W R.peek) (b : BuildkitBuilder) (s : W.State)
      → IsOwning W b.meta
      → IsExposable b.spec.exposure
      → HasAsciiHost W R b.spec.exposure
      → IsReadable W R b.meta.namespace s
      → IsExposed W R b b.spec.exposure s (reconcile_exposure W b s)
  unfolding reconcile_exposure
  reconcile_exposure-IsExposed T b s O fine ascii readable =
      exposure_of-IsExposed T b b.spec.exposure s O fine ascii readable
