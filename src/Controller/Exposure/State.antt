-- ===== src/Controller/Exposure/State.antt =====
-- What the exposure of a builder is in a reliable cluster.
use build_operator.Prelude.{◌≡◌, ◌≢◌, ◌∙◌, false, Option, none, some, inl, inr}
use build_operator.Exec.{Result, ok}
use build_operator.Kube.Meta.{Key}
use build_operator.Builder.{BuildkitBuilder, ExposureConfig}
use build_operator.Controller.Metadata.{base_name}
use build_operator.Controller.Tls.Server.{tls_key}
use build_operator.World.{World, Kind, secret, ingress_route}
use build_operator.World.Laws.{IsReliable}
use build_operator.Prelude.{true, ◌⊎◌}
use build_operator.Controller.Ingress.{ingress_route_for_builder}
use build_operator.Controller.Tls.Creation.{IsReadable}
use build_operator.Controller.Tls.Serving.{IsNoted}
use build_operator.World.Held.{Holds, Holds-same}

module _ (W : World) (R : IsReliable W) where
  abbrev pub route_key : BuildkitBuilder → Key
  route_key b = record { namespace = b.meta.namespace; name = base_name b }

  -- Neither the route nor the certificate's secret is there.
  pub record IsHidden (b : BuildkitBuilder) (t : W.State) : Type 0 where
    pub route : R.peek ingress_route (route_key b) t ≡ none
    pub certificate : R.peek secret (tls_key b) t ≡ none

  -- The route for the host is there, and a secret that is noted for it, whose certificate and key
  -- parse.
  pub record IsShown (b : BuildkitBuilder) (exp : ExposureConfig) (t : W.State) : Type 0 where
    pub route :
        Holds W R.peek ingress_route
          (route_key b)
          (λ p.
            (p.routes ≡ (ingress_route_for_builder b exp).routes)
            × (p.entry_points ≡ (ingress_route_for_builder b exp).entry_points)
            × (p.passthrough ≡ true))
          t
    pub certificate : Holds W R.peek secret (tls_key b) (IsNoted W R exp.host) t

  -- The host of an exposure is in ASCII.
  abbrev pub HasAsciiHost : Option ExposureConfig → Type 0
  HasAsciiHost none = Unit
  HasAsciiHost (some exp) = W.is_ia5 exp.host ≡ true

  -- What an exposure asks for.
  abbrev pub Exposes : BuildkitBuilder → Option ExposureConfig → W.State → Type 0
  Exposes b none t = IsHidden b t
  Exposes b (some exp) t =
      ((exp.enabled ≡ false) × IsHidden b t) ⊎ ((exp.enabled ≡ true) × IsShown b exp t)

  -- The exposure is as the builder asks, and no object but routes and secrets has changed.
  pub record IsExposed (b : BuildkitBuilder) (o : Option ExposureConfig) (s : W.State)
      (r : Result (Unit {0}) × W.State) : Type 0 where
    pub succeeds : r.0 ≡ ok tt
    pub exposes : Exposes b o r.1
    pub kept :
        (j : Kind) (key : Key) → j ≢ ingress_route → j ≢ secret → R.peek j key r.1 ≡ R.peek j key s
    pub readable : IsReadable W R b.meta.namespace s → IsReadable W R b.meta.namespace r.1

  IsHidden-same :
      (b : BuildkitBuilder) (s t : W.State)
      → ((key : Key) → R.peek ingress_route key t ≡ R.peek ingress_route key s)
      → ((key : Key) → R.peek secret key t ≡ R.peek secret key s)
      → IsHidden b s
      → IsHidden b t
  IsHidden-same b s t routes secrets h = record {
    route = routes _ ∙ h.route;
    certificate = secrets _ ∙ h.certificate;
  }

  -- What is as asked stays so while other kinds of objects are written.
  pub Exposes-same :
      (b : BuildkitBuilder) (o : Option ExposureConfig) (s t : W.State)
      → ((key : Key) → R.peek ingress_route key t ≡ R.peek ingress_route key s)
      → ((key : Key) → R.peek secret key t ≡ R.peek secret key s)
      → Exposes b o s
      → Exposes b o t
  Exposes-same b none s t routes secrets h = IsHidden-same b s t routes secrets h
  Exposes-same b (some exp) s t routes secrets (inl (off, h)) =
      inl (off, IsHidden-same b s t routes secrets h)
  Exposes-same b (some exp) s t routes secrets (inr (on, h)) = inr (
    on,
    record {
      route = Holds-same W R ingress_route _ _ s t (routes _) h.route;
      certificate = Holds-same W R secret _ _ s t (secrets _) h.certificate;
    },
  )
