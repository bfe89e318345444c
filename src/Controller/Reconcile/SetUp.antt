-- ===== src/Controller/Reconcile/SetUp.antt =====
-- The set-up of a builder as a whole, in a reliable cluster.
use build_operator.Prelude.{String, ◌≡◌, ◌≢◌, ap, ◌∙◌, Option, none, some, [], ◌∷◌, inl, inr}
use build_operator.Exec.{Result, ok}
use build_operator.Exec.Laws.{bind_ok}
use build_operator.Kube.Meta.{Key, key_of}
use build_operator.Kube.Network.{Service}
use build_operator.Template.{BuildkitBuilderTemplateSpec}
use build_operator.Builder.{BuildkitBuilder}
use build_operator.Controller.Metadata.{base_name, client_name, config_map_name}
use build_operator.Controller.Metadata.Names.{base_name-ne-client_name}
use build_operator.Controller.Toml.{buildkitd_toml_for}
use build_operator.Controller.Labels.{labels_for_builder}
use build_operator.Controller.Objects.{headless_service_for_builder, node_port_service_for_builder}
use build_operator.Controller.Exposure.{reconcile_exposure}
use build_operator.Controller.Exposure.State.{Exposes, Exposes-same}
use build_operator.Controller.Tls.Creation.{IsReadable, IsReadable-same}
use build_operator.Controller.Exposure.Attained.{
  IsAttainable, attainable-IsExposed, IsAttainable-same,
}
use build_operator.Controller.Upsert.{ensure_buildkitd_config_map, create_or_update_service}
use build_operator.Controller.Upsert.Effects.{at_existing, create_or_update_service-stores}
use build_operator.Controller.Reconcile.{ensure_claim, ensure_surroundings}
use build_operator.Controller.Reconcile.Surroundings.{
  IsSized, ensure_claim-IsDone, ensure_buildkitd_config_map-stores,
}
use build_operator.World.{
  World, service, config_map, stateful_set, builder, template, secret, ingress_route,
}
use build_operator.World.Held.{Holds, put-Holds, Holds-same}
use build_operator.World.Laws.{IsReliable, IsOwning, IsPut, IsStored}

abbrev pub in_namespace : BuildkitBuilder → String → Key
in_namespace b name = record { namespace = b.meta.namespace; name = name }

module _ (W : World) (R : IsReliable W) where
  -- The services select the builder's pods.
  Selects : Service → Service → Type 0
  Selects svc p = p.selector ≡ svc.selector

  existing-Selects :
      (svc : Service) (o : Option Service) (s : W.State) (r : Result (Unit {0}) × W.State)
      → IsStored W R.peek service (at_existing svc o) s r
      → IsPut W R.peek service (key_of svc.meta) (Selects svc) s r
  unfolding Selects
  existing-Selects svc none s r p = record {
    succeeds = p.succeeds;
    object = p.object;
    present = p.present;
    agrees = p.agrees.1;
    frame = p.frame;
  }
  existing-Selects svc (some old) s r p = record {
    succeeds = p.succeeds;
    object = p.object;
    present = p.present;
    agrees = p.agrees.1;
    frame = p.frame;
  }

  service-Selects :
      (svc : Service) (s : W.State)
      → IsPut W R.peek service (key_of svc.meta) (Selects svc) s (create_or_update_service W svc s)
  service-Selects svc s = existing-Selects svc _ s _ (create_or_update_service-stores W R svc s)

  -- The config map and both services are there, and the exposure is as the builder asks.
  pub record IsSurrounded (b : BuildkitBuilder) (spec : BuildkitBuilderTemplateSpec) (t : W.State)
      : Type 0 where
    pub config :
        Holds W R.peek config_map
          (in_namespace b (config_map_name b))
          (λ cm. cm.contents ≡ ("buildkitd.toml", buildkitd_toml_for b spec) ∷ [])
          t
    pub headless :
        Holds W R.peek service
          (in_namespace b (base_name b))
          (λ svc. svc.selector ≡ labels_for_builder b b.spec.mode)
          t
    pub client :
        Holds W R.peek service
          (in_namespace b (client_name b))
          (λ svc. svc.selector ≡ labels_for_builder b b.spec.mode)
          t
    pub exposure : Exposes W R b b.spec.exposure t

  -- What is there stays there while only other objects are written.
  pub IsSurrounded-same :
      (b : BuildkitBuilder) (spec : BuildkitBuilderTemplateSpec) (s t : W.State)
      → ((key : Key) → R.peek config_map key t ≡ R.peek config_map key s)
      → ((key : Key) → R.peek service key t ≡ R.peek service key s)
      → ((key : Key) → R.peek ingress_route key t ≡ R.peek ingress_route key s)
      → ((key : Key) → R.peek secret key t ≡ R.peek secret key s)
      → IsSurrounded b spec s
      → IsSurrounded b spec t
  IsSurrounded-same b spec s t configs services routes secrets up = record {
    config = Holds-same W R config_map _ _ s t (configs _) up.config;
    headless = Holds-same W R service _ _ s t (services _) up.headless;
    client = Holds-same W R service _ _ s t (services _) up.client;
    exposure = Exposes-same W R b b.spec.exposure s t routes secrets up.exposure;
  }

  -- The set-up succeeds, and touches no builder, stateful set or template.
  pub record IsSetUp (b : BuildkitBuilder) (spec : BuildkitBuilderTemplateSpec) (s : W.State)
      (r : Result (Unit {0}) × W.State) : Type 0 where
    pub succeeds : r.0 ≡ ok tt
    pub surrounded : IsSurrounded b spec r.1
    pub builders : (key : Key) → R.peek builder key r.1 ≡ R.peek builder key s
    pub workloads : (key : Key) → R.peek stateful_set key r.1 ≡ R.peek stateful_set key s
    pub templates : (key : Key) → R.peek template key r.1 ≡ R.peek template key s
    pub readable : IsReadable W R b.meta.namespace s → IsReadable W R b.meta.namespace r.1

  services_differ :
      (b : BuildkitBuilder) → in_namespace b (base_name b) ≢ in_namespace b (client_name b)
  services_differ b e = base_name-ne-client_name b (ap (λ (k : Key). k.name) e)

  pub ensure_surroundings-IsSetUp :
      (b : BuildkitBuilder) (spec : BuildkitBuilderTemplateSpec) (s : W.State)
      → IsOwning W b.meta
      → IsSized W R spec.cache_config
      → IsAttainable W R b s
      → IsSetUp b spec s (ensure_surroundings W b spec s)
  unfolding ensure_surroundings headless_service_for_builder node_port_service_for_builder Selects
  ensure_surroundings-IsSetUp b spec s O sized ready =
      let config = ensure_buildkitd_config_map-stores W R b spec s O in
      let s1 = (ensure_buildkitd_config_map W b spec s).1 in
      let headless = service-Selects (headless_service_for_builder b) s1 in
      let s2 = (create_or_update_service W (headless_service_for_builder b) s1).1 in
      let client = service-Selects (node_port_service_for_builder b) s2 in
      let s3 = (create_or_update_service W (node_port_service_for_builder b) s2).1 in
      let secrets : (key : Key) → R.peek secret key s3 ≡ R.peek secret key s = λ key.
        client.frame secret key (inl λ e. cc)
        ∙ headless.frame secret key (inl λ e. cc)
        ∙ config.frame secret key (inl λ e. cc) in
      let exposed = attainable-IsExposed W R b s3 O (IsAttainable-same W R b s s3 secrets ready) in
      let s4 = (reconcile_exposure W b s3).1 in
      let last = ensure_claim-IsDone W R b spec.cache_config s4 O sized in
      let run : ensure_surroundings W b spec s ≡ ensure_claim W b spec.cache_config s4 =
        bind_ok _ _ s tt config.succeeds
        ∙ bind_ok _ _ s1 tt headless.succeeds
        ∙ bind_ok _ _ s2 tt client.succeeds
        ∙ bind_ok (reconcile_exposure W b) _ s3 tt exposed.succeeds in
      let t = (ensure_claim W b spec.cache_config s4).1 in
      rw run (record {
        succeeds = last.succeeds;
        surrounded = record {
          config =
              Holds-same W R config_map _ _ s1 t
                (last.others config_map _ (λ e. cc)
                  ∙ exposed.kept config_map _ (λ e. cc) (λ e. cc)
                  ∙ client.frame config_map _ (inl λ e. cc)
                  ∙ headless.frame config_map _ (inl λ e. cc))
                (put-Holds W R _ config);
          headless =
              Holds-same W R service _ _ s2 t
                (last.others service _ (λ e. cc)
                  ∙ exposed.kept service _ (λ e. cc) (λ e. cc)
                  ∙ client.frame service _ (inr (services_differ b)))
                (put-Holds W R _ headless);
          client =
              Holds-same W R service _ _ s3 t
                (last.others service _ (λ e. cc) ∙ exposed.kept service _ (λ e. cc) (λ e. cc))
                (put-Holds W R _ client);
          exposure =
              Exposes-same W R b b.spec.exposure s4 t
                (λ key. last.others ingress_route key (λ e. cc))
                (λ key. last.others secret key (λ e. cc)) exposed.exposes;
        };
        builders = λ key.
            last.others builder key (λ e. cc)
            ∙ exposed.kept builder key (λ e. cc) (λ e. cc)
            ∙ client.frame builder key (inl λ e. cc)
            ∙ headless.frame builder key (inl λ e. cc)
            ∙ config.frame builder key (inl λ e. cc);
        workloads = λ key.
            last.others stateful_set key (λ e. cc)
            ∙ exposed.kept stateful_set key (λ e. cc) (λ e. cc)
            ∙ client.frame stateful_set key (inl λ e. cc)
            ∙ headless.frame stateful_set key (inl λ e. cc)
            ∙ config.frame stateful_set key (inl λ e. cc);
        templates = λ key.
            last.others template key (λ e. cc)
            ∙ exposed.kept template key (λ e. cc) (λ e. cc)
            ∙ client.frame template key (inl λ e. cc)
            ∙ headless.frame template key (inl λ e. cc)
            ∙ config.frame template key (inl λ e. cc);
        readable = λ before.
            IsReadable-same W R b.meta.namespace s4 t (last.others secret _ (λ e. cc))
              (exposed.readable (IsReadable-same W R b.meta.namespace s s3 (secrets _) before));
      })
