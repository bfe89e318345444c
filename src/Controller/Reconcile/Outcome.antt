-- ===== src/Controller/Reconcile/Outcome.antt =====
-- What a whole reconciliation leaves behind, in a reliable cluster.
use build_operator.Prelude.{String, ◌≡◌, refl, sym, ap, ◌∙◌, [], ◌∷◌, inl, inr, ◌⊎◌, Bool-cases}
use build_operator.Prelude.Int.{ℤ, pos, eqb_ℤ}
use build_operator.Controller.Sleep.{desired_replicas, idle_timeout_of}
use build_operator.Exec.{Result, ok, Exec, pure, ◌>>=◌}
use build_operator.Exec.Laws.{bind_ok, bind_to}
use build_operator.Kube.Meta.{annotation}
use build_operator.Template.{BuildkitBuilderTemplateSpec}
use build_operator.Builder.{BuildkitBuilder}
use build_operator.Controller.Metadata.{annotation_last_used, base_name, label_key_builder_name}
use build_operator.Controller.Exposure.Attained.{IsAttainable}
use build_operator.Controller.Endpoint.{scan_pods, resolve_stateful_set_endpoint}
use build_operator.Controller.Status.{ReconcileResult}
use build_operator.Controller.Reconcile.{
  ensure_surroundings, ensure_stateful_set, persistent_replicas, report_persistent,
  reconcile_persistent, report_sleepy, reconcile_sleepy, awake_endpoint,
}
use build_operator.Controller.Reconcile.Surroundings.{IsSized}
use build_operator.Controller.Reconcile.SetUp.{
  in_namespace, IsSurrounded, IsSurrounded-same, ensure_surroundings-IsSetUp,
}
use build_operator.Controller.Reconcile.Reports.{
  IsReported, IsThere, report_persistent-IsReported, report_sleepy-IsReported,
}
use build_operator.Controller.Reconcile.Stability.{
  IsStable, IsStable-trans, unchanged-IsStable, set_up-IsStable, put-IsStable, report-IsStable,
}
use build_operator.Controller.Reconcile.Replicas.{desired_replicas-IsChosen}
use build_operator.World.{World, config_map, service, stateful_set, builder, secret, ingress_route}
use build_operator.World.Held.{Holds, put-Holds, Holds-same}
use build_operator.World.Laws.{IsReliable, IsOwning, IsPut}
use build_operator.Controller.Reconcile.Workload.{Runs, IsUpdatable, ensure_stateful_set-Runs}

module _ (W : World) (R : IsReliable W) where
  -- The builder's surroundings are there, and its stateful set with so many replicas.
  pub record IsConverged (b : BuildkitBuilder) (spec : BuildkitBuilderTemplateSpec) (n : ℤ)
      (s : W.State) (r : Result ReconcileResult × W.State) : Type 0 where
    pub result : ReconcileResult
    pub succeeds : r.0 ≡ ok result
    pub surrounded : IsSurrounded W R b spec r.1
    pub workload :
        Holds W R.peek stateful_set (in_namespace b (base_name b)) (Runs W R b spec n) r.1
    pub stable : IsStable W R b s r.1

  -- The state before the report, and the report.
  converge :
      (b : BuildkitBuilder) (spec : BuildkitBuilderTemplateSpec) (n : ℤ) (first s : W.State)
      (q : Result (Unit {0}) × W.State) (r : Result ReconcileResult × W.State)
      → IsSurrounded W R b spec s
      → IsPut W R.peek stateful_set (in_namespace b (base_name b)) (Runs W R b spec n) s q
      → IsReported W R b q.1 r
      → IsStable W R b first s
      → IsConverged b spec n first r
  converge b spec n first s q r up put report before = record {
    result = report.answer;
    succeeds = report.succeeds;
    surrounded =
        IsSurrounded-same W R b spec s r.1
          (λ key. report.others config_map key (λ e. cc) ∙ put.frame config_map key (inl λ e. cc))
          (λ key. report.others service key (λ e. cc) ∙ put.frame service key (inl λ e. cc))
          (λ key.
            report.others ingress_route key (λ e. cc) ∙ put.frame ingress_route key (inl λ e. cc))
          (λ key. report.others secret key (λ e. cc) ∙ put.frame secret key (inl λ e. cc)) up;
    workload =
        Holds-same W R stateful_set _ _ q.1 r.1 (report.others stateful_set _ (λ e. cc))
          (put-Holds W R _ put);
    stable = IsStable-trans W R b first s r.1 before (
        IsStable-trans W R b s q.1 r.1 (put-IsStable W R b _ _ s q put)
          (report-IsStable W R b q.1 r report));
  }

  resolves :
      (b : BuildkitBuilder) (s : W.State)
      → resolve_stateful_set_endpoint W b s ≡ (
        ok (
            scan_pods ""
              (pos 0)
              (R.pods b.meta.namespace ((label_key_builder_name, b.meta.name) ∷ []) s)),
        s,
      )
  unfolding resolve_stateful_set_endpoint ◌>>=◌
  resolves b s = rw R.list_pods_lem

  -- From the choice of the replicas on, where the report follows the look at the pods.
  finish :
      (b : BuildkitBuilder) (spec : BuildkitBuilderTemplateSpec) (n : ℤ) (first s : W.State)
      (look : Exec W.State (String × ℤ)) (report : String × ℤ → Exec W.State ReconcileResult)
      → IsOwning W b.meta
      → IsUpdatable W R b s
      → IsSurrounded W R b spec s
      → IsThere W R b s
      → ((t : W.State) → (resolved : String × ℤ) × (look t ≡ (ok resolved, t)))
      → ((resolved : String × ℤ) (t : W.State)
          → IsThere W R b t
          → IsReported W R b t (report resolved t))
      → IsStable W R b first s
      → IsConverged b spec n first ((ensure_stateful_set W b spec n >>= λ _. look >>= report) s)
  finish b spec n first s look report O updatable up (old, there) looks reports before =
      let put = ensure_stateful_set-Runs W R b spec n s O updatable in
      let t = (ensure_stateful_set W b spec n s).1 in
      let (resolved, seen) = looks t in
      let here : IsThere W R b t = (old, put.frame builder _ (inl λ e. cc) ∙ there) in
      rw
        (
          bind_ok (ensure_stateful_set W b spec n) (λ _. look >>= report) s tt put.succeeds,
          bind_to look report t resolved t seen,
        )
        (converge b spec n first s _ _ up put (reports resolved t here) before)

  -- In a cluster with one writer, whose API server finds no object invalid, where the builder is
  -- accepted as owner of the objects of its namespace without one, the reconciliation of a
  -- persistent builder succeeds if it is stored, asks for a claim of a readable size if any, has no
  -- stateful set or one with its selector and service name, which may not change, and is not
  -- exposed, or is one that the webhook admits, with a host in ASCII if it has an exposure, where
  -- the certificate libraries behave as documented and the namespace's authority is absent or
  -- parses with the key of its certificate. It leaves the config map with the builder's text, both
  -- services with its selector, and the stateful set with its selector, its pods and
  -- `spec.replicas`, 1 where that is not given. A builder that is exposed has its route and a secret
  -- that is noted for its host, with a certificate and a key that parse, and another builder has
  -- neither. No template changes, the builder keeps its spec, and a readable authority stays so.
  pub reconcile_persistent-IsConverged :
      (b : BuildkitBuilder) (spec : BuildkitBuilderTemplateSpec) (s : W.State)
      → IsOwning W b.meta
      → IsSized W R spec.cache_config
      → IsAttainable W R b s
      → IsUpdatable W R b s
      → IsThere W R b s
      → IsConverged b spec (persistent_replicas W b) s (reconcile_persistent W b spec s)
  unfolding reconcile_persistent
  reconcile_persistent-IsConverged b spec s O sized ready updatable (old, there) =
      let set_up = ensure_surroundings-IsSetUp W R b spec s O sized ready in
      let s1 = (ensure_surroundings W b spec s).1 in
      rw (bind_ok (ensure_surroundings W b spec) _ s tt set_up.succeeds) (
        finish b spec (persistent_replicas W b) s s1 (resolve_stateful_set_endpoint W b)
          (report_persistent W b) O (λ o h. updatable o (sym (set_up.workloads _) ∙ h))
          set_up.surrounded (old, set_up.builders _ ∙ there) (λ t. (_, resolves b t))
          (λ resolved t here. report_persistent-IsReported W R b resolved t here)
          (set_up-IsStable W R b spec s _ set_up))

  awake :
      (b : BuildkitBuilder) (n : ℤ) (t : W.State)
      → (resolved : String × ℤ) × (awake_endpoint W b n t ≡ (ok resolved, t))
  unfolding awake_endpoint pure
  awake b n t = elim (Bool-cases (eqb_ℤ n (pos 1))) [
    | inl up ↦ rw up (_, resolves b t)
    | inr down ↦ rw down (("", pos 0), refl)
  ]

  -- In a cluster with one writer, whose API server finds no object invalid, where the builder is
  -- accepted as owner of the objects of its namespace without one, the reconciliation of a sleepy
  -- builder succeeds if it is stored, asks for a claim of a readable size if any, has no stateful
  -- set or one with its selector and service name, which may not change, and is not exposed, or is
  -- one that the webhook admits, with a host in ASCII if it has an exposure, where the certificate
  -- libraries behave as documented and the namespace's authority is absent or parses with the key of
  -- its certificate. It leaves the config map with the builder's text, both services with its
  -- selector, and the stateful set with its selector, its pods and the replicas, none or one, that
  -- its last use, its timeout and the clock after the set-up give. A builder that is exposed has its
  -- route and a secret that is noted for its host, with a certificate and a key that parse, and
  -- another builder has neither. No template changes, the builder keeps its spec, and a readable
  -- authority stays so.
  pub reconcile_sleepy-IsConverged :
      (b : BuildkitBuilder) (spec : BuildkitBuilderTemplateSpec) (s : W.State)
      → IsOwning W b.meta
      → IsSized W R spec.cache_config
      → IsAttainable W R b s
      → IsUpdatable W R b s
      → IsThere W R b s
      → (n : ℤ) × ((desired_replicas W
            (annotation b.meta.annotations annotation_last_used)
            (idle_timeout_of b)
            (ensure_surroundings W b spec s).1).0
          ≡ ok n)
        × ((n ≡ pos 0) ⊎ (n ≡ pos 1))
        × IsConverged b spec n s (reconcile_sleepy W b spec s)
  unfolding reconcile_sleepy
  reconcile_sleepy-IsConverged b spec s O sized ready updatable (old, there) =
      let set_up = ensure_surroundings-IsSetUp W R b spec s O sized ready in
      let s1 = (ensure_surroundings W b spec s).1 in
      let last = annotation b.meta.annotations annotation_last_used in
      let c = desired_replicas-IsChosen W R last (idle_timeout_of b) s1 in
      let n = c.replicas in
      (
        n,
        ap (λ r. r.0) c.chosen,
        c.binary,
        rw
            (
              bind_ok (ensure_surroundings W b spec) _ s tt set_up.succeeds,
              bind_to (desired_replicas W last (idle_timeout_of b)) _ s1 n c.after c.chosen,
            )
            (finish b spec n s c.after (awake_endpoint W b n) (report_sleepy W b n) O
              (λ o h. updatable o (sym (c.still stateful_set _ ∙ set_up.workloads _) ∙ h))
              (IsSurrounded-same W R b spec s1 c.after (λ key. c.still config_map key)
                (λ key. c.still service key) (λ key. c.still ingress_route key)
                (λ key. c.still secret key) set_up.surrounded)
              (old, c.still builder _ ∙ set_up.builders _ ∙ there) (awake b n)
              (λ resolved t here. report_sleepy-IsReported W R b n resolved t here)
              (IsStable-trans W R b s s1 c.after (set_up-IsStable W R b spec s _ set_up)
                (unchanged-IsStable W R b s1 c.after c.still))),
      )
