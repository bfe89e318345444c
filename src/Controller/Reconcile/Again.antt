-- ===== src/Controller/Reconcile/Again.antt =====
-- Requests for a builder, one after the other, in a reliable cluster.
use build_operator.Prelude.{ℕ, zero, suc, ◌≡◌, ◌∙◌, ◌⊎◌, inl, inr, refl, sym, ap, true, some}
use build_operator.Prelude.Int.{ℤ}
use build_operator.Kube.Meta.{Key, key_of, ObjectMeta, is_zero}
use build_operator.Template.{BuildkitBuilderTemplateSpec}
use build_operator.Builder.{BuildkitBuilder, mode_persistent, mode_sleepy}
use build_operator.Builder.Webhook.{validate_builder}
use build_operator.Controller.Ingress.{exposure_enabled}
use build_operator.Controller.Exposure.Attained.{IsAttainable}
use build_operator.Controller.Tls.Creation.{IsReadable}
use build_operator.Controller.Reconcile.{reconcile}
use build_operator.Controller.Reconcile.Dispatch.{effective}
use build_operator.Controller.Reconcile.Surroundings.{IsSized}
use build_operator.Controller.Reconcile.Outcome.{IsConverged}
use build_operator.Controller.Reconcile.Whole.{IsResolved, IsWanted, reconcile-IsConverged}
use build_operator.Controller.Labels.{labels_for_builder}
use build_operator.Controller.Metadata.{base_name}
use build_operator.Controller.Reconcile.Workload.{IsUpdatable, Runs-IsUpdatable}
use build_operator.World.{World, builder, template}
use build_operator.World.Laws.{IsReliable, IsOwning}

-- The review reads the spec only.
validate_same :
    (b new : BuildkitBuilder) → new.spec ≡ b.spec → validate_builder new ≡ validate_builder b
unfolding validate_builder
validate_same b new e = rw e refl

module _ (W : World) (R : IsReliable W) where
  -- What a request needs to succeed.
  pub record IsReady (request : Key) (b : BuildkitBuilder) (spec : BuildkitBuilderTemplateSpec)
      (s : W.State) : Type 0 where
    pub stored : R.peek builder request s ≡ some b
    pub live : is_zero b.meta.deletion_timestamp ≡ true
    pub mode : (b.spec.mode ≡ mode_persistent) ⊎ (b.spec.mode ≡ mode_sleepy)
    pub resolved : IsResolved W R b spec s
    pub sized : IsSized W R spec.cache_config
    pub attainable : IsAttainable W R b s
    pub updatable : IsUpdatable W R b s

  IsResolved-after :
      (b new : BuildkitBuilder) (spec : BuildkitBuilderTemplateSpec) (s t : W.State)
      → new.spec ≡ b.spec
      → new.meta.namespace ≡ b.meta.namespace
      → ((key : Key) → R.peek template key t ≡ R.peek template key s)
      → IsResolved W R b spec s
      → IsResolved W R new spec t
  IsResolved-after b new spec s t same namespace templates (inl (inline, ref, own, e)) =
      inl (inline, ap (λ x. x.template_ref) same ∙ ref, ap (λ x. x.template) same ∙ own, e)
  IsResolved-after b new spec s t same namespace templates (inr (tmpl, name, ref, there, e)) = inr (
    tmpl,
    name,
    ap (λ x. x.template_ref) same ∙ ref,
    ap (λ n. R.peek template (record { namespace = n; name = name }) t) namespace
        ∙ templates _
        ∙ there,
    e ∙ ap (λ x. effective tmpl.spec x.template) (sym same),
  )

  IsAttainable-after :
      (b new : BuildkitBuilder) (s t : W.State)
      → new.spec ≡ b.spec
      → new.meta.namespace ≡ b.meta.namespace
      → (IsReadable W R b.meta.namespace s → IsReadable W R b.meta.namespace t)
      → IsAttainable W R b s
      → IsAttainable W R new t
  unfolding exposure_enabled
  IsAttainable-after b new s t same namespace kept (inl off) = inl (rw same off)
  IsAttainable-after b new s t same namespace kept (inr (T, admitted, ascii, readable)) =
      inr (T, validate_same b new same ∙ admitted, rw same ascii, rw namespace (kept readable))

  -- The builder that is stored under the same key with the same spec has the same stateful set.
  IsUpdatable-after :
      (b new : BuildkitBuilder) (t : W.State)
      → new.spec ≡ b.spec
      → key_of new.meta ≡ key_of b.meta
      → IsUpdatable W R b t
      → IsUpdatable W R new t
  unfolding labels_for_builder base_name
  IsUpdatable-after b new t same key updatable =
      let name : new.meta.name ≡ b.meta.name = ap (λ (k : Key). k.name) key in
      let namespace : new.meta.namespace ≡ b.meta.namespace = ap (λ (k : Key). k.namespace) key in
      rw (same, name, namespace) updatable

  -- A request leaves the cluster ready for the next one.
  reconcile-IsReady :
      (owners : (m : ObjectMeta) → IsOwning W m) (request : Key) (b : BuildkitBuilder)
      (spec : BuildkitBuilderTemplateSpec) (s : W.State)
      → IsReady request b spec s
      → (new : BuildkitBuilder) × (new.spec ≡ b.spec)
        × IsReady request new spec (reconcile W request s).1
  reconcile-IsReady owners request b spec s p =
      let (n, _, c) =
        reconcile-IsConverged W R request b spec s (owners b.meta) p.stored p.live p.mode p.resolved
          p.sized p.attainable p.updatable in
      let t = (reconcile W request s).1 in
      let here = R.key_lem builder request s p.stored in
      let (new, there, (same, stamp)) =
        c.stable.stays b (ap (λ k. R.peek builder k s) here ∙ p.stored) in
      let stored : R.peek builder request t ≡ some new =
        ap (λ k. R.peek builder k t) (sym here) ∙ there in
      let namespace : new.meta.namespace ≡ b.meta.namespace =
        ap (λ (k : Key). k.namespace) (R.key_lem builder request t stored ∙ sym here) in
      (
        new,
        same,
        record {
          stored = stored;
          live = ap is_zero stamp ∙ p.live;
          mode = rw same p.mode;
          resolved = IsResolved-after b new spec s t same namespace c.stable.templates p.resolved;
          sized = p.sized;
          attainable = IsAttainable-after b new s t same namespace c.stable.readable p.attainable;
          updatable =
              IsUpdatable-after b new t same (R.key_lem builder request t stored ∙ sym here)
                (Runs-IsUpdatable W R b spec n t c.workload);
        },
      )

  -- The cluster after so many requests.
  unfoldable pub after_requests : ℕ → Key → W.State → W.State
  after_requests zero request s = s
  after_requests (suc n) request s = after_requests n request (reconcile W request s).1

  -- In a cluster with one writer, whose API server finds no object invalid, where builders are
  -- accepted as owners of the objects of their namespaces without one: take a builder that is
  -- stored, is not being deleted, has one of the two modes, and has settings, inline or of a stored
  -- template, with a claim of a readable size if any, whose stateful set is absent or has the
  -- builder's selector and service name, which may not change, and that is not exposed or is
  -- admitted by the webhook, with a host in ASCII if it has an exposure, where the certificate
  -- libraries behave as documented and the namespace's authority is absent or parses with the key of
  -- its certificate. After any number of requests for it, the next one succeeds. The builder that is
  -- stored before it has the same spec still, and has its config map, its services, and its stateful
  -- set after it, with the replicas that its mode allows. If it is exposed, it has its route and a
  -- secret that is noted for its host, with a certificate and a key that parse, and otherwise
  -- neither.
  pub reconcile_always :
      (owners : (m : ObjectMeta) → IsOwning W m) (request : Key) (b : BuildkitBuilder)
      (spec : BuildkitBuilderTemplateSpec) (count : ℕ) (s : W.State)
      → IsReady request b spec s
      → (new : BuildkitBuilder) × (n : ℤ) × (new.spec ≡ b.spec)
        × IsWanted W R new n
        × IsConverged W R new spec n
            (after_requests count request s)
            (reconcile W request (after_requests count request s))
  unfolding after_requests
  reconcile_always owners request b spec zero s p =
      let (n, wanted, c) =
        reconcile-IsConverged W R request b spec s (owners b.meta) p.stored p.live p.mode p.resolved
          p.sized p.attainable p.updatable in
      (b, n, refl, wanted, c)
  reconcile_always owners request b spec (suc count) s p =
      let (mid, same, q) = reconcile-IsReady owners request b spec s p in
      let (new, n, same', wanted, c) =
        reconcile_always owners request mid spec count (reconcile W request s).1 q in
      (new, n, same' ∙ same, wanted, c)
