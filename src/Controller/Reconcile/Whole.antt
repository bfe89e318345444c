-- ===== src/Controller/Reconcile/Whole.antt =====
-- `Reconcile` as a whole, in a reliable cluster: from the request to what the builder has then.
use build_operator.Prelude.{
  ◌≡◌, ◌∙◌, refl, ap, true, false, none, some, ◌⊎◌, inl, inr, ◌==◌, eq_iff, arith,
}
use build_operator.Prelude.Int.{ℤ, pos}
use build_operator.Exec.{ok, ◌>>=◌}
use build_operator.Kube.Meta.{Key, is_zero}
use build_operator.Template.{BuildkitBuilderTemplate, BuildkitBuilderTemplateSpec}
use build_operator.Builder.{BuildkitBuilder, mode_persistent, mode_sleepy}
use build_operator.Controller.Merge.{merge_spec}
use build_operator.Controller.Exposure.Attained.{IsAttainable}
use build_operator.Controller.Reconcile.{
  reconcile, resolve_spec, merge_inline, with_spec, reconcile_mode, persistent_replicas,
  reconcile_persistent, reconcile_sleepy,
}
use build_operator.Controller.Reconcile.Dispatch.{effective, merges}
use build_operator.Controller.Reconcile.Surroundings.{IsSized}
use build_operator.Controller.Reconcile.Outcome.{
  IsConverged, reconcile_persistent-IsConverged, reconcile_sleepy-IsConverged,
}
use build_operator.Controller.Reconcile.Workload.{IsUpdatable}
use build_operator.World.{World, builder, template}
use build_operator.World.Laws.{IsReliable, IsOwning}

module _ (W : World) (R : IsReliable W) where
  -- The settings of a builder: its inline ones alone, or over those of the template that it names,
  -- which is stored.
  abbrev pub IsResolved : BuildkitBuilder → BuildkitBuilderTemplateSpec → W.State → Type 0
  IsResolved b spec s =
      ((inline : BuildkitBuilderTemplateSpec) × (b.spec.template_ref ≡ none)
        × (b.spec.template ≡ some inline)
        × (spec ≡ merge_spec none (some inline)))
      ⊎ ((tmpl : BuildkitBuilderTemplate) × (name : _) × (b.spec.template_ref ≡ some name)
          × (R.peek template (record { namespace = b.meta.namespace; name = name }) s ≡ some tmpl)
          × (spec ≡ effective tmpl.spec b.spec.template))

  resolve_spec-IsResolved :
      (b : BuildkitBuilder) (spec : BuildkitBuilderTemplateSpec) (s : W.State)
      → IsResolved b spec s
      → resolve_spec W b s ≡ (ok spec, s)
  unfolding resolve_spec merge_inline ◌>>=◌
  resolve_spec-IsResolved b spec s (inl (inline, ref, own, e)) = rw (ref, own, e) refl
  resolve_spec-IsResolved b spec s (inr (tmpl, name, ref, there, e)) =
      rw (ref, R.get_lem, there, merges W tmpl.spec b.spec.template, e) refl

  -- A builder that is stored, resolves and is not being deleted is reconciled in its mode.
  live :
      (request : Key) (b : BuildkitBuilder) (spec : BuildkitBuilderTemplateSpec) (s : W.State)
      → R.peek builder request s ≡ some b
      → is_zero b.meta.deletion_timestamp ≡ true
      → IsResolved b spec s
      → reconcile W request s ≡ reconcile_mode W b spec s
  unfolding reconcile with_spec ◌>>=◌
  live request b spec s there kept resolved =
      rw (R.get_lem, there, resolve_spec-IsResolved b spec s resolved, kept) refl

  mode-persistent :
      (b : BuildkitBuilder) (spec : BuildkitBuilderTemplateSpec)
      → b.spec.mode ≡ mode_persistent
      → reconcile_mode W b spec ≡ reconcile_persistent W b spec
  unfolding reconcile_mode
  mode-persistent b spec e = ground (arith, eq_iff b.spec.mode mode_persistent)

  mode-sleepy :
      (b : BuildkitBuilder) (spec : BuildkitBuilderTemplateSpec)
      → b.spec.mode ≡ mode_sleepy
      → reconcile_mode W b spec ≡ reconcile_sleepy W b spec
  unfolding reconcile_mode
  mode-sleepy b spec e =
      let off : (b.spec.mode == mode_persistent) ≡ false = ap (λ mode. mode == mode_persistent) e in
      let on : (b.spec.mode == mode_sleepy) ≡ true = ap (λ mode. mode == mode_sleepy) e in
      rw (off, on) refl

  -- The replicas that a mode allows.
  abbrev pub IsWanted : BuildkitBuilder → ℤ → Type 0
  IsWanted b n =
      ((b.spec.mode ≡ mode_persistent) × (n ≡ persistent_replicas W b))
      ⊎ ((b.spec.mode ≡ mode_sleepy) × ((n ≡ pos 0) ⊎ (n ≡ pos 1)))

  -- In a cluster with one writer, whose API server finds no object invalid, where the builder is
  -- accepted as owner of the objects of its namespace without one, a request succeeds if its builder
  -- is stored, is not being deleted, has one of the two modes, and has settings, inline or of a
  -- stored template, with a claim of a readable size if any, if its stateful set is absent or has
  -- the builder's selector and service name, which may not change, and if the builder is not exposed
  -- or is one that the webhook admits, with a host in ASCII if it has an exposure, where the
  -- certificate libraries behave as documented and the namespace's authority is absent or parses
  -- with the key of its certificate. The builder has its config map, its services, and its stateful
  -- set then, with the replicas of its spec if it is persistent, and with none or one if it is
  -- sleepy. If it is exposed, it has its route and a secret that is noted for its host, with a
  -- certificate and a key that parse, and otherwise neither.
  pub reconcile-IsConverged :
      (request : Key) (b : BuildkitBuilder) (spec : BuildkitBuilderTemplateSpec) (s : W.State)
      → IsOwning W b.meta
      → R.peek builder request s ≡ some b
      → is_zero b.meta.deletion_timestamp ≡ true
      → (b.spec.mode ≡ mode_persistent) ⊎ (b.spec.mode ≡ mode_sleepy)
      → IsResolved b spec s
      → IsSized W R spec.cache_config
      → IsAttainable W R b s
      → IsUpdatable W R b s
      → (n : ℤ) × IsWanted b n × IsConverged W R b spec n s (reconcile W request s)
  reconcile-IsConverged request b spec s O there kept (inl e) resolved sized ready updatable =
      let stored = ap (λ k. R.peek builder k s) (R.key_lem builder request s there) ∙ there in
      (
        persistent_replicas W b,
        inl (e, refl),
        rw (live request b spec s there kept resolved, mode-persistent b spec e)
            (reconcile_persistent-IsConverged W R b spec s O sized ready updatable (b, stored)),
      )
  reconcile-IsConverged request b spec s O there kept (inr e) resolved sized ready updatable =
      let stored = ap (λ k. R.peek builder k s) (R.key_lem builder request s there) ∙ there in
      let (n, _, binary, c) =
        reconcile_sleepy-IsConverged W R b spec s O sized ready updatable (b, stored) in
      (n, inr (e, binary), rw (live request b spec s there kept resolved, mode-sleepy b spec e) c)
