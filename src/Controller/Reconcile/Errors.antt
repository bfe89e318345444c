-- ===== src/Controller/Reconcile/Errors.antt =====
-- How a reconciliation ends: which results it has, and where it stops early.
use build_operator.Prelude.{
  String, ◌==◌, eq_iff, ◌≡◌, ◌≢◌, some, inl, inr, arith, Bool-cases, if◌then◌else◌,
}
use build_operator.Prelude.Int.{ℤ, pos}
use build_operator.Error.{Error, template_not_found, unknown_mode}
use build_operator.Exec.{ok, err, ◌>>=◌}
use build_operator.Exec.Laws.{bind_err, bind-eq-ok}
use build_operator.Kube.Meta.{Key}
use build_operator.Template.{BuildkitBuilderTemplateSpec}
use build_operator.Builder.{BuildkitBuilder, mode_persistent, mode_sleepy}
use build_operator.Controller.Status.{ReconcileResult, no_requeue, update_status}
use build_operator.Controller.Reconcile.{
  resolve_spec, ensure_surroundings, ensure_stateful_set, persistent_replicas, report_persistent,
  report_sleepy, reconcile_persistent, reconcile_sleepy, reconcile_mode, with_spec, reconcile,
}
use build_operator.Controller.Endpoint.{resolve_stateful_set_endpoint}
use build_operator.World.{World, builder, template, record_event}

module _ (W : World) where
  -- A builder that is found and names a template which cannot be read is not reconciled, nor is its
  -- deletion: the run ends with the error, and after the two reads it records an event and does no
  -- more.
  pub reconcile_template_missing :
      (request : Key) (b : BuildkitBuilder) (name : String) (e : Error) (s t u : W.State)
      → W.get builder request s ≡ (ok b, t)
      → b.spec.template_ref ≡ some name
      → W.get template (record { namespace = b.meta.namespace; name = name }) t ≡ (err e, u)
      → reconcile W request s ≡ (
        err (template_not_found name b.meta.namespace e),
        W.event b "Warning" "SpecResolution" (template_not_found name b.meta.namespace e) u,
      )
  unfolding reconcile resolve_spec with_spec record_event ◌>>=◌
  reconcile_template_missing request b name e s t u found ref missing = rw (found, ref, missing)

  -- A mode that the switch does not know is an error, and nothing is read or written for it.
  pub reconcile_mode_unknown :
      (b : BuildkitBuilder) (spec : BuildkitBuilderTemplateSpec) (s : W.State)
      → b.spec.mode ≢ mode_persistent
      → b.spec.mode ≢ mode_sleepy
      → reconcile_mode W b spec s ≡ (err (unknown_mode b.spec.mode), s)
  unfolding reconcile_mode ◌>>=◌
  reconcile_mode_unknown b spec s p q =
      ground (arith, eq_iff b.spec.mode mode_persistent, eq_iff b.spec.mode mode_sleepy)

  report_sleepy_requeues :
      (b : BuildkitBuilder) (replicas : ℤ) (resolved : String × ℤ) (s : W.State)
      {r : ReconcileResult}
      → (report_sleepy W b replicas resolved s).0 ≡ ok r
      → r ≡ record { requeue_after = some (pos 30) }
  unfolding report_sleepy ◌>>=◌
  report_sleepy_requeues b replicas resolved s h = ground arith

  report_persistent_requeues :
      (b : BuildkitBuilder) (resolved : String × ℤ) (s : W.State) {r : ReconcileResult}
      → (report_persistent W b resolved s).0 ≡ ok r
      → r ≡ (if resolved.0 == "" then record { requeue_after = some (pos 5) } else no_requeue)
  unfolding report_persistent update_status ◌>>=◌
  report_persistent_requeues b resolved s h = elim (Bool-cases (resolved.0 == "")) [
    | inl waiting ↦ rw waiting (ground (arith, waiting))
    | inr ready ↦ rw ready (ground (arith, ready))
  ]

  -- A sleepy builder whose reconciliation succeeds is always looked at again after 30 seconds.
  pub reconcile_sleepy_requeues :
      (b : BuildkitBuilder) (spec : BuildkitBuilderTemplateSpec) (s : W.State) {r : ReconcileResult}
      → (reconcile_sleepy W b spec s).0 ≡ ok r
      → r ≡ record { requeue_after = some (pos 30) }
  unfolding reconcile_sleepy
  reconcile_sleepy_requeues b spec s h =
      let (_, _, h1) = bind-eq-ok _ _ s h in
      let (replicas, _, h2) = bind-eq-ok _ _ _ h1 in
      let (_, _, h3) = bind-eq-ok _ _ _ h2 in
      let (resolved, _, h4) = bind-eq-ok _ _ _ h3 in report_sleepy_requeues b replicas resolved _ h4

  -- Where the reconciliation of a persistent builder succeeds, the look-up of the endpoint in the
  -- state that the set-up and the stateful set leave has succeeded. The builder is looked at again
  -- after 5 seconds if that endpoint is empty, and otherwise not until something changes.
  pub reconcile_persistent_requeues :
      (b : BuildkitBuilder) (spec : BuildkitBuilderTemplateSpec) (s : W.State) {r : ReconcileResult}
      → (reconcile_persistent W b spec s).0 ≡ ok r
      → (resolved : String × ℤ) × ((resolve_stateful_set_endpoint W b
            (ensure_stateful_set W b spec
              (persistent_replicas W b)
              (ensure_surroundings W b spec s).1).1).0
          ≡ ok resolved)
        × (r ≡ (if resolved.0 == "" then record { requeue_after = some (pos 5) } else no_requeue))
  unfolding reconcile_persistent
  reconcile_persistent_requeues b spec s h =
      let (_, _, h1) = bind-eq-ok _ _ s h in
      let (_, _, h2) = bind-eq-ok _ _ _ h1 in
      let (resolved, e, h3) = bind-eq-ok _ _ _ h2 in
      (resolved, e, report_persistent_requeues b resolved _ h3)

  -- Where the surroundings of a builder cannot be set up, its reconciliation ends with that error,
  -- in either mode, and the stateful set, the claim's user, is not touched.
  pub reconcile_surroundings_fail :
      (b : BuildkitBuilder) (spec : BuildkitBuilderTemplateSpec) (e : Error) (s : W.State)
      → (ensure_surroundings W b spec s).0 ≡ err e
      → (reconcile_persistent W b spec s ≡ (err e, (ensure_surroundings W b spec s).1))
        × (reconcile_sleepy W b spec s ≡ (err e, (ensure_surroundings W b spec s).1))
  unfolding reconcile_persistent reconcile_sleepy
  reconcile_surroundings_fail b spec e s h = (bind_err _ _ s e h, bind_err _ _ s e h)
