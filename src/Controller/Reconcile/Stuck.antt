-- ===== src/Controller/Reconcile/Stuck.antt =====
-- A builder whose template is gone, in a reliable cluster.
use build_operator.Prelude.{ℕ, zero, suc, ◌≡◌, ◌∙◌, ap, none, some, String}
use build_operator.Error.{not_found, template_not_found}
use build_operator.Exec.{err}
use build_operator.Kube.Meta.{Key}
use build_operator.Builder.{BuildkitBuilder}
use build_operator.Controller.Reconcile.{reconcile}
use build_operator.Controller.Reconcile.Again.{after_requests}
use build_operator.Controller.Reconcile.Errors.{reconcile_template_missing}
use build_operator.World.{World, builder, template}
use build_operator.World.Laws.{IsReliable, IsUnchanged, found}

module _ (W : World) (R : IsReliable W) where
  -- The builder is stored and names a template that is not.
  pub record IsLost (request : Key) (b : BuildkitBuilder) (name : String) (s : W.State)
      : Type 0 where
    pub stored : R.peek builder request s ≡ some b
    pub ref : b.spec.template_ref ≡ some name
    pub gone : R.peek template (record { namespace = b.meta.namespace; name = name }) s ≡ none

  IsLost-same :
      (request : Key) (b : BuildkitBuilder) (name : String) (s t : W.State)
      → IsUnchanged W R.peek s t
      → IsLost request b name s
      → IsLost request b name t
  IsLost-same request b name s t still lost = record {
    stored = still builder request ∙ lost.stored;
    ref = lost.ref;
    gone = still template _ ∙ lost.gone;
  }

  -- One request: the error, and an event.
  reconcile-IsLost :
      (request : Key) (b : BuildkitBuilder) (name : String) (s : W.State)
      → IsLost request b name s
      → ((reconcile W request s).0 ≡ err (template_not_found name b.meta.namespace not_found))
        × IsUnchanged W R.peek s (reconcile W request s).1
  reconcile-IsLost request b name s lost =
      let key : Key = record { namespace = b.meta.namespace; name = name } in
      let run =
        reconcile_template_missing W request b name not_found s s s
          (R.get_lem builder request s ∙ ap (λ o. (found o, s)) lost.stored) lost.ref
          (R.get_lem template key s ∙ ap (λ o. (found o, s)) lost.gone) in
      (
        ap (λ r. r.0) run,
        λ k other. ap (λ r. R.peek k other r.1) run ∙ R.event_lem b _ _ _ s k other,
      )

  -- In a cluster with one writer: for a builder that is stored and names a template which is not,
  -- whether it is being deleted or not, each request ends with the error that the template is not
  -- found, however many there have been, and no object has changed since the first. So a builder
  -- that is being deleted keeps its finalizer.
  pub reconcile_stuck :
      (request : Key) (b : BuildkitBuilder) (name : String) (count : ℕ) (s : W.State)
      → IsLost request b name s
      → ((reconcile W request (after_requests W R count request s)).0
          ≡ err (template_not_found name b.meta.namespace not_found))
        × IsUnchanged W R.peek s (reconcile W request (after_requests W R count request s)).1
  unfolding after_requests
  reconcile_stuck request b name zero s lost = reconcile-IsLost request b name s lost
  reconcile_stuck request b name (suc count) s lost =
      let (_, still) = reconcile-IsLost request b name s lost in
      let t = (reconcile W request s).1 in
      let (fails, later) =
        reconcile_stuck request b name count t (IsLost-same request b name s t still lost) in
      (fails, λ k key. later k key ∙ still k key)
