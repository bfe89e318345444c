-- ===== src/Controller/Reconcile/Lifecycle.antt =====
-- A reconciliation of a sleepy builder as a step of its life.
use build_operator.Prelude.{◌≡◌, ◌≢◌, ◌∙◌, refl, ap, sym, some, ◌==◌, false, eq_iff, arith}
use build_operator.Prelude.Int.{ℤ, pos}
use build_operator.Exec.{Result, ok, err, pure, ◌>>=◌}
use build_operator.Kube.Meta.{Instant, annotation}
use build_operator.Template.{BuildkitBuilderTemplateSpec}
use build_operator.Builder.{BuildkitBuilder}
use build_operator.Controller.Metadata.{annotation_last_used}
use build_operator.Controller.Exposure.Attained.{IsAttainable}
use build_operator.Controller.Sleep.{idle_timeout_of, desired_replicas, replicas_since, replicas_at}
use build_operator.Controller.Sleep.Cycle.{Moment, Step, reconciled, reconciled_at}
use build_operator.Controller.Status.{ReconcileResult}
use build_operator.Controller.Reconcile.{ensure_surroundings, reconcile_sleepy}
use build_operator.Controller.Reconcile.Errors.{reconcile_sleepy_requeues}
use build_operator.Controller.Reconcile.Reports.{IsThere}
use build_operator.Controller.Reconcile.Surroundings.{IsSized}
use build_operator.Controller.Reconcile.Outcome.{IsConverged, reconcile_sleepy-IsConverged}
use build_operator.Controller.Reconcile.Workload.{IsUpdatable}
use build_operator.World.{World, read_clock}
use build_operator.World.Laws.{IsReliable, IsOwning}

abbrev answer_of : Result ℤ → ℤ
answer_of (ok n) = n
answer_of (err e) = pos 0

module _ (W : World) (R : IsReliable W) where
  -- An annotation that parses decides by the clock.
  desired_replicas-since :
      (b : BuildkitBuilder) (u : Instant) (s : W.State)
      → annotation b.meta.annotations annotation_last_used ≢ ""
      → W.parse_time (annotation b.meta.annotations annotation_last_used) ≡ some u
      → (desired_replicas W
          (annotation b.meta.annotations annotation_last_used)
          (idle_timeout_of b)
          s).0
        ≡ ok (replicas_at (idle_timeout_of b) u (W.now s).0)
  unfolding desired_replicas replicas_since read_clock pure ◌>>=◌
  desired_replicas-since b u s given parsed =
      let last = annotation b.meta.annotations annotation_last_used in
      let off : (last == "") ≡ false = ground (arith, eq_iff last "") in rw (off, parsed) refl

  -- The step that a reconciliation takes, and that the cluster follows it.
  pub record IsStep (b : BuildkitBuilder) (spec : BuildkitBuilderTemplateSpec) (m : Moment)
      (s : W.State) (r : Result ReconcileResult × W.State) : Type 0 where
    pub after : Moment
    pub step : Step (idle_timeout_of b) m after
    pub reconciled_now : after.seen ≡ m.now
    pub converged : IsConverged W R b spec after.replicas s r
    pub again : converged.result ≡ record { requeue_after = some (pos 30) }

  -- In a cluster with one writer, whose API server finds no object invalid, where the builder is
  -- accepted as owner of the objects of its namespace without one, for a sleepy builder that is
  -- stored, asks for a claim of a readable size if any, has no stateful set or one with its selector
  -- and service name, which may not change, and is not exposed, or is one that the webhook admits,
  -- with a host in ASCII if it has an exposure, where the certificate libraries behave as documented
  -- and the namespace's authority is absent or parses with the key of its certificate: where its
  -- annotation holds the instant of a moment's last use, and the clock after the set-up is the
  -- moment's, the reconciliation takes the moment's reconciliation step. The stateful set has the
  -- replicas of the moment after it, and the next request is due in 30 seconds.
  pub reconcile_sleepy-IsStep :
      (b : BuildkitBuilder) (spec : BuildkitBuilderTemplateSpec) (m : Moment) (s : W.State)
      → IsOwning W b.meta
      → IsSized W R spec.cache_config
      → IsAttainable W R b s
      → IsUpdatable W R b s
      → IsThere W R b s
      → annotation b.meta.annotations annotation_last_used ≢ ""
      → W.parse_time (annotation b.meta.annotations annotation_last_used) ≡ some m.last_used
      → (W.now (ensure_surroundings W b spec s).1).0 ≡ m.now
      → IsStep b spec m s (reconcile_sleepy W b spec s)
  reconcile_sleepy-IsStep b spec m s O sized ready updatable there given parsed clock =
      let (n, choice, binary, c) =
        reconcile_sleepy-IsConverged W R b spec s O sized ready updatable there in
      let s1 = (ensure_surroundings W b spec s).1 in
      let same : n ≡ replicas_at (idle_timeout_of b) m.last_used m.now =
        ap answer_of (sym choice ∙ desired_replicas-since b m.last_used s1 given parsed)
        ∙ ap (λ now. replicas_at (idle_timeout_of b) m.last_used now) clock in
      let d : IsConverged W R b spec (replicas_at (idle_timeout_of b) m.last_used m.now) s
          (reconcile_sleepy W b spec s) =
        rw⁻¹ same c in
      record {
        after = reconciled_at (idle_timeout_of b) m;
        step = reconciled;
        reconciled_now = refl;
        converged = d;
        again = reconcile_sleepy_requeues W b spec s {r = d.result} d.succeeds;
      }
