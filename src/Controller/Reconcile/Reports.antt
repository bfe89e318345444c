-- ===== src/Controller/Reconcile/Reports.antt =====
-- What the reports at the end of a reconciliation write, in a reliable cluster.
use build_operator.Prelude.{String, ◌==◌, ◌≡◌, ◌≢◌, refl, ◌∙◌, Option, some, inl, inr, Bool-cases}
use build_operator.Prelude.Int.{ℤ, pos}
use build_operator.Exec.{Result, ok, Exec, pure, ◌>>=◌}
use build_operator.Exec.Laws.{bind_ok}
use build_operator.Kube.Meta.{Key, Instant, key_of}
use build_operator.Builder.{BuildkitBuilder, BuildkitBuilderStatus}
use build_operator.Controller.Endpoint.{resolve_node_port}
use build_operator.Controller.Status.{
  Report, no_requeue, update_status, update_status_with_last_scaled,
}
use build_operator.Controller.Reconcile.{report_persistent, report_sleepy}
use build_operator.World.{World, Kind, builder, read_clock}
use build_operator.World.Laws.{IsReliable, IsUnchanged, Kept}

module _ (W : World) (R : IsReliable W) where
  -- The builder that is stored stays, with its spec.
  abbrev pub Stays : BuildkitBuilder → W.State → W.State → Type 0
  Stays b s t =
      (old : BuildkitBuilder)
      → R.peek builder (key_of b.meta) s ≡ some old
      → (new : BuildkitBuilder) × (R.peek builder (key_of b.meta) t ≡ some new) × Kept old new

  pub Stays-same :
      (b : BuildkitBuilder) (s t : W.State)
      → ((key : Key) → R.peek builder key t ≡ R.peek builder key s)
      → Stays b s t
  Stays-same b s t same old there = (old, same _ ∙ there, (refl, refl))

  pub Stays-trans :
      (b : BuildkitBuilder) (s t u : W.State) → Stays b s t → Stays b t u → Stays b s u
  Stays-trans b s t u p q old there =
      let (mid, here, (spec, stamp)) = p old there in
      let (new, now, (spec', stamp')) = q mid here in (new, now, (spec' ∙ spec, stamp' ∙ stamp))

  -- The call succeeds, and writes builders only, and of them the status.
  pub record IsReported (b : BuildkitBuilder) {A : Type 0} (s : W.State) (r : Result A × W.State)
      : Type 0 where
    pub answer : A
    pub succeeds : r.0 ≡ ok answer
    pub others : (j : Kind) (key : Key) → j ≢ builder → R.peek j key r.1 ≡ R.peek j key s
    pub stays : Stays b s r.1

  abbrev pub IsThere : BuildkitBuilder → W.State → Type 0
  IsThere b s = (old : BuildkitBuilder) × (R.peek builder (key_of b.meta) s ≡ some old)

  written :
      (b : BuildkitBuilder) (status : BuildkitBuilderStatus) (s : W.State)
      → IsThere b s
      → IsReported b s ((W.update_status (record b { status = status }) >>= λ _. pure no_requeue) s)
  unfolding pure
  written b status s (old, there) =
      let (fine, _, frame) = R.update_status_lem (record b { status = status }) old s there in
      rw (bind_ok (W.update_status (record b { status = status })) (λ _. pure no_requeue) s tt fine)
        (record {
          answer = no_requeue;
          succeeds = refl;
          others = λ j key ne. frame j key (inl ne);
          stays =
              λ old' there'. (R.update_status_lem (record b { status = status }) old' s there').1;
        })

  -- After calls that write nothing.
  later :
      (b : BuildkitBuilder) {A : Type 0} {s t : W.State} {r : Result A × W.State}
      → IsUnchanged W R.peek s t
      → IsReported b t r
      → IsReported b s r
  later b {s = s} {t = t} {r = r} still p = record {
    stays = Stays-trans b s t r.1 (Stays-same b s t (λ key. still builder key)) p.stays;
    answer = p.answer;
    succeeds = p.succeeds;
    others = λ j key ne. p.others j key ne ∙ still j key;
  }

  pub update_status-IsReported :
      (b : BuildkitBuilder) (report : Report) (s : W.State)
      → IsThere b s
      → IsReported b s (update_status W b report s)
  unfolding update_status read_clock ◌>>=◌
  update_status-IsReported b report s (old, there) =
      let s1 = (W.now s).1 in
      let s2 = (W.now s1).1 in
      let still : IsUnchanged W R.peek s s2 = λ k key. R.now_lem s1 k key ∙ R.now_lem s k key in
      later b still (written b _ s2 (old, still builder (key_of b.meta) ∙ there))

  pub report_persistent-IsReported :
      (b : BuildkitBuilder) (resolved : String × ℤ) (s : W.State)
      → IsThere b s
      → IsReported b s (report_persistent W b resolved s)
  unfolding report_persistent resolve_node_port ◌>>=◌
  report_persistent-IsReported b resolved s there = elim (Bool-cases (resolved.0 == "")) [
    | inl waiting ↦ rw waiting (record {
      answer = record { requeue_after = some (pos 5) };
      succeeds = refl;
      others = λ j key ne. refl;
      stays = Stays-same b s s (λ key. refl);
    })
    | inr ready ↦ rw (ready, R.get_lem) (update_status-IsReported b _ s there)
  ]

  update_status_with_last_scaled-IsReported :
      (b : BuildkitBuilder) (report : Report) (last : Option Instant) (s : W.State)
      → IsThere b s
      → IsReported b s (update_status_with_last_scaled W b report last s)
  unfolding update_status_with_last_scaled read_clock ◌>>=◌
  update_status_with_last_scaled-IsReported b report last s (old, there) =
      let s1 = (W.now s).1 in
      let s2 = (W.now s1).1 in
      let still : IsUnchanged W R.peek s s2 = λ k key. R.now_lem s1 k key ∙ R.now_lem s k key in
      later b still (written b _ s2 (old, still builder (key_of b.meta) ∙ there))

  requeued :
      (b : BuildkitBuilder) {A B : Type 0} (m : Exec W.State A) (result : B) (s : W.State)
      → IsReported b s (m s)
      → IsReported b s ((m >>= λ _. pure result) s)
  unfolding pure
  requeued b m result s p =
      rw (bind_ok m (λ _. pure result) s p.answer p.succeeds)
        (record { answer = result; succeeds = refl; others = p.others; stays = p.stays })

  pub report_sleepy-IsReported :
      (b : BuildkitBuilder) (n : ℤ) (resolved : String × ℤ) (s : W.State)
      → IsThere b s
      → IsReported b s (report_sleepy W b n resolved s)
  unfolding report_sleepy resolve_node_port read_clock ◌>>=◌
  report_sleepy-IsReported b n resolved s (old, there) =
      let s1 = (W.now s).1 in
      let still : IsUnchanged W R.peek s s1 = λ k key. R.now_lem s k key in
      rw R.get_lem (
        later b still (
          requeued b (update_status_with_last_scaled W b _ _) _ s1 (
            update_status_with_last_scaled-IsReported b _ _ s1
              (old, still builder (key_of b.meta) ∙ there))))
