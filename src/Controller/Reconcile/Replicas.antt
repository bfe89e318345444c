-- ===== src/Controller/Reconcile/Replicas.antt =====
-- The choice of the replicas of a sleepy builder, in a reliable cluster.
use build_operator.Prelude.{String, ◌==◌, ◌≡◌, refl, Option, none, some, inl, inr, ◌⊎◌, Bool-cases}
use build_operator.Prelude.Int.{ℤ, pos}
use build_operator.Controller.Sleep.{desired_replicas, replicas_since, replicas_at}
use build_operator.Controller.Sleep.Deadline.{binary_at}
use build_operator.Exec.{Result, ok, pure, ◌>>=◌}
use build_operator.Kube.Meta.{Instant}
use build_operator.World.{World, read_clock}
use build_operator.World.Laws.{IsReliable, IsUnchanged}

module _ (W : World) (R : IsReliable W) where
  -- The replicas of a sleepy builder in a state: none or one, and nothing is written.
  pub record IsChosen (s : W.State) (r : Result ℤ × W.State) : Type 0 where
    pub replicas : ℤ
    pub after : W.State
    pub chosen : r ≡ (ok replicas, after)
    pub still : IsUnchanged W R.peek s after
    pub binary : (replicas ≡ pos 0) ⊎ (replicas ≡ pos 1)

  since-IsChosen :
      (timeout : ℤ) (read : Option Instant) (s : W.State)
      → IsChosen s (replicas_since W timeout read s)
  unfolding replicas_since read_clock ◌>>=◌
  since-IsChosen timeout none s = record {
    replicas = pos 0;
    after = s;
    chosen = refl;
    still = λ k key. refl;
    binary = inl refl;
  }
  since-IsChosen timeout (some last_used) s = record {
    replicas = replicas_at timeout last_used (W.now s).0;
    after = (W.now s).1;
    chosen = refl;
    still = λ k key. R.now_lem s k key;
    binary = binary_at timeout last_used (W.now s).0;
  }

  pub desired_replicas-IsChosen :
      (last_used : String) (timeout : ℤ) (s : W.State)
      → IsChosen s (desired_replicas W last_used timeout s)
  unfolding desired_replicas pure
  desired_replicas-IsChosen last_used timeout s = elim (Bool-cases (last_used == "")) [
    | inl blank ↦ rw blank (record {
      replicas = pos 1;
      after = s;
      chosen = refl;
      still = λ k key. refl;
      binary = inr refl;
    })
    | inr given ↦ rw given (since-IsChosen timeout (W.parse_time last_used) s)
  ]
