-- ===== src/Exec/Laws.antt =====
-- How sequences of actions run.
use build_operator.Prelude.{◌≡◌, arith}
use build_operator.Error.{Error}
use build_operator.Exec.{ok, err, Exec, ◌>>=◌}

module _ {ℓ} {S A B : Type ℓ} where
  -- After an action that succeeds, the rest runs from the state that it left.
  pub bind_ok :
      (m : Exec S A) (f : A → Exec S B) (s : S) (a : A) → (m s).0 ≡ ok a → (m >>= f) s ≡ f a (m s).1
  unfolding ◌>>=◌
  bind_ok m f s a h = rw h

  -- After an action that fails, nothing runs.
  pub bind_err :
      (m : Exec S A) (f : A → Exec S B) (s : S) (e : Error)
      → (m s).0 ≡ err e
      → (m >>= f) s ≡ (err e, (m s).1)
  unfolding ◌>>=◌
  bind_err m f s e h = rw h

  -- A sequence succeeds only if its first action does.
  pub bind-eq-ok :
      (m : Exec S A) (f : A → Exec S B) (s : S) {b : B}
      → ((m >>= f) s).0 ≡ ok b
      → (a : A) × ((m s).0 ≡ ok a) × ((f a (m s).1).0 ≡ ok b)
  unfolding ◌>>=◌
  bind-eq-ok m f s h = ground arith

  -- The same, where the result and the state are known together.
  pub bind_to :
      (m : Exec S A) (f : A → Exec S B) (s : S) (a : A) (t : S)
      → m s ≡ (ok a, t)
      → (m >>= f) s ≡ f a t
  unfolding ◌>>=◌
  bind_to m f s a t h = rw h
