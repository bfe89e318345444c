-- ===== src/Exec.antt =====
-- Go's `(T, error)` as a value, and the actions of the controller: state passing over the outside
-- world. What was written before an error stays written, so the state comes back beside the error.
pub mod Laws
use build_operator.Prelude.{Option, none, some}
use build_operator.Error.{Error}

pub data Result {ℓ} (A : Type ℓ) : Type ℓ where
  ok : A → Result A
  err : Error → Result A

abbrev pub Exec {ℓ} : Type ℓ → Type ℓ → Type ℓ
Exec S A = S → Result A × S

-- `if err != nil { return err }` between two calls that do not touch the world.
unfoldable pub and_then {ℓ κ} : {A : Type ℓ} {B : Type κ} → Result A → (A → Result B) → Result B
and_then (ok a) f = f a
and_then (err e) f = err e

-- A returned `error`, `nil` as `none`.
abbrev pub of_error : Option Error → Result (Unit {0})
of_error none = ok tt
of_error (some e) = err e

module _ {ℓ} {State A : Type ℓ} where
  -- A call that does not touch the world.
  unfoldable pub lift : Result A → Exec State A
  lift result s = (result, s)

  -- `return …, nil` and `return …, err`
  unfoldable pub pure : A → Exec State A
  pure a s = (ok a, s)

  unfoldable pub raise : Error → Exec State A
  raise e s = (err e, s)

  -- `x, err := f()`, where the code then looks at `err` itself.
  unfoldable pub attempt : Exec State A → Exec State (Result A)
  attempt f s = (ok (f s).0, (f s).1)

module _ {ℓ} {State A B : Type ℓ} where
  -- The early return, or the rest of the body from the state that the call left.
  abbrev pub unless_err : (A → Exec State B) → Result A × State → Result B × State
  unless_err rest (ok a, s) = rest a s
  unless_err rest (err e, s) = (err e, s)

  infixl 10 ◌>>=◌ ◌>>◌
  -- `if err != nil { return …, err }` after each call. Opening it opens the actions above too.
  unfoldable pub ◌>>=◌ : Exec State A → (A → Exec State B) → Exec State B
  unfolding attempt lift pure raise
  ◌>>=◌ call rest s = unless_err rest (call s)

  -- The same where the call returns nothing but the error.
  abbrev pub ◌>>◌ : Exec State A → Exec State B → Exec State B
  call >> rest = call >>= λ unused. rest
