-- ===== src/Prelude/Text.antt =====
-- Go's `strings.Contains`, and its laws over concatenations.
use Prim.Native.String.{String, ◌++◌}
use mathlib.Core.Path.{◌≡◌, sym, ◌∙◌, ap}
use mathlib.Core.Logic.{inl, inr}
use mathlib.Core.Bool.{Bool, true, ◌||◌}
use native.Mathlib.Omega.{arith}
use text.Mathlib.Text.{starts_with}
use text.Mathlib.TextEquality.{starts_with_iff}
use text.Mathlib.TextPositions.{starts_with_of_prefix}
use text.Mathlib.TextLemmas.{nil-append, cons-append, append-nil, append_assoc}
use build_operator.Prelude.Tests.{Bool-cases}

infixr 65 ◌<>◌
abbrev pub ◌<>◌ : String → String → String
s <> t = s ++ t

-- Some suffix of the text begins with `t`.
unfoldable pub contains : String → String → Bool
contains String.[] t = starts_with "" t
contains (String.◌∷◌ c s) t = starts_with (String.◌∷◌ c s) t || contains s t

pub contains-append_left : (s u t : String) → contains u t ≡ true → contains (s <> u) t ≡ true
unfolding contains
contains-append_left String.[] u t h = rw (nil-append u) h
contains-append_left (String.◌∷◌ c s) u t h =
    rw (cons-append c s u) (ground (arith, contains-append_left s u t h))

starts_with-grow : (s u t : String) → starts_with s t ≡ true → starts_with (s <> u) t ≡ true
starts_with-grow s u t h =
    let (r, e) = (starts_with_iff s t).0 h in
    starts_with_of_prefix t (s <> u) (r <> u, sym (append_assoc t r u) ∙ ap (λ x. x ++ u) e)

starts_with-contains : (s t : String) → starts_with s t ≡ true → contains s t ≡ true
unfolding contains
starts_with-contains String.[] t h = h
starts_with-contains (String.◌∷◌ c s) t h = ground arith

pub contains-append_right : (s u t : String) → contains s t ≡ true → contains (s <> u) t ≡ true
unfolding contains
contains-append_right String.[] u t h =
    starts_with-contains (String.[] <> u) t (starts_with-grow String.[] u t h)
contains-append_right (String.◌∷◌ c s) u t h = elim (Bool-cases (starts_with (String.◌∷◌ c s) t)) [
  | inl here ↦
      starts_with-contains (String.◌∷◌ c s <> u) t (starts_with-grow (String.◌∷◌ c s) u t here)
  | inr later ↦ rw (cons-append c s u) (ground (arith, contains-append_right s u t (ground arith)))
]

-- A text occurs in itself.
pub contains_self : (t : String) → contains t t ≡ true
contains_self t = starts_with-contains t t (starts_with_of_prefix t t (String.[], append-nil t))
