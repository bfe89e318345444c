-- ===== src/Controller/Labels/Regex.antt =====
-- Regular expressions as `regexp.MatchString` reads them between `^` and `$`, by derivatives.
pub mod Language
use build_operator.Prelude.{ℕ, Bool, true, false, ◌&&◌, ◌||◌, List, [], ◌∷◌, if◌then◌else◌}

pub data Regex : Type 0 where
  nothing epsilon : Regex
  set : (ℕ → Bool) → Regex
  seq alt : Regex → Regex → Regex
  star : Regex → Regex

-- `r?`
abbrev pub optional : Regex → Regex
optional r = alt r epsilon

unfoldable pub nullable : Regex → Bool
nullable nothing = false
nullable epsilon = true
nullable (set p) = false
nullable (seq r q) = nullable r && nullable q
nullable (alt r q) = nullable r || nullable q
nullable (star r) = true

-- What may follow the character `c`.
unfoldable pub derivative : ℕ → Regex → Regex
unfolding nullable
derivative c nothing = nothing
derivative c epsilon = nothing
derivative c (set p) = if p c then epsilon else nothing
derivative c (seq r q) =
    alt (seq (derivative c r) q) (if nullable r then derivative c q else nothing)
derivative c (alt r q) = alt (derivative c r) (derivative c q)
derivative c (star r) = seq (derivative c r) (star r)

unfoldable pub matches : Regex → List ℕ → Bool
unfolding derivative nullable
matches r [] = nullable r
matches r (c ∷ s) = matches (derivative c r) s
