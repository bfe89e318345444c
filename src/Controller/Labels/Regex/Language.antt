-- ===== src/Controller/Labels/Regex/Language.antt =====
-- The language of a regular expression, as a relation, and the derivative matcher as its decision.
use build_operator.Prelude.{
  ℕ, ◌≡◌, refl, sym, ap, ◌∙◌, ◌⊎◌, inl, inr, ◌↔◌, Bool, true, false, List, [], ◌∷◌, ◌++◌, arith,
  Bool-cases, if◌then◌else◌,
}
use build_operator.Controller.Labels.Regex.{
  Regex, nothing, epsilon, set, seq, alt, star, nullable, derivative, matches,
}

-- Any number of parts, none of them empty.
pub data Repeat (P : List ℕ → Type 0) : List ℕ → Type 0 where
  done : {u : List ℕ} → u ≡ [] → Repeat P u
  more :
      {u : List ℕ} (c : ℕ) (s t : List ℕ) → P (c ∷ s) → Repeat P t → u ≡ c ∷ (s ++ t) → Repeat P u

abbrev pub Matches : Regex → List ℕ → Type 0
Matches nothing u = ⊥
Matches epsilon u = u ≡ []
Matches (set p) u = (c : ℕ) × (p c ≡ true) × (u ≡ c ∷ [])
Matches (seq r q) u = (s : List ℕ) × (t : List ℕ) × Matches r s × Matches q t × (u ≡ s ++ t)
Matches (alt r q) u = Matches r u ⊎ Matches q u
Matches (star r) u = Repeat (Matches r) u

nullable-Matches : (r : Regex) → nullable r ≡ true → Matches r []
unfolding nullable
nullable-Matches nothing h = cc
nullable-Matches epsilon h = refl
nullable-Matches (set p) h = cc
nullable-Matches (seq r q) h =
    ([], [], nullable-Matches r (ground arith), nullable-Matches q (ground arith), refl)
nullable-Matches (alt r q) h = elim (Bool-cases (nullable r)) [
  | inl left ↦ inl (nullable-Matches r left)
  | inr right ↦ inr (nullable-Matches q (ground arith))
]
nullable-Matches (star r) h = done refl

Matches-nullable : (r : Regex) (u : List ℕ) → Matches r u → u ≡ [] → nullable r ≡ true
unfolding nullable
Matches-nullable nothing u m e = absurd m
Matches-nullable epsilon u m e = refl
Matches-nullable (set p) u (c, h, f) e = cc
Matches-nullable (seq r q) u ([], t, m, n, f) e =
    rw (Matches-nullable r [] m refl, Matches-nullable q t n (sym f ∙ e))
Matches-nullable (seq r q) u (c ∷ s, t, m, n, f) e = cc
Matches-nullable (alt r q) u (inl m) e = rw (Matches-nullable r u m e)
Matches-nullable (alt r q) u (inr m) e = let h = Matches-nullable q u m e in ground arith
Matches-nullable (star r) u m e = refl

-- The branch of an `if` that falls back on `nothing`.
Matches-if :
    (b : Bool) (r : Regex) (u : List ℕ)
    → Matches (if b then r else nothing) u ↔ ((b ≡ true) × Matches r u)
Matches-if true r u = (λ m. (refl, m), λ h. h.1)
Matches-if false r u = (λ m. absurd m, λ h. cc (h.0))

derivative-Matches :
    (r : Regex) (c : ℕ) (u : List ℕ) → Matches (derivative c r) u → Matches r (c ∷ u)
unfolding derivative
derivative-Matches nothing c u m = absurd m
derivative-Matches epsilon c u m = absurd m
derivative-Matches (set p) c u m =
    let (h, e) = (Matches-if (p c) epsilon u).0 m in (c, h, ap (λ v. c ∷ v) e)
derivative-Matches (seq r q) c u (inl (s, t, m, n, f)) =
    (c ∷ s, t, derivative-Matches r c s m, n, ap (λ v. c ∷ v) f)
derivative-Matches (seq r q) c u (inr m) =
    let (h, n) = (Matches-if (nullable r) (derivative c q) u).0 m in
    ([], c ∷ u, nullable-Matches r h, derivative-Matches q c u n, refl)
derivative-Matches (alt r q) c u (inl m) = inl (derivative-Matches r c u m)
derivative-Matches (alt r q) c u (inr m) = inr (derivative-Matches q c u m)
derivative-Matches (star r) c u (s, t, m, n, f) =
    more c s t (derivative-Matches r c s m) n (ap (λ v. c ∷ v) f)

Matches-derivative :
    (r : Regex) (c : ℕ) (v u : List ℕ) → Matches r v → v ≡ c ∷ u → Matches (derivative c r) u
unfolding derivative
Matches-derivative nothing c v u m e = absurd m
Matches-derivative epsilon c v u m e = cc
Matches-derivative (set p) c v u (d, h, f) e =
    (Matches-if (p c) epsilon u).1 (cc (f, e, h), cc (f, e))
Matches-derivative (seq r q) c v u (d ∷ s, t, m, n, f) e =
    inl (s, t, Matches-derivative r c (d ∷ s) s m (cc), n, cc)
Matches-derivative (seq r q) c v u ([], t, m, n, f) e = inr (
    (Matches-if (nullable r) (derivative c q) u).1
      (Matches-nullable r [] m refl, Matches-derivative q c t u n (sym f ∙ e)))
Matches-derivative (alt r q) c v u (inl m) e = inl (Matches-derivative r c v u m e)
Matches-derivative (alt r q) c v u (inr m) e = inr (Matches-derivative q c v u m e)
Matches-derivative (star r) c v u (done f) e = cc
Matches-derivative (star r) c v u (more d s t m n f) e =
    (s, t, Matches-derivative r c (d ∷ s) s m (cc), n, cc)

-- The matcher answers true exactly on the language of the expression.
pub matches_iff : (r : Regex) (u : List ℕ) → (matches r u ≡ true) ↔ Matches r u
unfolding matches
matches_iff r [] = (nullable-Matches r, λ m. Matches-nullable r [] m refl)
matches_iff r (c ∷ u) =
    let (sound, complete) = matches_iff (derivative c r) u in
    (
      λ h. derivative-Matches r c u (sound h),
      λ m. complete (Matches-derivative r c (c ∷ u) u m refl),
    )
