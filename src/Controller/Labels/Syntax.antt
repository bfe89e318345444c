-- ===== src/Controller/Labels/Syntax.antt =====
-- What the expression of label values accepts, in the words of its comment.
use build_operator.Prelude.{ℕ, String, ◌≡◌, refl, ap, inl, inr, ◌↔◌, true, List, [], ◌∷◌, ◌++◌}
use build_operator.Controller.Labels.Regex.{set}
use build_operator.Controller.Labels.Regex.Language.{Matches, Repeat, done, more, matches_iff}
use build_operator.Controller.Labels.Values.{
  codes, is_alphanumeric, is_inner, valid_label_value_regex, valid_label_value,
}

abbrev last : ℕ → List ℕ → ℕ
last c [] = c
last c (d ∷ u) = last d u

abbrev AllInner : List ℕ → Type 0
AllInner [] = Unit
AllInner (c ∷ u) = (is_inner c ≡ true) × AllInner u

-- Empty, or alphanumeric at both ends with letters, digits, '-', '_' and '.' between them.
abbrev pub IsLabelValue : List ℕ → Type 0
IsLabelValue [] = Unit
IsLabelValue (c ∷ u) =
    (is_alphanumeric c ≡ true) × (is_alphanumeric (last c u) ≡ true) × AllInner (c ∷ u)

inner_of_alphanumeric : (c : ℕ) → is_alphanumeric c ≡ true → is_inner c ≡ true
unfolding is_inner
inner_of_alphanumeric c h = rw h

last-append : (c d : ℕ) (s : List ℕ) → last c (s ++ (d ∷ [])) ≡ d
last-append c d [] = refl
last-append c d (x ∷ s) = last-append x d s

AllInner-append : (s : List ℕ) (d : ℕ) → AllInner s → is_inner d ≡ true → AllInner (s ++ (d ∷ []))
AllInner-append [] d h k = (k, tt)
AllInner-append (c ∷ s) d (i, h) k = (i, AllInner-append s d h k)

Repeat-AllInner : (u : List ℕ) → Repeat (Matches (set is_inner)) u → AllInner u
Repeat-AllInner u (done e) = rw e tt
Repeat-AllInner u (more c s t (d, h, f) r e) =
    let shape : u ≡ d ∷ t = cc in rw shape (h, Repeat-AllInner t r)

AllInner-Repeat : (u : List ℕ) → AllInner u → Repeat (Matches (set is_inner)) u
AllInner-Repeat [] h = done refl
AllInner-Repeat (c ∷ u) (i, h) = more c [] u (c, i, refl) (AllInner-Repeat u h) refl

-- The last character taken off.
split_last :
    (c : ℕ) (u : List ℕ)
    → AllInner (c ∷ u)
    → (s : List ℕ) × AllInner s × (c ∷ u ≡ s ++ (last c u ∷ []))
split_last c [] h = ([], tt, refl)
split_last c (d ∷ u) (i, h) = let (s, k, e) = split_last d u h in (c ∷ s, (i, k), ap (λ v. c ∷ v) e)

sound : (u : List ℕ) → Matches valid_label_value_regex u → IsLabelValue u
unfolding valid_label_value_regex
sound u (inr e) = rw e tt
sound u (inl (s, t, inr e, (d, h, f), g)) =
    let shape : u ≡ d ∷ [] = cc in rw shape (h, h, (inner_of_alphanumeric d h, tt))
sound u (inl (s, t, inl (s1, s2, (c, k, e), r, e2), (d, h, f), g)) =
    let shape : u ≡ c ∷ (s2 ++ (d ∷ [])) = cc in
    rw shape (
      k,
      rw (last-append c d s2) h,
      (
        inner_of_alphanumeric c k,
        AllInner-append s2 d (Repeat-AllInner s2 r) (inner_of_alphanumeric d h),
      ),
    )

complete : (u : List ℕ) → IsLabelValue u → Matches valid_label_value_regex u
unfolding valid_label_value_regex
complete [] h = inr refl
complete (c ∷ []) h = inl ([], c ∷ [], inr refl, (c, h.0, refl), refl)
complete (c ∷ d ∷ u) h =
    let (s, k, e) = split_last d u h.2.1 in
    inl (
      c ∷ s,
      last d u ∷ [],
      inl (c ∷ [], s, (c, h.0, refl), AllInner-Repeat s k, refl),
      (last d u, h.1, refl),
      ap (λ v. c ∷ v) e,
    )

-- A label value passes the filter exactly if it is empty, or begins and ends with a letter or
-- digit and has only letters, digits, '-', '_' and '.' in it.
pub valid_label_value_iff : (v : String) → (valid_label_value v ≡ true) ↔ IsLabelValue (codes v)
unfolding valid_label_value
valid_label_value_iff v =
    let (to, from) = matches_iff valid_label_value_regex (codes v) in
    (λ h. sound (codes v) (to h), λ h. from (complete (codes v) h))
