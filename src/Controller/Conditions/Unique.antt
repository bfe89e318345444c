-- ===== src/Controller/Conditions/Unique.antt =====
-- The list of conditions as a map from types to conditions.
use build_operator.Prelude.{
  ◌+◌, ◌≤◌, String, ◌==◌, eq_iff, ◌≡◌, refl, Bool, Option, none, some, List, [], ◌∷◌, length, arith,
  inl, inr, Bool-cases, if◌then◌else◌,
}
use build_operator.Kube.Meta.{Condition, Instant}
use build_operator.Builder.{BuildkitBuilderStatus}
use build_operator.Controller.Conditions.{put_condition, set_condition}

-- The first condition of a type.
unfoldable pub find_condition : String → List Condition → Option Condition
find_condition type [] = none
find_condition type (c ∷ cs) = if c.type == type then some c else find_condition type cs

-- No type occurs twice.
abbrev pub AreUnique : List Condition → Type 0
AreUnique [] = Unit
AreUnique (c ∷ cs) = (find_condition c.type cs ≡ none) × AreUnique cs

find-put :
    (new : Condition) (type : String) (cs : List Condition)
    → find_condition type (put_condition new cs)
      ≡ (if new.type == type then some new else find_condition type cs)
unfolding find_condition put_condition
find-put new type [] = ground arith
find-put new type (c ∷ cs) =
    ground (
      arith,
      find-put new type cs,
      eq_iff c.type new.type,
      eq_iff c.type type,
      eq_iff new.type type,
    )

put-AreUnique :
    (new : Condition) (cs : List Condition) → AreUnique cs → AreUnique (put_condition new cs)
unfolding put_condition find_condition
put-AreUnique new [] h = (refl, tt)
put-AreUnique new (c ∷ cs) h = elim (Bool-cases (c.type == new.type)) [
  | inl same ↦ rw same h
  | inr other ↦ rw other (
    rw find-put (ground (arith, eq_iff c.type new.type, eq_iff new.type c.type, h.0)),
    put-AreUnique new cs h.1,
  )
]

length-put : (new : Condition) (cs : List Condition) → length (put_condition new cs) ≤ length cs + 1
unfolding put_condition
length-put new [] = omega arith
length-put new (c ∷ cs) = ground (arith, length-put new cs)

module _ (now : Instant) (type : String) (value : Bool) (reason message : String)
    (status : BuildkitBuilderStatus) where
  -- After `setCondition` the first condition of its type is the one that was set, with the instant
  -- of the call and "Unknown" for an empty reason, and the first condition of each other type is
  -- what it was.
  pub find-set_condition :
      (other : String)
      → find_condition other (set_condition now type value reason message status).conditions ≡ (
          if type == other
          then some (record {
            type = type;
            status = if value then "True" else "False";
            reason = if reason == "" then "Unknown" else reason;
            message = message;
            last_transition_time = now;
          })
          else find_condition other status.conditions)
  unfolding set_condition
  find-set_condition other = find-put _ other status.conditions

  -- From conditions of which no two have one type, `setCondition` makes such conditions again, and
  -- adds one at most.
  pub set_condition-AreUnique :
      AreUnique status.conditions
      → AreUnique (set_condition now type value reason message status).conditions
        × (length (set_condition now type value reason message status).conditions
            ≤ length status.conditions + 1)
  unfolding set_condition
  set_condition-AreUnique h = (put-AreUnique _ status.conditions h, length-put _ status.conditions)
