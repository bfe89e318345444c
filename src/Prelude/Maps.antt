-- ===== src/Prelude/Maps.antt =====
-- Go's `map[string]V` as an association list, with the writes and reads that the source makes.
-- Go visits the keys of a map in any order: `IsMap` says that a list names no key twice, and the
-- laws below speak of look-ups alone.
use Prim.Native.String.{String}
use mathlib.Core.Path.{◌≡◌, refl}
use mathlib.Core.Option.{Option, none, some}
use mathlib.Core.List.{List, [], ◌∷◌}
use native.Mathlib.Omega.{arith}
use text.Mathlib.Text.{◌==◌}
use text.Mathlib.TextEquality.{eq_iff}
use build_operator.Prelude.Tests.{if◌then◌else◌}

abbrev pub Dict {ℓ} : Type ℓ → Type ℓ
Dict V = List (String × V)

module _ {ℓ} {V : Type ℓ} where
  -- `m[k]`, with the comma-ok form's answer.
  unfoldable pub lookup : String → Dict V → Option V
  lookup key [] = none
  lookup key (entry ∷ rest) = if entry.0 == key then some entry.1 else lookup key rest

  -- `m[k] = v`
  unfoldable pub insert : String → V → Dict V → Dict V
  insert key value [] = (key, value) ∷ []
  insert key value (entry ∷ rest) =
      let written = entry ∷ insert key value rest in
      if entry.0 == key then (key, value) ∷ rest else written

  -- `for k, v := range over { m[k] = v }`
  unfoldable pub insert_all : Dict V → Dict V → Dict V
  unfolding insert
  insert_all [] m = m
  insert_all ((k, v) ∷ over) m = insert_all over (insert k v m)

  abbrev pub IsMap : Dict V → Type ℓ
  IsMap [] = Unit
  IsMap ((k, v) ∷ m) = (lookup k m ≡ none) × IsMap m

  -- The value of `over`, and where it has none that of `m`.
  abbrev pub override : Option V → Option V → Option V
  override none old = old
  override (some v) old = some v

  -- A read after one write.
  pub lookup-insert :
      (key j : String) (value : V) (m : Dict V)
      → lookup j (insert key value m) ≡ (if key == j then some value else lookup j m)
  unfolding insert lookup
  lookup-insert key j value List.[] = refl
  lookup-insert key j value (entry ∷ rest) =
      let later = lookup-insert key j value rest in
      ground (arith, later, eq_iff entry.0 j, eq_iff entry.0 key, eq_iff key j)

  -- A write of every entry of a map makes its values hold, and leaves the other keys alone.
  pub lookup-insert_all :
      (j : String) (over m : Dict V)
      → IsMap over
      → lookup j (insert_all over m) ≡ override (lookup j over) (lookup j m)
  unfolding insert_all lookup
  lookup-insert_all j [] m h = refl
  lookup-insert_all j ((k, v) ∷ over) m h =
      ground
        (arith, lookup-insert_all j over (insert k v m) h.1, lookup-insert k j v m, eq_iff k j, h.0)

-- Go's `m[k]` on a map of texts, `""` where the key is missing.
abbrev pub index : Dict String → String → String
index m k = elim (lookup k m) [ none ↦ "" | some v ↦ v ]
