-- ===== src/Copies/Pointers.antt =====
-- Copies of what a pointer, a slice or a map refers to, and of a structure from those of its fields.
use build_operator.Prelude.{
  ℕ, ◌≤◌, ◌<◌, ◌≡◌, ◌∙◌, refl, ap, leb, ◌⊎◌, inl, inr, true, false, Option, none, some, arith,
}
use build_operator.Copies.{
  Types, Pointer, Sort, CellOf, Heap, Copier, select, write, alloc, text, number, words, dict, pvc,
  s3, tolerations, affinity, template_spec, exposure, conditions, time, spec, status, cache,
  builder, builders, template, templates, list, foreign,
}
use build_operator.Copies.Laws.{
  Agree, Extends, Extends-trans, Extends-refl, IsCopy, IsLocal, IsDeep, later,
}

module _ (T : Types) where
  select_same : (k : Sort) (v old : CellOf T k) → select T k k v old ≡ v
  unfolding select
  select_same text v old = refl
  select_same number v old = refl
  select_same words v old = refl
  select_same dict v old = refl
  select_same pvc v old = refl
  select_same s3 v old = refl
  select_same tolerations v old = refl
  select_same affinity v old = refl
  select_same template_spec v old = refl
  select_same exposure v old = refl
  select_same conditions v old = refl
  select_same time v old = refl
  select_same spec v old = refl
  select_same status v old = refl
  select_same cache v old = refl
  select_same builder v old = refl
  select_same builders v old = refl
  select_same template v old = refl
  select_same templates v old = refl
  select_same list v old = refl
  select_same foreign v old = refl

  pub write_here : (k : Sort) (p : ℕ) (v : CellOf T k) (h : Heap T) → (write T k p v h).at k p ≡ v
  unfolding write
  write_here k p v h =
      let self : leb p p ≡ true = ground arith in rw self (select_same k v (h.at k p))

  -- A write changes no other address.
  pub write-Agree :
      (k : Sort) (p : ℕ) (v : CellOf T k) (h : Heap T) (j : Sort) (a : ℕ)
      → (a < p) ⊎ (p < a)
      → (write T k p v h).at j a ≡ h.at j a
  unfolding write
  write-Agree k p v h j a (inl below) =
      let off : leb p a ≡ false = ground arith in
      let on : leb a p ≡ true = ground arith in rw (on, off) refl
  write-Agree k p v h j a (inr above) = let off : leb a p ≡ false = ground arith in rw off refl

  alloc-Extends : (k : Sort) (v : CellOf T k) (h : Heap T) → Extends T h (alloc T k v h).1
  unfolding alloc
  alloc-Extends k v h = record {
    longer = omega arith;
    kept = λ j a lo hi. write-Agree k h.next v h j a (inl hi);
  }

  copy_pointer :
      {V : Type 0} (k : Sort) → Copier T (CellOf T k) V → Pointer → Heap T → Pointer × Heap T
  copy_pointer k C none h = (none, h)
  copy_pointer k C (some p) h = let (v, g) = C.copy (h.at k p) h in alloc T k v g

  view_pointer : {V : Type 0} (k : Sort) → Copier T (CellOf T k) V → Pointer → Heap T → Option V
  view_pointer k C none h = none
  view_pointer k C (some p) h = some (C.view (h.at k p) h)

  PointerWithin :
      {V : Type 0} (k : Sort) → Copier T (CellOf T k) V → Pointer → Heap T → ℕ → ℕ → Type 0
  PointerWithin k C none h lo hi = Unit
  PointerWithin k C (some p) h lo hi = (lo ≤ p) × (p < hi) × C.Within (h.at k p) h lo hi

  -- `if in.F != nil { in, out := &in.F, &out.F; *out = new(…); … }`, and `DeepCopy` itself.
  unfoldable pub pointer :
      {V : Type 0} (k : Sort) → Copier T (CellOf T k) V → Copier T Pointer (Option V)
  unfolding copy_pointer view_pointer PointerWithin
  pointer k C = record {
    view = view_pointer k C;
    Within = PointerWithin k C;
    copy = copy_pointer k C;
  }

  pointer_stable :
      {V : Type 0} (k : Sort) (C : Copier T (CellOf T k) V) (c : IsLocal T C) (q : Pointer)
      (h g : Heap T) (lo hi : ℕ)
      → Agree T h g lo hi
      → PointerWithin k C q h lo hi
      → (view_pointer k C q g ≡ view_pointer k C q h) × PointerWithin k C q g lo hi
  unfolding view_pointer PointerWithin
  pointer_stable k C c none h g lo hi e w = (refl, tt)
  pointer_stable k C c (some p) h g lo hi e (low, high, w) =
      let (same, u) = c.stable (h.at k p) h g lo hi e w in
      rw (e k p low high) (ap (λ v. some v) same, (low, high, u))

  pointer_widen :
      {V : Type 0} (k : Sort) (C : Copier T (CellOf T k) V) (c : IsLocal T C) (q : Pointer)
      (h : Heap T) (lo hi below above : ℕ)
      → below ≤ lo
      → hi ≤ above
      → PointerWithin k C q h lo hi
      → PointerWithin k C q h below above
  unfolding PointerWithin
  pointer_widen k C c none h lo hi below above x y w = tt
  pointer_widen k C c (some p) h lo hi below above x y (low, high, w) =
      (omega arith, omega arith, c.widen (h.at k p) h lo hi below above x y w)

  pointer-IsCopy :
      {V : Type 0} (k : Sort) (C : Copier T (CellOf T k) V) (c : IsDeep T C) (q : Pointer)
      (h : Heap T)
      → (pointer k C).Within q h 0 h.next
      → IsCopy T (pointer k C) q h ((pointer k C).copy q h)
  unfolding pointer alloc
  pointer-IsCopy k C c none h w = record { extends = Extends-refl T h; fresh = tt; same = refl }
  pointer-IsCopy k C c (some p) h (low, high, w) =
      let inner = c.deep (h.at k p) h w in
      let v = (C.copy (h.at k p) h).0 in
      let g = (C.copy (h.at k p) h).1 in
      let f = (alloc T k v g).1 in
      let more = alloc-Extends k v g in
      let (same, u) = later T C c.local v g f h.next more inner.fresh in
      let long = inner.extends.longer in
      record {
        extends = Extends-trans T h g f inner.extends more;
        fresh = (long, omega arith, rw (write_here k g.next v g) u);
        same = rw (write_here k g.next v g) (ap (λ x. some x) (same ∙ inner.same));
      }

  pub pointer-IsDeep :
      {V : Type 0} (k : Sort) (C : Copier T (CellOf T k) V) → IsDeep T C → IsDeep T (pointer k C)
  unfolding pointer
  pointer-IsDeep k C c = record {
    local = record { stable = pointer_stable k C c.local; widen = pointer_widen k C c.local };
    deep = pointer-IsCopy k C c;
  }
