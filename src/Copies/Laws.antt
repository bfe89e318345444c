-- ===== src/Copies/Laws.antt =====
-- When a copy shares nothing with what it was made of, and how such copies are put together.
use build_operator.Prelude.{ℕ, ◌≤◌, ◌<◌, ◌≡◌, ◌∙◌, refl, ap, List, [], ◌∷◌, arith}
use build_operator.Copies.{Types, Sort, Heap, Copier}

module _ (T : Types) where
  -- Two heaps have the same cells from one address on, up to another.
  abbrev pub Agree : Heap T → Heap T → ℕ → ℕ → Type 0
  Agree h g lo hi = (k : Sort) (a : ℕ) → lo ≤ a → a < hi → g.at k a ≡ h.at k a

  -- Nothing that was there has changed.
  pub record Extends (h g : Heap T) : Type 0 where
    pub longer : h.next ≤ g.next
    pub kept : Agree h g 0 h.next

  module _ {A V : Type 0} (C : Copier T A V) where
    -- The copy reads as the original does, all of its addresses are new, and nothing that was there
    -- has changed.
    pub record IsCopy (a : A) (h : Heap T) (r : A × Heap T) : Type 0 where
      pub extends : Extends h r.1
      pub fresh : C.Within r.0 r.1 h.next r.1.next
      pub same : C.view r.0 r.1 ≡ C.view a h

    -- What a value reads, and where its addresses lie, depends on its own cells only.
    pub record IsLocal : Type 0 where
      pub stable :
          (a : A) (h g : Heap T) (lo hi : ℕ)
          → Agree h g lo hi
          → C.Within a h lo hi
          → (C.view a g ≡ C.view a h) × C.Within a g lo hi
      pub widen :
          (a : A) (h : Heap T) (lo hi below above : ℕ)
          → below ≤ lo
          → hi ≤ above
          → C.Within a h lo hi
          → C.Within a h below above

    pub record IsDeep : Type 0 where
      pub local : IsLocal
      pub deep : (a : A) (h : Heap T) → C.Within a h 0 h.next → IsCopy a h (C.copy a h)

  pub Extends-trans : (f g h : Heap T) → Extends f g → Extends g h → Extends f h
  Extends-trans f g h p q =
      let x = p.longer in
      let y = q.longer in
      record {
        longer = omega arith;
        kept = λ k a lo hi. q.kept k a lo (omega arith) ∙ p.kept k a lo hi;
      }

  pub Extends-refl : (h : Heap T) → Extends h h
  Extends-refl h = record { longer = omega arith; kept = λ k a lo hi. refl }

  -- Later additions to the heap leave a copy as it is.
  pub later :
      {A V : Type 0} (C : Copier T A V) (c : IsLocal C) (a : A) (g h : Heap T) (lo : ℕ)
      → Extends g h
      → C.Within a g lo g.next
      → (C.view a h ≡ C.view a g) × C.Within a h lo h.next
  later C c a g h lo e w =
      let x = e.longer in
      let (same, within) =
        c.stable a g h lo g.next (λ k p low high. e.kept k p (omega arith) high) w in
      (same, c.widen a h lo g.next lo h.next (omega arith) x within)

  -- A value without addresses.
  unfoldable pub plain : (A : Type 0) → Copier T A A
  plain A = record { view = λ a h. a; Within = λ a h lo hi. Unit; copy = λ a h. (a, h) }

  pub plain-IsDeep : (A : Type 0) → IsDeep (plain A)
  unfolding plain
  plain-IsDeep A = record {
    local = record {
      stable = λ a h g lo hi e w. (refl, w);
      widen = λ a h lo hi below above x y w. w;
    };
    deep = λ a h w. record { extends = Extends-refl h; fresh = tt; same = refl };
  }

  -- Two values, one after the other.
  unfoldable pub pair : {A B V U : Type 0} → Copier T A V → Copier T B U → Copier T (A × B) (V × U)
  pair C D = record {
    view = λ p h. (C.view p.0 h, D.view p.1 h);
    Within = λ p h lo hi. C.Within p.0 h lo hi × D.Within p.1 h lo hi;
    copy = λ p h. let (a, g) = C.copy p.0 h in let (b, f) = D.copy p.1 g in ((a, b), f);
  }

  pair-IsLocal :
      {A B V U : Type 0} (C : Copier T A V) (D : Copier T B U)
      → IsLocal C
      → IsLocal D
      → IsLocal (pair C D)
  unfolding pair
  pair-IsLocal C D c d = record {
    stable = λ p h g lo hi e w.
        let (x, u) = c.stable p.0 h g lo hi e w.0 in
        let (y, v) = d.stable p.1 h g lo hi e w.1 in (rw (x, y) refl, (u, v));
    widen = λ p h lo hi below above x y w.
        (c.widen p.0 h lo hi below above x y w.0, d.widen p.1 h lo hi below above x y w.1);
  }

  -- A copy, and after it another one.
  both-IsCopy :
      {A B V U : Type 0} (C : Copier T A V) (D : Copier T B U) (a : A) (b : B) (h : Heap T)
      → IsLocal C
      → IsLocal D
      → (C.Within a h 0 h.next → IsCopy C a h (C.copy a h))
      → ((g : Heap T) → D.Within b g 0 g.next → IsCopy D b g (D.copy b g))
      → C.Within a h 0 h.next × D.Within b h 0 h.next
      → IsCopy (pair C D) (a, b) h ((pair C D).copy (a, b) h)
  unfolding pair
  both-IsCopy C D a b h c d deep_a deep_b w =
      let first = deep_a w.0 in
      let g = (C.copy a h).1 in
      let (x, v) = later D d b h g 0 first.extends w.1 in
      let second = deep_b g v in
      let f = (D.copy b g).1 in
      let (y, u) = later C c (C.copy a h).0 g f h.next second.extends first.fresh in
      let m = first.extends.longer in
      record {
        extends = Extends-trans h g f first.extends second.extends;
        fresh =
            (u, d.widen (D.copy b g).0 f g.next f.next h.next f.next m (omega arith) second.fresh);
        same = rw (y, first.same, second.same, x) refl;
      }

  pub pair-IsDeep :
      {A B V U : Type 0} (C : Copier T A V) (D : Copier T B U)
      → IsDeep C
      → IsDeep D
      → IsDeep (pair C D)
  unfolding pair
  pair-IsDeep C D c d = record {
    local = pair-IsLocal C D c.local d.local;
    deep = λ p h w. both-IsCopy C D p.0 p.1 h c.local d.local (c.deep p.0 h) (d.deep p.1) w;
  }

  -- The elements of a slice, in order: `for i := range *in`.
  copy_each : {A V : Type 0} → Copier T A V → List A → Heap T → List A × Heap T
  copy_each C [] h = ([], h)
  copy_each C (a ∷ rest) h =
      let (b, g) = C.copy a h in let (bs, f) = copy_each C rest g in (b ∷ bs, f)

  view_each : {A V : Type 0} → Copier T A V → List A → Heap T → List V
  view_each C [] h = []
  view_each C (a ∷ rest) h = C.view a h ∷ view_each C rest h

  EachWithin : {A V : Type 0} → Copier T A V → List A → Heap T → ℕ → ℕ → Type 0
  EachWithin C [] h lo hi = Unit
  EachWithin C (a ∷ rest) h lo hi = C.Within a h lo hi × EachWithin C rest h lo hi

  unfoldable pub each : {A V : Type 0} → Copier T A V → Copier T (List A) (List V)
  unfolding copy_each view_each EachWithin
  each C = record { view = view_each C; Within = EachWithin C; copy = copy_each C }

  each_stable :
      {A V : Type 0} (C : Copier T A V) (c : IsLocal C) (xs : List A) (h g : Heap T) (lo hi : ℕ)
      → Agree h g lo hi
      → EachWithin C xs h lo hi
      → (view_each C xs g ≡ view_each C xs h) × EachWithin C xs g lo hi
  unfolding view_each EachWithin
  each_stable C c [] h g lo hi e w = (refl, tt)
  each_stable C c (x ∷ xs) h g lo hi e (w, ws) =
      let (same, u) = c.stable x h g lo hi e w in
      let (rest, us) = each_stable C c xs h g lo hi e ws in (rw (same, rest) refl, (u, us))

  each_widen :
      {A V : Type 0} (C : Copier T A V) (c : IsLocal C) (xs : List A) (h : Heap T)
      (lo hi below above : ℕ)
      → below ≤ lo
      → hi ≤ above
      → EachWithin C xs h lo hi
      → EachWithin C xs h below above
  unfolding EachWithin
  each_widen C c [] h lo hi below above p q w = tt
  each_widen C c (x ∷ xs) h lo hi below above p q (w, ws) =
      (c.widen x h lo hi below above p q w, each_widen C c xs h lo hi below above p q ws)

  each-IsLocal : {A V : Type 0} (C : Copier T A V) → IsLocal C → IsLocal (each C)
  unfolding each
  each-IsLocal C c = record { stable = each_stable C c; widen = each_widen C c }

  each-IsCopy :
      {A V : Type 0} (C : Copier T A V) (c : IsDeep C) (xs : List A) (h : Heap T)
      → (each C).Within xs h 0 h.next
      → IsCopy (each C) xs h ((each C).copy xs h)
  unfolding each pair
  each-IsCopy C c [] h w = record { extends = Extends-refl h; fresh = tt; same = refl }
  each-IsCopy C c (x ∷ xs) h w =
      let p =
        both-IsCopy C (each C) x xs h c.local (each-IsLocal C c.local) (c.deep x h)
          (each-IsCopy C c xs) w in
      record { extends = p.extends; fresh = p.fresh; same = ap (λ q. q.0 ∷ q.1) p.same }

  pub each-IsDeep : {A V : Type 0} (C : Copier T A V) → IsDeep C → IsDeep (each C)
  each-IsDeep C c = record { local = each-IsLocal C c.local; deep = each-IsCopy C c }
