-- ===== src/Copies/Apart.antt =====
-- What copies are good for: a write to the original does not show in the copy, nor the other way.
use build_operator.Prelude.{◌≡◌, ◌∙◌, ◌≤◌, ◌<◌, inl, inr, ℕ, arith}
use build_operator.Copies.{Types, Pointer, Sort, CellOf, Heap, Copier, write}
use build_operator.Copies.Laws.{IsDeep}
use build_operator.Copies.Pointers.{write-Agree}
use build_operator.Copies.Structures.{Library, IsDocumented}
use build_operator.Copies.Templates.{deep_copy_template_list, deep_copy_template_list-IsDeep}
use build_operator.Copies.Builders.{deep_copy_builder_list, deep_copy_builder_list-IsDeep}

module _ (T : Types) {A V : Type 0} (C : Copier T A V) where
  -- The copy and the original, in the heap after the copy: they read the same, and a write of any
  -- content to any cell of the one leaves what the other reads.
  pub record AreApart (a : A) (h : Heap T) (r : A × Heap T) : Type 0 where
    pub copy_reads : C.view r.0 r.1 ≡ C.view a h
    pub original_reads : C.view a r.1 ≡ C.view a h
    pub copy_keeps :
        (k : Sort) (p : ℕ) (v : CellOf T k)
        → p < h.next
        → C.view r.0 (write T k p v r.1) ≡ C.view a h
    pub original_keeps :
        (k : Sort) (p : ℕ) (v : CellOf T k) → h.next ≤ p → C.view a (write T k p v r.1) ≡ C.view a h
    -- Where the addresses of each lie.
    pub copy_within : C.Within r.0 r.1 h.next r.1.next
    pub original_within : C.Within a r.1 0 h.next

  deep-AreApart :
      (D : IsDeep T C) (a : A) (h : Heap T) → C.Within a h 0 h.next → AreApart a h (C.copy a h)
  deep-AreApart D a h w =
      let p = D.deep a h w in
      let g = (C.copy a h).1 in
      let (same, u) = D.local.stable a h g 0 h.next p.extends.kept w in
      record {
        copy_reads = p.same;
        original_reads = same;
        copy_keeps = λ k q v old.
            (D.local.stable (C.copy a h).0 g (write T k q v g) h.next g.next
              (λ j x lo hi. write-Agree T k q v g j x (inr (omega arith))) p.fresh).0
            ∙ p.same;
        original_keeps = λ k q v new.
            (D.local.stable a g (write T k q v g) 0 h.next
              (λ j x lo hi. write-Agree T k q v g j x (inl (omega arith))) u).0
            ∙ same;
        copy_within = p.fresh;
        original_within = u;
      }

module _ (T : Types) (L : Library T) (D : IsDocumented T L) where
  -- Where the copies of the Kubernetes libraries are deep, for a list of builders whose addresses
  -- are in use: `DeepCopy` gives a list that reads as the original does, whose addresses are all
  -- new, and both read the same still after any write to a cell of the other.
  pub deep_copy_builder_list-AreApart :
      (p : Pointer) (h : Heap T)
      → (deep_copy_builder_list T L).Within p h 0 h.next
      → AreApart T (deep_copy_builder_list T L) p h ((deep_copy_builder_list T L).copy p h)
  deep_copy_builder_list-AreApart p h w =
      deep-AreApart T (deep_copy_builder_list T L) (deep_copy_builder_list-IsDeep T L D) p h w

  -- The same of a list of templates: `DeepCopy` gives a list that reads as the original does, whose
  -- addresses are all new, and both read the same still after any write to a cell of the other.
  pub deep_copy_template_list-AreApart :
      (p : Pointer) (h : Heap T)
      → (deep_copy_template_list T L).Within p h 0 h.next
      → AreApart T (deep_copy_template_list T L) p h ((deep_copy_template_list T L).copy p h)
  deep_copy_template_list-AreApart p h w =
      deep-AreApart T (deep_copy_template_list T L) (deep_copy_template_list-IsDeep T L D) p h w
