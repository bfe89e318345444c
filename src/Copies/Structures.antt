-- ===== src/Copies/Structures.antt =====
-- Copies of structures, `*out = *in` and then the fields that hold addresses, and the copies of the
-- libraries' types.
use build_operator.Prelude.{◌≡◌, ap, String, List, Dict, Option, none, some, []}
use build_operator.Kube.Meta.{ObjectMeta, Condition, Instant}
use build_operator.Kube.Workload.{ResourceRequirements, Toleration, Affinity}
use build_operator.Copies.{Types, Pointer, Copier, dict, words}
use build_operator.Copies.Laws.{IsDeep, plain, plain-IsDeep, each, each-IsDeep}
use build_operator.Copies.Pointers.{pointer, pointer-IsDeep}

module _ (T : Types) where
  -- `DeepCopyInto` of the types of the libraries, and what these types hold.
  pub record Library : Type 1 where
    pub ListView : Type 0
    pub meta : Copier T T.Meta ObjectMeta
    pub list_meta : Copier T T.ListMeta ListView
    pub resources : Copier T T.Resources ResourceRequirements
    pub toleration : Copier T T.Toleration Toleration
    pub affinity : Copier T T.Affinity Affinity
    pub condition : Copier T T.Condition Condition
    pub time : Copier T T.Time Instant

  -- The copies of the libraries are deep.
  pub record IsDocumented (L : Library) : Type 0 where
    pub meta : IsDeep T L.meta
    pub list_meta : IsDeep T L.list_meta
    pub resources : IsDeep T L.resources
    pub toleration : IsDeep T L.toleration
    pub affinity : IsDeep T L.affinity
    pub condition : IsDeep T L.condition
    pub time : IsDeep T L.time

  -- `in.M != nil`, `make(map[string]string, len(*in))`, and the loop over the entries.
  abbrev pub string_map : Copier T Pointer (Option (Dict String))
  string_map = pointer T dict (each T (plain T (String × String)))

  pub string_map-IsDeep : IsDeep T string_map
  string_map-IsDeep = pointer-IsDeep T dict _ (each-IsDeep T _ (plain-IsDeep T (String × String)))

  -- `make([]string, len(*in))` and `copy`.
  abbrev pub string_slice : Copier T Pointer (Option (List String))
  string_slice = pointer T words (plain T (List String))

  pub string_slice-IsDeep : IsDeep T string_slice
  string_slice-IsDeep = pointer-IsDeep T words _ (plain-IsDeep T (List String))

  -- A nil slice or map reads as an empty one.
  abbrev pub or_empty : {A : Type 0} → Option (List A) → List A
  or_empty none = []
  or_empty (some xs) = xs

  module _ {A V S W : Type 0} (C : Copier T A V) (get : S → A) (set : S → A → S)
      (show : S → V → W) where
    -- The fields that `get` names are copied, and the others are those of `*in`.
    unfoldable pub through : Copier T S W
    through = record {
      view = λ s h. show s (C.view (get s) h);
      Within = λ s. C.Within (get s);
      copy = λ s h. let (a, g) = C.copy (get s) h in (set s a, g);
    }

    pub through-IsDeep :
        ((s : S) (a : A) → get (set s a) ≡ a)
        → ((s : S) (a : A) (v : V) → show (set s a) v ≡ show s v)
        → IsDeep T C
        → IsDeep T through
    unfolding through
    through-IsDeep got shown c = record {
      local = record {
        stable = λ s h g lo hi e w.
            let (same, u) = c.local.stable (get s) h g lo hi e w in (ap (show s) same, u);
        widen = λ s h lo hi below above x y w. c.local.widen (get s) h lo hi below above x y w;
      };
      deep = λ s h w.
          let p = c.deep (get s) h w in
          record {
            extends = p.extends;
            fresh = rw got p.fresh;
            same = rw (got, shown) (ap (show s) p.same);
          };
    }
