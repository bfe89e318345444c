-- ===== src/Controller/Objects/Claims.antt =====
-- The cache claim.
use build_operator.Prelude.{
  is_empty, Option, Option-cases, inl, inr, String, ◌==◌, ◌≡◌, refl, none, some, List, [], ◌∷◌,
  if◌then◌else◌,
}
use build_operator.Error.{panic}
use build_operator.Exec.{Result, ok, err}
use build_operator.Kube.Storage.{PersistentVolumeClaim, Quantity}
use build_operator.Template.{PvcConfig}
use build_operator.Builder.{BuildkitBuilder}
use build_operator.Controller.Metadata.{cache_name}
use build_operator.Controller.Objects.{access_modes_of, to_access_modes, pvc_for_builder}
use build_operator.World.{World}

to_access_modes_id : (ss : List String) → to_access_modes ss ≡ ss
unfolding to_access_modes
to_access_modes_id [] = refl
to_access_modes_id (s ∷ ss) = rw (to_access_modes_id ss)

abbrev pub requested : PvcConfig → String
requested pvc = if pvc.size == "" then "100Gi" else pvc.size

-- What comes of a size that was read, or was not.
abbrev pub Builds :
    BuildkitBuilder → PvcConfig → Result PersistentVolumeClaim → Option Quantity → Type 0
Builds b config r none = r ≡ err (panic "cannot parse quantity")
Builds b config r (some size) =
    (pvc : PersistentVolumeClaim) × (r ≡ ok pvc)
    × (pvc.meta.name ≡ cache_name b)
    × (pvc.requests ≡ ("storage", size) ∷ [])
    × (pvc.access_modes
        ≡ (if is_empty config.access_modes then "ReadWriteOnce" ∷ [] else config.access_modes))

modes_written :
    (modes : List String)
    → to_access_modes (access_modes_of modes)
      ≡ (if is_empty modes then "ReadWriteOnce" ∷ [] else modes)
unfolding access_modes_of
modes_written [] = to_access_modes_id _
modes_written (mode ∷ modes) = to_access_modes_id _

-- A claim is built exactly if its size, 100Gi where none is given, is a quantity, and otherwise the
-- call panics. It has the builder's cache name, asks for that size, and has the access modes that
-- are given, or ReadWriteOnce where none are.
pub pvc_for_builder_lem :
    (W : World) (b : BuildkitBuilder) (config : PvcConfig)
    → Builds b config (pvc_for_builder W b config) (W.parse_quantity (requested config))
unfolding pvc_for_builder
pvc_for_builder_lem W b config = elim (Option-cases (W.parse_quantity (requested config))) [
  | inl bad ↦ rw bad
  | inr (size, good) ↦ rw good (_, refl, refl, refl, modes_written config.access_modes)
]
