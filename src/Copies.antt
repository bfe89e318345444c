-- ===== src/Copies.antt =====
-- The structures of both APIs as they lie in memory, for the functions of
-- api/v1alpha1/zz_generated.deepcopy.go and api/buildertemplate/v1alpha1/zz_generated.deepcopy.go: a
-- pointer, a slice and a map are addresses, and what they refer to is a cell of the heap.
pub mod Laws
pub mod Pointers
pub mod Structures
pub mod Templates
pub mod Builders
pub mod Apart
use build_operator.Prelude.{
  ℕ, suc, String, ◌==◌, Bool, Option, none, some, List, [], ◌∷◌, Dict, if◌then◌else◌,
}
use build_operator.Prelude.Int.{ℤ}
use build_operator.Prelude.{leb, ltb}

-- The types of the Kubernetes libraries that the structures hold, and the cells that these refer to.
pub record Types : Type 1 where
  pub Cell : Type 0
  pub Meta : Type 0
  pub ListMeta : Type 0
  pub Resources : Type 0
  pub Toleration : Type 0
  pub Affinity : Type 0
  pub Condition : Type 0
  pub Time : Type 0

-- `nil`, or an address.
abbrev pub Pointer : Type 0
Pointer = Option ℕ

pub record TypeMeta : Type 0 where
  pub kind : String
  pub api_version : String

pub record StoredPvc : Type 0 where
  pub storage_class_name : String
  pub size : String
  pub access_modes : Pointer

pub record StoredS3 : Type 0 where
  pub bucket : String
  pub region : String
  pub endpoint : String
  pub secret_ref : Pointer

pub record StoredCache : Type 0 where
  pub type : String
  pub pvc : Pointer
  pub s3 : Pointer

pub record StoredExposure : Type 0 where
  pub enabled : Bool
  pub host : String
  pub ingress_controller : String
  pub entry_point : String
  pub annotations : Pointer

pub record StoredSpec : Type 0 where
  pub template_ref : Pointer
  pub template : Pointer
  pub mode : String
  pub replicas : Pointer
  pub idle_timeout_seconds : Pointer
  pub labels : Pointer
  pub exposure : Pointer

pub record StoredStatus : Type 0 where
  pub endpoint : String
  pub node_port : ℤ
  pub external_endpoint : String
  pub tls_secret_name : String
  pub conditions : Pointer
  pub phase : String
  pub ready_replicas : ℤ
  pub desired_replicas : ℤ
  pub last_scaled_at : Pointer

module _ (T : Types) where
  pub record StoredTemplateSpec : Type 0 where
    pub buildkit_image : String
    pub rootless : Bool
    pub resources : T.Resources
    pub node_selector : Pointer
    pub tolerations : Pointer
    pub affinity : Pointer
    pub buildkitd_toml : String
    pub cache_config : StoredCache
    pub arch : String

  pub record StoredTemplate : Type 0 where
    pub type_meta : TypeMeta
    pub meta : T.Meta
    pub spec : StoredTemplateSpec

  pub record StoredBuilder : Type 0 where
    pub type_meta : TypeMeta
    pub meta : T.Meta
    pub spec : StoredSpec
    pub status : StoredStatus

  -- `BuildkitBuilderList` and `BuildkitBuilderTemplateList`
  pub record StoredList : Type 0 where
    pub type_meta : TypeMeta
    pub meta : T.ListMeta
    pub items : Pointer

-- What an address can refer to.
pub data Sort : Type 0 where
  text number words dict pvc s3 tolerations affinity template_spec exposure conditions time : Sort
  spec status cache builder builders template templates list foreign : Sort

abbrev pub CellOf : Types → Sort → Type 0
CellOf T text = String
CellOf T number = ℤ
CellOf T words = List String
CellOf T dict = Dict String
CellOf T pvc = StoredPvc
CellOf T s3 = StoredS3
CellOf T tolerations = List T.Toleration
CellOf T affinity = T.Affinity
CellOf T template_spec = StoredTemplateSpec T
CellOf T exposure = StoredExposure
CellOf T conditions = List T.Condition
CellOf T time = T.Time
CellOf T spec = StoredSpec
CellOf T status = StoredStatus
CellOf T cache = StoredCache
CellOf T builder = StoredBuilder T
CellOf T builders = List (StoredBuilder T)
CellOf T template = StoredTemplate T
CellOf T templates = List (StoredTemplate T)
CellOf T list = StoredList T
CellOf T foreign = T.Cell

-- Addresses from `next` on are free.
pub record Heap (T : Types) : Type 0 where
  pub next : ℕ
  pub at : (k : Sort) → ℕ → CellOf T k

module _ (T : Types) where
  -- The new content of a cell of one sort, where another may be asked for.
  unfoldable pub select : (k j : Sort) → CellOf T k → CellOf T j → CellOf T j
  select text text v old = v
  select number number v old = v
  select words words v old = v
  select dict dict v old = v
  select pvc pvc v old = v
  select s3 s3 v old = v
  select tolerations tolerations v old = v
  select affinity affinity v old = v
  select template_spec template_spec v old = v
  select exposure exposure v old = v
  select conditions conditions v old = v
  select time time v old = v
  select spec spec v old = v
  select status status v old = v
  select cache cache v old = v
  select builder builder v old = v
  select builders builders v old = v
  select template template v old = v
  select templates templates v old = v
  select list list v old = v
  select foreign foreign v old = v
  select _ _ v old = old

  -- `*p = v`
  unfoldable pub write : (k : Sort) → ℕ → CellOf T k → Heap T → Heap T
  write k p v h = record h {
    at = λ j a.
        if leb a p then (if leb p a then select k j v (h.at j a) else h.at j a) else h.at j a;
  }

  -- `new`, and its first content.
  unfoldable pub alloc : (k : Sort) → CellOf T k → Heap T → Pointer × Heap T
  alloc k v h = (some h.next, record (write k h.next v h) { next = suc h.next })

  -- A function that copies a value, with what it reads there: its own view, and the addresses.
  pub record Copier (A V : Type 0) : Type 1 where
    pub view : A → Heap T → V
    -- Every address that the value leads to lies between the two.
    pub Within : A → Heap T → ℕ → ℕ → Type 0
    pub copy : A → Heap T → A × Heap T
