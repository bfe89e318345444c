-- ===== src/Kube/Storage.antt =====
-- corev1: claims, config maps and secrets.
use build_operator.Prelude.{ℕ, String, Option, none, some, List, [], Dict, lookup}
use build_operator.Kube.Meta.{ObjectMeta}

-- A `resource.Quantity`, by its canonical text.
abbrev pub Quantity : Type 0
Quantity = String

abbrev pub Bytes : Type 0
Bytes = List ℕ

pub record PersistentVolumeClaim : Type 0 where
  pub meta : ObjectMeta
  pub access_modes : List String
  pub storage_class_name : Option String
  pub requests : Dict Quantity

pub record ConfigMap : Type 0 where
  pub meta : ObjectMeta
  pub contents : Dict String

pub record Secret : Type 0 where
  pub meta : ObjectMeta
  pub type : String
  pub contents : Dict Bytes

-- `sec.Data[key]`, nil where the key is missing.
unfoldable pub entry : Secret → String → Bytes
entry s key = elim (lookup key s.contents) [ none ↦ [] | some b ↦ b ]
