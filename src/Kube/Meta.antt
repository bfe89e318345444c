-- ===== src/Kube/Meta.antt =====
-- metav1: object metadata, keys and conditions.
use build_operator.Prelude.{
  String, ◌==◌, Bool, true, false, Option, none, some, List, Dict, index, if◌then◌else◌,
}
use build_operator.Prelude.Int.{ℤ, negsuc, eqb_ℤ}

pub record OwnerReference : Type 0 where
  pub kind : String
  pub name : String
  pub uid : String
  pub controller : Bool

-- An instant: nanoseconds since the Unix epoch.
abbrev pub Instant : Type 0
Instant = ℤ

-- The zero `time.Time`: 1 January of the year 1, 62135596800 seconds before the epoch.
abbrev pub zero_time : Instant
zero_time = negsuc 62135596799999999999

pub record ObjectMeta : Type 0 where
  pub namespace : String
  pub name : String
  pub uid : String
  pub resource_version : String
  pub labels : Dict String
  -- `none` is the nil map.
  pub annotations : Option (Dict String)
  pub finalizers : List String
  pub owner_references : List OwnerReference
  pub deletion_timestamp : Option Instant

-- `metav1.ObjectMeta{Namespace: …, Name: …}`
abbrev pub new_meta : String → String → ObjectMeta
new_meta namespace name = record {
  namespace = namespace;
  name = name;
  uid = "";
  resource_version = "";
  labels = List.[];
  annotations = none;
  finalizers = List.[];
  owner_references = List.[];
  deletion_timestamp = none;
}

-- `t.IsZero()` on a `*metav1.Time`.
unfoldable pub is_zero : Option Instant → Bool
is_zero none = true
is_zero (some t) = eqb_ℤ t zero_time

-- `m[key]` on a map that may be nil.
abbrev pub annotation : Option (Dict String) → String → String
annotation none key = ""
annotation (some m) key = index m key

-- `client.ObjectKey`
pub record Key : Type 0 where
  pub namespace : String
  pub name : String

abbrev pub same_key : Key → Key → Bool
same_key a b = if a.namespace == b.namespace then a.name == b.name else false

-- `client.ObjectKeyFromObject`
abbrev pub key_of : ObjectMeta → Key
key_of m = record { namespace = m.namespace; name = m.name }

-- `metav1.Condition`
pub record Condition : Type 0 where
  pub type : String
  pub status : String
  pub reason : String
  pub message : String
  pub last_transition_time : Instant
