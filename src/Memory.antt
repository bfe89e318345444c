-- ===== src/Memory.antt =====
-- A cluster in memory and toy libraries: a world in which the laws hold, for running the model.
pub mod Objects
pub mod Laws
pub mod Toys
use build_operator.Prelude.{
  ◌≡◌, ℕ, suc, ◌+◌, String, ◌==◌, Bool, true, false, Option, none, some, List, [], ◌∷◌, Dict,
  if◌then◌else◌,
}
use build_operator.Prelude.Int.{ℤ, pos, ◌+ℤ◌}
use build_operator.Error.{Error, not_found, already_exists, failure}
use build_operator.Exec.{Result, ok, err}
use build_operator.Kube.Meta.{ObjectMeta, Key, key_of}
use build_operator.Kube.Storage.{Bytes}
use build_operator.Kube.Workload.{Pod}
use build_operator.Builder.{BuildkitBuilder}
use build_operator.Memory.Toys.{encode_certificate, decode_certificate}
use build_operator.Memory.Objects.{Store, read, put, drop}
use build_operator.World.{World, Kind, Object, builder, meta_of}
use build_operator.World.Laws.{object_key, found}

pub record Cluster : Type 0 where
  pub objects : Store
  pub clock : ℤ
  pub keys_made : ℕ
  pub pods : List Pod
  pub events : List Error

unfoldable pub create_at :
    (k : Kind) → Object k → Cluster → Option (Object k) → Result (Unit {0}) × Cluster
create_at k o s none = (ok tt, record s { objects = put k o s.objects })
create_at k o s (some _) = (err already_exists, s)

-- An update at another resource version is a conflict.
unfoldable pub update_at :
    (k : Kind) → Object k → Cluster → Option (Object k) → Result (Unit {0}) × Cluster
update_at k o s none = (err not_found, s)
update_at k o s (some old) =
    if (meta_of k o).resource_version == (meta_of k old).resource_version
    then (ok tt, record s { objects = put k o s.objects })
    else (err (failure "conflict"), s)

unfoldable pub delete_at :
    (k : Kind) → Key → Cluster → Option (Object k) → Result (Unit {0}) × Cluster
delete_at k key s none = (err not_found, s)
delete_at k key s (some _) = (ok tt, record s { objects = drop k key s.objects })

unfoldable pub status_at :
    BuildkitBuilder → Cluster → Option BuildkitBuilder → Result (Unit {0}) × Cluster
status_at b s none = (err not_found, s)
status_at b s (some old) =
    (ok tt, record s { objects = put builder (record old { status = b.status }) s.objects })

abbrev pub own_meta : ObjectMeta → ObjectMeta → ObjectMeta × Option Error
own_meta owner m = (
  record m {
    owner_references =
        record { kind = "BuildkitBuilder"; name = owner.name; uid = owner.uid; controller = true }
        ∷ [];
  },
  none,
)

unfoldable pub without : String → List String → List String
without f [] = []
without f (g ∷ gs) = let rest = without f gs in if g == f then rest else g ∷ rest

unfoldable pub has : String → List String → Bool
has f [] = false
has f (g ∷ gs) = if g == f then true else has f gs

unfoldable pub decode_key : Bytes → Result ℕ
decode_key (n ∷ []) = ok n
decode_key _ = err (failure "malformed key")

unfoldable pub decode_pem : Bytes → Option Bytes
decode_pem [] = none
decode_pem (tag ∷ der) = some der

-- Only one text is read as an instant.
unfoldable pub parse_noon : String → Option ℤ
parse_noon t = if t == "2024-01-01T12:00:00Z" then some (pos 1704110400000000000) else none

abbrev pub memory : World
memory = record {
  State = Cluster;
  get = λ k key s. (found (read k key s.objects), s);
  create = λ k o s. create_at k o s (read k (object_key k o) s.objects);
  update = λ k o s. update_at k o s (read k (object_key k o) s.objects);
  delete = λ k key s. delete_at k key s (read k key s.objects);
  update_status = λ b s. status_at b s (read builder (key_of b.meta) s.objects);
  list_pods = λ namespace labels s. (ok s.pods, s);
  event = λ b level reason e s. record s { events = e ∷ s.events };
  now = λ s. (s.clock, record s { clock = s.clock +ℤ pos 1 });
  parse_time = parse_noon;
  set_controller_reference = own_meta;
  contains_finalizer = λ m f. has f m.finalizers;
  remove_finalizer = λ m f. record m { finalizers = without f m.finalizers };
  parse_quantity = λ text. if text == "" then none else some text;
  PrivateKey = ℕ;
  generate_key = λ s. (ok s.keys_made, record s { keys_made = s.keys_made + 1 });
  random_serial = λ s. (ok s.keys_made, s);
  create_certificate = λ tmpl parent key signer s. (ok (encode_certificate tmpl key signer), s);
  parse_certificate = decode_certificate;
  marshal_private_key = λ key. key ∷ [];
  parse_private_key = decode_key;
  pem_encode = λ type der. 0 ∷ der;
  pem_decode = decode_pem;
  IsMatching = λ key cert. cert.serial_number ≡ key;
  IsSignedBy = λ cert key. cert.not_before ≡ pos key;
  is_ia5 = λ name. true;
}
