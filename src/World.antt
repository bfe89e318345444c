-- ===== src/World.antt =====
-- What the controller calls and does not implement: the API client, the clock, the event recorder,
-- and the libraries (controllerutil, resource, time, crypto/rsa, crypto/x509, encoding/pem). `State`
-- holds the cluster, the clock and the source of randomness.
pub mod Laws
pub mod Held
use build_operator.Prelude.{ℕ, String, Bool, Option, List, Dict}
use build_operator.Prelude.Int.{ℤ}
use build_operator.Error.{Error}
use build_operator.Exec.{Result, Exec}
use build_operator.Kube.Meta.{ObjectMeta, Key, Instant}
use build_operator.Kube.Network.{Service, IngressRoute}
use build_operator.Kube.Storage.{PersistentVolumeClaim, ConfigMap, Secret, Quantity, Bytes}
use build_operator.Kube.Workload.{StatefulSet, Pod}
use build_operator.Template.{BuildkitBuilderTemplate}
use build_operator.Builder.{BuildkitBuilder}

-- The kinds of object that the controller reads or writes.
pub data Kind : Type 0 where
  service claim config_map secret stateful_set ingress_route builder template : Kind

abbrev pub Object : Kind → Type 0
Object service = Service
Object claim = PersistentVolumeClaim
Object config_map = ConfigMap
Object secret = Secret
Object stateful_set = StatefulSet
Object ingress_route = IngressRoute
Object builder = BuildkitBuilder
Object template = BuildkitBuilderTemplate

abbrev pub meta_of : (k : Kind) → Object k → ObjectMeta
meta_of service o = o.meta
meta_of claim o = o.meta
meta_of config_map o = o.meta
meta_of secret o = o.meta
meta_of stateful_set o = o.meta
meta_of ingress_route o = o.meta
meta_of builder o = o.meta
meta_of template o = o.meta

-- `x509.Certificate`, with the fields that the source sets or reads.
pub record Certificate : Type 0 where
  pub serial_number : ℕ
  pub common_name : String
  pub not_before : Instant
  pub not_after : Instant
  pub key_usage : List String
  pub ext_key_usage : List String
  pub basic_constraints_valid : Bool
  pub is_ca : Bool
  pub max_path_len_zero : Bool
  pub dns_names : List String

pub record World : Type 1 where
  pub State : Type 0
  -- client.Client
  pub get : (k : Kind) → Key → Exec State (Object k)
  pub create : (k : Kind) → Object k → Exec State (Unit {0})
  pub update : (k : Kind) → Object k → Exec State (Unit {0})
  pub delete : (k : Kind) → Key → Exec State (Unit {0})
  pub update_status : BuildkitBuilder → Exec State (Unit {0})
  -- `List` of pods in a namespace, by `MatchingLabels`
  pub list_pods : String → Dict String → Exec State (List Pod)
  -- `Recorder.Event` with an error's text
  pub event : BuildkitBuilder → String → String → Error → State → State
  -- `time.Now` and `metav1.Now`
  pub now : State → Instant × State
  -- `time.Parse(time.RFC3339, …)`
  pub parse_time : String → Option Instant
  -- `controllerutil.SetControllerReference(owner, object)`: the object's metadata, and the error
  pub set_controller_reference : ObjectMeta → ObjectMeta → ObjectMeta × Option Error
  -- `controllerutil.ContainsFinalizer` and `RemoveFinalizer`
  pub contains_finalizer : ObjectMeta → String → Bool
  pub remove_finalizer : ObjectMeta → String → ObjectMeta
  -- `resource.MustParse`, `none` where it panics
  pub parse_quantity : String → Option Quantity
  -- crypto/rsa, crypto/x509 and encoding/pem
  pub PrivateKey : Type 0
  pub generate_key : Exec State PrivateKey
  pub random_serial : Exec State ℕ
  -- template, parent, the key certified, the key that signs
  pub create_certificate : Certificate → Certificate → PrivateKey → PrivateKey → Exec State Bytes
  pub parse_certificate : Bytes → Result Certificate
  pub marshal_private_key : PrivateKey → Bytes
  pub parse_private_key : Bytes → Result PrivateKey
  pub pem_encode : String → Bytes → Bytes
  pub pem_decode : Bytes → Option Bytes
  -- What crypto/x509 speaks of: a key whose public half a certificate holds, a certificate with a
  -- key's signature, and a name in ASCII
  pub IsMatching : PrivateKey → Certificate → Type 0
  pub IsSignedBy : Certificate → PrivateKey → Type 0
  pub is_ia5 : String → Bool

-- `r.Update` and the like where only the error matters.
abbrev pub Action : World → Type 0
Action W = Exec W.State (Unit {0})

-- `metav1.Now()` as an action.
unfoldable pub read_clock : (W : World) → Exec W.State Instant
read_clock W s = let (t, s') = W.now s in (Result.ok t, s')

-- `r.Recorder.Event` as an action.
unfoldable pub record_event : (W : World) → BuildkitBuilder → String → String → Error → Action W
record_event W b level reason e s = (Result.ok tt, W.event b level reason e s)
