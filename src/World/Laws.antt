-- ===== src/World/Laws.antt =====
-- The documented behaviour of the API client and of controllerutil, as far as theorems rely on it:
-- a cluster that nobody else writes to, and whose calls do not fail without a reason.
use build_operator.Prelude.Int.{pos, ◌+ℤ◌, ◌<ℤ◌}
use build_operator.Kube.Storage.{Bytes}
use build_operator.Prelude.{true, ◌∷◌, ℕ, String, ◌≡◌, ◌≢◌, ◌⊎◌, Option, none, some, List, [], Dict}
use build_operator.Error.{Error, not_found}
use build_operator.Exec.{Result, ok, err}
use build_operator.Kube.Meta.{ObjectMeta, OwnerReference, Key, key_of}
use build_operator.Kube.Workload.{Pod}
use build_operator.Builder.{BuildkitBuilder}
use build_operator.World.{
  World, Certificate, Kind, Object, meta_of, service, claim, config_map, secret, stateful_set,
  ingress_route, builder, template,
}

-- What the API server keeps of an object that is written, whatever it fills in besides. A service
-- without a type gets the default one.
abbrev pub Agrees : (k : Kind) → Object k → Object k → Type 0
Agrees service o p =
    (o.type ≢ "" → p.type ≡ o.type)
    × (p.selector ≡ o.selector)
    × (o.cluster_ip ≢ "" → p.cluster_ip ≡ o.cluster_ip)
Agrees claim o p = (p.access_modes ≡ o.access_modes) × (p.requests ≡ o.requests)
Agrees config_map o p = p.contents ≡ o.contents
Agrees secret o p = (p.contents ≡ o.contents) × (p.meta.annotations ≡ o.meta.annotations)
Agrees stateful_set o p =
    (p.replicas ≡ o.replicas)
    × (p.service_name ≡ o.service_name)
    × (p.match_labels ≡ o.match_labels)
    × (p.template ≡ o.template)
Agrees ingress_route o p =
    (p.routes ≡ o.routes) × (p.entry_points ≡ o.entry_points) × (p.passthrough ≡ o.passthrough)
Agrees builder o p = p.spec ≡ o.spec
Agrees template o p = p.spec ≡ o.spec

-- Whether an update may put `o` in place of `old`: the fields that the API server does not let change.
abbrev pub MayReplace : (k : Kind) → Object k → Object k → Type 0
MayReplace service old o = o.cluster_ip ≡ old.cluster_ip
MayReplace claim old o =
    (o.access_modes ≡ old.access_modes)
    × (o.requests ≡ old.requests)
    × (o.storage_class_name ≡ old.storage_class_name)
MayReplace secret old o = o.type ≡ old.type
MayReplace stateful_set old o =
    (o.match_labels ≡ old.match_labels) × (o.service_name ≡ old.service_name)
MayReplace _ old o = Unit

abbrev pub object_key : (k : Kind) → Object k → Key
object_key k o = key_of (meta_of k o)

abbrev pub found {ℓ} : {A : Type ℓ} → Option A → Result A
found none = err not_found
found (some a) = ok a

abbrev pub removal {ℓ} : {A : Type ℓ} → Option A → Result (Unit {0})
removal none = err not_found
removal (some a) = ok tt

-- What is stored in the cluster, by kind and key.
abbrev pub View : World → Type 0
View W = (k : Kind) → Key → W.State → Option (Object k)

module _ (W : World) (peek : View W) where
  -- Nothing but the object of this kind and key has changed.
  abbrev pub OnlyAt : Kind → Key → W.State → W.State → Type 0
  OnlyAt k key s t =
      (j : Kind) (other : Key) → (j ≢ k) ⊎ (other ≢ key) → peek j other t ≡ peek j other s

  -- The call succeeds, an object with the property is there, and nothing else has changed.
  pub record IsPut (k : Kind) (key : Key) (P : Object k → Type 0) (s : W.State)
      (r : Result (Unit {0}) × W.State) : Type 0 where
    pub succeeds : r.0 ≡ ok tt
    pub object : Object k
    pub present : peek k key r.1 ≡ some object
    pub agrees : P object
    pub frame : OnlyAt k key s r.1

  -- The object is there as it was written.
  abbrev pub IsStored : (k : Kind) → Object k → W.State → Result (Unit {0}) × W.State → Type 0
  IsStored k o s r = IsPut k (object_key k o) (Agrees k o) s r

  -- The object is gone; a call on an object that was not there answers NotFound.
  pub record IsRemoved (k : Kind) (key : Key) (s : W.State) (r : Result (Unit {0}) × W.State)
      : Type 0 where
    pub answer : r.0 ≡ removal (peek k key s)
    pub absent : peek k key r.1 ≡ none
    pub frame : OnlyAt k key s r.1

  abbrev pub IsUnchanged : W.State → W.State → Type 0
  IsUnchanged s t = (k : Kind) (key : Key) → peek k key t ≡ peek k key s

-- What a write of its status keeps of a builder.
abbrev pub Kept : BuildkitBuilder → BuildkitBuilder → Type 0
Kept old new = (new.spec ≡ old.spec) × (new.meta.deletion_timestamp ≡ old.meta.deletion_timestamp)

-- A cluster with one writer, in which no object waits for its deletion and whose API server finds no
-- object invalid: reads return what is stored, a write of an absent object succeeds, and so does one
-- of an object at its resource version that leaves the fields alone which may not change. A write of
-- a builder's status keeps the rest of it, and reading the clock or the pods changes nothing.
pub record IsReliable (W : World) : Type 0 where
  pub peek : View W
  pub get_lem : (k : Kind) (key : Key) (s : W.State) → W.get k key s ≡ (found (peek k key s), s)
  pub key_lem :
      (k : Kind) (key : Key) (s : W.State) {o : Object k}
      → peek k key s ≡ some o
      → object_key k o ≡ key
  pub create_lem :
      (k : Kind) (o : Object k) (s : W.State)
      → peek k (object_key k o) s ≡ none
      → IsStored W peek k o s (W.create k o s)
  pub update_lem :
      (k : Kind) (o old : Object k) (s : W.State)
      → peek k (object_key k o) s ≡ some old
      → (meta_of k o).resource_version ≡ (meta_of k old).resource_version
      → MayReplace k old o
      → IsStored W peek k o s (W.update k o s)
  pub delete_lem :
      (k : Kind) (key : Key) (s : W.State) → IsRemoved W peek k key s (W.delete k key s)
  pub now_lem : (s : W.State) → IsUnchanged W peek s (W.now s).1
  pub event_lem :
      (b : BuildkitBuilder) (level reason : String) (e : Error) (s : W.State)
      → IsUnchanged W peek s (W.event b level reason e s)
  pub pods : String → Dict String → W.State → List Pod
  pub list_pods_lem :
      (namespace : String) (labels : Dict String) (s : W.State)
      → W.list_pods namespace labels s ≡ (ok (pods namespace labels s), s)
  -- Only the status of a builder that is there is written.
  pub update_status_lem :
      (b old : BuildkitBuilder) (s : W.State)
      → peek builder (key_of b.meta) s ≡ some old
      → ((W.update_status b s).0 ≡ ok tt)
        × ((new : BuildkitBuilder) × (peek builder (key_of b.meta) (W.update_status b s).1
              ≡ some new)
            × Kept old new)
        × OnlyAt W peek builder (key_of b.meta) s (W.update_status b s).1

-- `SetControllerReference` accepts the builder as owner of an object in its namespace that has no
-- owner, accepts it again, and changes nothing but the owner references.
pub record IsOwning (W : World) (owner : ObjectMeta) : Type 0 where
  pub accepted :
      (m : ObjectMeta)
      → (m.owner_references ≡ []) × (m.namespace ≡ owner.namespace)
      → (refs : List OwnerReference) × (W.set_controller_reference owner m
          ≡ (record m { owner_references = refs }, none))
        × (W.set_controller_reference owner (record m { owner_references = refs })
            ≡ (record m { owner_references = refs }, none))

abbrev pub AreIa5 : World → List String → Type 0
AreIa5 W [] = Unit
AreIa5 W (name ∷ names) = (W.is_ia5 name ≡ true) × AreIa5 W names

-- A certificate for `key`, made from a template and signed by `signer`: it has the template's names
-- and usages, and its end rounded down to a second at most.
pub record IsCertified (W : World) (tmpl : Certificate) (key signer : W.PrivateKey)
    (cert : Certificate) : Type 0 where
  pub matches : W.IsMatching key cert
  pub signed : W.IsSignedBy cert signer
  pub common_name : cert.common_name ≡ tmpl.common_name
  pub dns_names : cert.dns_names ≡ tmpl.dns_names
  pub key_usage : cert.key_usage ≡ tmpl.key_usage
  pub ext_key_usage : cert.ext_key_usage ≡ tmpl.ext_key_usage
  pub lasts : tmpl.not_after <ℤ cert.not_after +ℤ pos 1000000000

-- The libraries of certificates: keys and serial numbers are made, a certificate is made from a
-- template with names in ASCII, if it is its own parent or the signer's key is the parent's, and PEM
-- and PKCS#1 give back what they encode. None of it touches the cluster.
pub record IsTrusted (W : World) (peek : View W) : Type 0 where
  pub generate_key_lem :
      (s : W.State)
      → (key : W.PrivateKey) × (t : W.State) × (W.generate_key s ≡ (ok key, t))
        × IsUnchanged W peek s t
  pub random_serial_lem :
      (s : W.State)
      → (serial : ℕ) × (t : W.State) × (W.random_serial s ≡ (ok serial, t)) × IsUnchanged W peek s t
  pub create_certificate_lem :
      (tmpl parent : Certificate) (key signer : W.PrivateKey) (s : W.State)
      → (parent ≡ tmpl) ⊎ W.IsMatching signer parent
      → AreIa5 W tmpl.dns_names
      → (der : Bytes) × (cert : Certificate) × (t : W.State) × (W.create_certificate tmpl parent key
            signer s
          ≡ (ok der, t))
        × IsUnchanged W peek s t
        × (W.parse_certificate der ≡ ok cert)
        × IsCertified W tmpl key signer cert
  pub pem_lem : (type : String) (der : Bytes) → W.pem_decode (W.pem_encode type der) ≡ some der
  pub private_key_lem :
      (key : W.PrivateKey) → W.parse_private_key (W.marshal_private_key key) ≡ ok key
