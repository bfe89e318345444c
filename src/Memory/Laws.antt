-- ===== src/Memory/Laws.antt =====
-- The cluster in memory obeys the laws that the theorems assume.
use build_operator.Prelude.{
  sym, ◌∙◌, eq_iff, ◌≡◌, refl, ap, inl, inr, Option-cases, none, some, arith,
}
use build_operator.Prelude.Int.{ℤ, pos, ◌+ℤ◌, ◌<ℤ◌, +ℤ_parts}
use build_operator.Exec.{Result, ok}
use build_operator.Kube.Meta.{ObjectMeta, Key, key_of}
use build_operator.Builder.{BuildkitBuilder}
use build_operator.World.{
  Kind, Object, meta_of, service, claim, config_map, secret, stateful_set, ingress_route, builder,
  template,
}
use build_operator.World.Laws.{
  Agrees, MayReplace, Kept, object_key, View, OnlyAt, IsStored, IsRemoved, IsReliable, IsOwning,
  IsTrusted,
}
use build_operator.Memory.Objects.{
  read, put, read-put, read-put-other, read-drop, read-drop-other, read-key,
}
use build_operator.Memory.Toys.{toy_certificate, encode_certificate, decode-encode}
use build_operator.Memory.{
  Cluster, memory, create_at, update_at, delete_at, status_at, own_meta, decode_pem, decode_key,
}

Agrees-refl : (k : Kind) (o : Object k) → Agrees k o o
Agrees-refl service o = ((λ _. refl), refl, λ _. refl)
Agrees-refl claim o = (refl, refl)
Agrees-refl config_map o = refl
Agrees-refl secret o = (refl, refl)
Agrees-refl stateful_set o = (refl, refl, refl, refl)
Agrees-refl ingress_route o = (refl, refl, refl)
Agrees-refl builder o = refl
Agrees-refl template o = refl

abbrev pub peek : View memory
peek k key s = read k key s.objects

put-IsStored :
    (k : Kind) (o : Object k) (s : Cluster) (r : Result (Unit {0}) × Cluster)
    → r ≡ (ok tt, record s { objects = put k o s.objects })
    → IsStored memory peek k o s r
put-IsStored k o s r e = record {
  succeeds = ap (λ x. x.0) e;
  object = o;
  present = rw e (read-put k o s.objects);
  agrees = Agrees-refl k o;
  frame = λ j other off. rw e (read-put-other k o s.objects j other off);
}

pub memory-create :
    (k : Kind) (o : Object k) (s : Cluster)
    → peek k (object_key k o) s ≡ none
    → IsStored memory peek k o s (memory.create k o s)
unfolding create_at
memory-create k o s h = put-IsStored k o s _ (rw h)

pub memory-update :
    (k : Kind) (o old : Object k) (s : Cluster)
    → peek k (object_key k o) s ≡ some old
    → (meta_of k o).resource_version ≡ (meta_of k old).resource_version
    → MayReplace k old o
    → IsStored memory peek k o s (memory.update k o s)
unfolding update_at
memory-update k o old s h v same =
    put-IsStored k o s _
      (rw (h, (eq_iff (meta_of k o).resource_version (meta_of k old).resource_version).1 v))

pub memory-delete :
    (k : Kind) (key : Key) (s : Cluster) → IsRemoved memory peek k key s (memory.delete k key s)
unfolding delete_at
memory-delete k key s = elim (Option-cases (peek k key s)) [
  | inl h ↦ record { answer = rw h; absent = rw h h; frame = λ j other off. rw h }
  | inr (old, h) ↦ record {
    answer = rw h;
    absent = rw h (read-drop k key s.objects);
    frame = λ j other off. rw h (read-drop-other k key s.objects j other off);
  }
]

pub memory-update_status :
    (b old : BuildkitBuilder) (s : Cluster)
    → peek builder (key_of b.meta) s ≡ some old
    → ((memory.update_status b s).0 ≡ ok tt)
      × ((new : BuildkitBuilder) × (peek builder (key_of b.meta) (memory.update_status b s).1
            ≡ some new)
          × Kept old new)
      × OnlyAt memory peek builder (key_of b.meta) s (memory.update_status b s).1
unfolding status_at
memory-update_status b old s h = (
  rw h,
  (
    record old { status = b.status },
    rw h (
        ap (λ x. read builder x (put builder (record old { status = b.status }) s.objects))
          (sym (read-key builder (key_of b.meta) s.objects h))
        ∙ read-put builder (record old { status = b.status }) s.objects),
    (refl, refl),
  ),
  λ j other off. rw h (
      read-put-other builder (record old { status = b.status }) s.objects j other
        (rw (read-key builder (key_of b.meta) s.objects h) off)),
)

abbrev pub reliable_memory : IsReliable memory
reliable_memory = record {
  peek = peek;
  get_lem = λ k key s. refl;
  key_lem = λ k key s h. read-key k key s.objects h;
  create_lem = memory-create;
  update_lem = memory-update;
  delete_lem = memory-delete;
  now_lem = λ s k key. refl;
  event_lem = λ b level reason e s k key. refl;
  pods = λ namespace labels s. s.pods;
  list_pods_lem = λ namespace labels s. refl;
  update_status_lem = memory-update_status;
}

pub memory-IsOwning : (owner : ObjectMeta) → IsOwning memory owner
memory-IsOwning owner = record {
  accepted = λ m h. ((own_meta owner m).0.owner_references, refl, refl);
}

later : (end : ℤ) → end <ℤ end +ℤ pos 1000000000
later end = ground (arith, +ℤ_parts end (pos 1000000000))

pub memory-IsTrusted : IsTrusted memory peek
unfolding toy_certificate decode_pem decode_key
memory-IsTrusted = record {
  generate_key_lem = λ s. (s.keys_made, _, refl, λ k key. refl);
  random_serial_lem = λ s. (s.keys_made, s, refl, λ k key. refl);
  create_certificate_lem = λ tmpl parent key signer s own names. (
    encode_certificate tmpl key signer,
    toy_certificate tmpl key signer,
    s,
    refl,
    λ k key. refl,
    decode-encode tmpl key signer,
    record {
      matches = refl;
      signed = refl;
      common_name = refl;
      dns_names = refl;
      key_usage = refl;
      ext_key_usage = refl;
      lasts = later tmpl.not_after;
    },
  );
  pem_lem = λ type der. refl;
  private_key_lem = λ key. refl;
}
