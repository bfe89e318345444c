-- ===== src/Memory/Objects.antt =====
-- Objects by kind and key, for the cluster in memory.
use build_operator.Prelude.{
  eq_iff, ◌≡◌, ◌≢◌, refl, ◌⊎◌, inl, inr, ◌↔◌, true, false, Option, none, some, arith, if◌then◌else◌,
}
use build_operator.Kube.Meta.{Key, same_key}
use build_operator.World.{
  Kind, Object, service, claim, config_map, secret, stateful_set, ingress_route, builder, template,
}
use build_operator.World.Laws.{object_key}

pub record Store : Type 0 where
  pub at : (k : Kind) → Key → Option (Object k)

same_key_iff : (a b : Key) → (same_key a b ≡ true) ↔ (a ≡ b)
same_key_iff a b = ground (arith, eq_iff a.namespace b.namespace, eq_iff a.name b.name)

-- A write of `v` at one kind and key.
unfoldable pub write_at :
    (k : Kind) → Key → Option (Object k) → Store → (j : Kind) → Key → Option (Object j)
write_at service key v st service other = if same_key key other then v else st.at service other
write_at claim key v st claim other = if same_key key other then v else st.at claim other
write_at config_map key v st config_map other =
    if same_key key other then v else st.at config_map other
write_at secret key v st secret other = if same_key key other then v else st.at secret other
write_at stateful_set key v st stateful_set other =
    if same_key key other then v else st.at stateful_set other
write_at ingress_route key v st ingress_route other =
    if same_key key other then v else st.at ingress_route other
write_at builder key v st builder other = if same_key key other then v else st.at builder other
write_at template key v st template other = if same_key key other then v else st.at template other
write_at _ key v st j other = st.at j other

keyed : (k : Kind) → Key → Option (Object k) → Option (Object k)
keyed k key none = none
keyed k key (some o) = if same_key (object_key k o) key then some o else none

-- The object at a key, if it is one of that key.
unfoldable pub read : (k : Kind) → Key → Store → Option (Object k)
unfolding keyed
read k key st = keyed k key (st.at k key)

unfoldable pub put : (k : Kind) → Object k → Store → Store
unfolding write_at
put k o st = record { at = write_at k (object_key k o) (some o) st }

unfoldable pub drop : (k : Kind) → Key → Store → Store
unfolding write_at
drop k key st = record { at = write_at k key none st }

same_key_refl : (key : Key) → same_key key key ≡ true
same_key_refl key = (same_key_iff key key).1 refl

write_at_self :
    (k : Kind) (key : Key) (v : Option (Object k)) (st : Store) → write_at k key v st k key ≡ v
unfolding write_at
write_at_self service key v st = rw same_key_refl
write_at_self claim key v st = rw same_key_refl
write_at_self config_map key v st = rw same_key_refl
write_at_self secret key v st = rw same_key_refl
write_at_self stateful_set key v st = rw same_key_refl
write_at_self ingress_route key v st = rw same_key_refl
write_at_self builder key v st = rw same_key_refl
write_at_self template key v st = rw same_key_refl

same_key-ne : (key other : Key) → other ≢ key → same_key key other ≡ false
same_key-ne key other h = ground (arith, same_key_iff key other)

-- At one kind, a write shows at its key only.
abbrev Off : (k j : Kind) → Key → Key → Type 0
Off k j key other = (j ≢ k) ⊎ (other ≢ key)

misses : {k : Kind} {key other : Key} → Off k k key other → same_key key other ≡ false
misses (inl h) = absurd (h refl)
misses (inr h) = same_key-ne _ _ h

write_at_other :
    (k : Kind) (key : Key) (v : Option (Object k)) (st : Store) (j : Kind) (other : Key)
    → Off k j key other
    → write_at k key v st j other ≡ st.at j other
unfolding write_at
write_at_other service key v st service other h = rw (misses h)
write_at_other claim key v st claim other h = rw (misses h)
write_at_other config_map key v st config_map other h = rw (misses h)
write_at_other secret key v st secret other h = rw (misses h)
write_at_other stateful_set key v st stateful_set other h = rw (misses h)
write_at_other ingress_route key v st ingress_route other h = rw (misses h)
write_at_other builder key v st builder other h = rw (misses h)
write_at_other template key v st template other h = rw (misses h)
write_at_other _ key v st j other h = refl

pub read-put :
    (k : Kind) (o : Object k) (st : Store) → read k (object_key k o) (put k o st) ≡ some o
unfolding read put keyed
read-put k o st = rw (write_at_self k (object_key k o) (some o) st, same_key_refl)

pub read-put-other :
    (k : Kind) (o : Object k) (st : Store) (j : Kind) (other : Key)
    → Off k j (object_key k o) other
    → read j other (put k o st) ≡ read j other st
unfolding read put
read-put-other k o st j other h = rw (write_at_other k (object_key k o) (some o) st j other h)

pub read-drop : (k : Kind) (key : Key) (st : Store) → read k key (drop k key st) ≡ none
unfolding read drop keyed
read-drop k key st = rw (write_at_self k key none st)

pub read-drop-other :
    (k : Kind) (key : Key) (st : Store) (j : Kind) (other : Key)
    → Off k j key other
    → read j other (drop k key st) ≡ read j other st
unfolding read drop
read-drop-other k key st j other h = rw (write_at_other k key none st j other h)

keyed-key :
    (k : Kind) (key : Key) (v : Option (Object k)) {o : Object k}
    → keyed k key v ≡ some o
    → object_key k o ≡ key
unfolding keyed
keyed-key k key none h = ground arith
keyed-key k key (some p) {o} h = ground (arith, same_key_iff (object_key k p) key)

pub read-key :
    (k : Kind) (key : Key) (st : Store) {o : Object k}
    → read k key st ≡ some o
    → object_key k o ≡ key
unfolding read
read-key k key st h = keyed-key k key (st.at k key) h
