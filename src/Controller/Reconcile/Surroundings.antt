-- ===== src/Controller/Reconcile/Surroundings.antt =====
-- What a reconciliation sets up before the stateful set, in a reliable cluster.
use build_operator.Prelude.{
  ◌==◌, ◌≡◌, ◌≢◌, refl, ap, ◌∙◌, some, [], ◌∷◌, inl, inr, Bool-cases, Option-cases,
}
use build_operator.Error.{is_not_found}
use build_operator.Exec.{Result, ok, ◌>>=◌}
use build_operator.Kube.Meta.{Key, key_of, new_meta}
use build_operator.Kube.Storage.{PersistentVolumeClaim, Quantity}
use build_operator.Template.{BuildkitBuilderTemplateSpec, CacheConfig, PvcConfig, cache_type_pvc}
use build_operator.Builder.{BuildkitBuilder}
use build_operator.Controller.Metadata.{config_map_name, cache_name}
use build_operator.Controller.Toml.{buildkitd_toml_for}
use build_operator.Controller.Objects.{pvc_for_builder}
use build_operator.Controller.Objects.Claims.{requested}
use build_operator.Controller.Upsert.{
  on_existing, create_or_update_pvc, ensure_buildkitd_config_map,
}
use build_operator.Controller.Upsert.Owners.{owned}
use build_operator.Controller.Upsert.Effects.{create_or_update_pvc-keeps}
use build_operator.Controller.Reconcile.{create_claim, ensure_claim}
use build_operator.World.{World, Kind, claim, config_map}
use build_operator.World.Held.{IsPut-key}
use build_operator.World.Laws.{IsReliable, IsOwning, IsPut}

module _ (W : World) (R : IsReliable W) where
  -- The state after an action that writes one kind of object.
  pub record IsDone (k : Kind) (s : W.State) (r : Result (Unit {0}) × W.State) : Type 0 where
    pub succeeds : r.0 ≡ ok tt
    pub others : (j : Kind) (key : Key) → j ≢ k → R.peek j key r.1 ≡ R.peek j key s

  pub put-IsDone :
      {k : Kind} {key : Key} {s : W.State} {r : Result (Unit {0}) × W.State} (P : _)
      → IsPut W R.peek k key P s r
      → IsDone k s r
  put-IsDone P p = record { succeeds = p.succeeds; others = λ j other ne. p.frame j other (inl ne) }

  -- In a cluster with one writer, whose API server finds no object invalid, where the builder is
  -- accepted as owner of the objects of its namespace without one, the call succeeds, whether the
  -- config map was there or not. It leaves one at the builder's name whose only entry is the
  -- builder's buildkitd.toml, and changes nothing else.
  pub ensure_buildkitd_config_map-stores :
      (b : BuildkitBuilder) (spec : BuildkitBuilderTemplateSpec) (s : W.State)
      → IsOwning W b.meta
      → IsPut W R.peek config_map
          (record { namespace = b.meta.namespace; name = config_map_name b })
          (λ cm. cm.contents ≡ ("buildkitd.toml", buildkitd_toml_for b spec) ∷ [])
          s
          (ensure_buildkitd_config_map W b spec s)
  unfolding ensure_buildkitd_config_map on_existing ◌>>=◌ is_not_found
  ensure_buildkitd_config_map-stores b spec s O =
      let key : Key = record { namespace = b.meta.namespace; name = config_map_name b } in
      let refs = (O.accepted (new_meta b.meta.namespace (config_map_name b)) (refl, refl)).0 in
      rw (owned W b O (new_meta b.meta.namespace (config_map_name b)) (refl, refl), R.get_lem)
        (elim (Option-cases (R.peek config_map key s)) [
          | inl missing ↦ rw missing (
              let p =
                R.create_lem config_map
                  (record {
                    meta = record (new_meta b.meta.namespace (config_map_name b)) {
                      owner_references = refs;
                    };
                    contents = ("buildkitd.toml", buildkitd_toml_for b spec) ∷ [];
                  })
                  s missing in
              record {
                succeeds = p.succeeds;
                object = p.object;
                present = p.present;
                agrees = p.agrees;
                frame = p.frame;
              })
          | inr (old, there) ↦
              let same = R.key_lem config_map key s there in
              let p =
                R.update_lem config_map
                  (record old { contents = ("buildkitd.toml", buildkitd_toml_for b spec) ∷ [] }) old
                  s (ap (λ x. R.peek config_map x s) same ∙ there) refl tt in
              rw there (
                IsPut-key W R _ same (record {
                  succeeds = p.succeeds;
                  object = p.object;
                  present = p.present;
                  agrees = p.agrees;
                  frame = p.frame;
                }))
        ])

  -- The size of the claim that the spec asks for, if it asks for one, is a quantity.
  abbrev pub IsSized : CacheConfig → Type 0
  IsSized cache =
      (config : PvcConfig)
      → cache.pvc ≡ some config
      → (size : Quantity) × (W.parse_quantity (requested config) ≡ some size)

  -- A claim that is there is left alone, and one that is not is made.
  claimed :
      (pvc : PersistentVolumeClaim) (s : W.State) → IsDone claim s (create_or_update_pvc W pvc s)
  claimed pvc s =
      let kept = create_or_update_pvc-keeps W R pvc s in
      elim (Option-cases (R.peek claim (key_of pvc.meta) s)) [
        | inl missing ↦ put-IsDone _ (rw missing at kept)
        | inr (old, there) ↦
            rw (rw there at kept) (record { succeeds = refl; others = λ j key ne. refl })
      ]

  create_claim-IsDone :
      (b : BuildkitBuilder) (config : PvcConfig) (size : Quantity) (s : W.State)
      → IsOwning W b.meta
      → W.parse_quantity (requested config) ≡ some size
      → IsDone claim s (create_claim W b config s)
  unfolding create_claim pvc_for_builder ◌>>=◌
  create_claim-IsDone b config size s O sized =
      rw (sized, owned W b O (new_meta b.meta.namespace (cache_name b)) (refl, refl)) (claimed _ s)

  pub ensure_claim-IsDone :
      (b : BuildkitBuilder) (cache : CacheConfig) (s : W.State)
      → IsOwning W b.meta
      → IsSized cache
      → IsDone claim s (ensure_claim W b cache s)
  unfolding ensure_claim ◌>>=◌
  ensure_claim-IsDone b cache s O sized = elim (Option-cases cache.pvc) [
    | inl absent ↦ rw absent (record { succeeds = refl; others = λ j key ne. refl })
    | inr (config, there) ↦
        let (size, parsed) = sized config there in
        rw there (elim (Bool-cases (cache.type == cache_type_pvc)) [
          | inl wanted ↦ rw wanted (create_claim-IsDone b config size s O parsed)
          | inr unwanted ↦ rw unwanted (record { succeeds = refl; others = λ j key ne. refl })
        ])
  ]
