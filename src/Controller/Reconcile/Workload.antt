-- ===== src/Controller/Reconcile/Workload.antt =====
-- The stateful set that a reconciliation leaves behind, in a reliable cluster.
use build_operator.Prelude.{◌≡◌, refl, sym, ap, ◌∙◌, some}
use build_operator.Prelude.Int.{ℤ}
use build_operator.Exec.{ok, ◌>>=◌}
use build_operator.Kube.Meta.{new_meta}
use build_operator.Kube.Workload.{StatefulSet}
use build_operator.Template.{BuildkitBuilderTemplateSpec}
use build_operator.Builder.{BuildkitBuilder}
use build_operator.Controller.Metadata.{base_name}
use build_operator.Controller.Objects.{stateful_set_for_builder}
use build_operator.Controller.Upsert.{own}
use build_operator.Controller.Upsert.Effects.{create_or_update_stateful_set-stores}
use build_operator.Controller.Reconcile.{ensure_stateful_set}
use build_operator.Controller.Reconcile.SetUp.{in_namespace}
use build_operator.World.{World, stateful_set}
use mathlib.Core.Option.{some-injective}
use build_operator.World.Held.{Holds}
use build_operator.Controller.Labels.{labels_for_builder}
use build_operator.World.Laws.{IsReliable, IsOwning, IsPut}

module _ (W : World) (R : IsReliable W) where
  -- The builder's stateful set is absent, or has the selector and the service name of the builder,
  -- which may not change.
  abbrev pub IsUpdatable : BuildkitBuilder → W.State → Type 0
  IsUpdatable b s =
      (old : StatefulSet)
      → R.peek stateful_set (in_namespace b (base_name b)) s ≡ some old
      → (labels_for_builder b b.spec.mode ≡ old.match_labels) × (base_name b ≡ old.service_name)

  -- The stateful set of a builder with so many replicas.
  abbrev pub Runs : BuildkitBuilder → BuildkitBuilderTemplateSpec → ℤ → StatefulSet → Type 0
  Runs b spec n p =
      (p.replicas ≡ some n)
      × (p.service_name ≡ base_name b)
      × (p.match_labels ≡ labels_for_builder b b.spec.mode)
      × (p.template ≡ (stateful_set_for_builder W b spec n).template)

  -- One that runs can be updated.
  pub Runs-IsUpdatable :
      (b : BuildkitBuilder) (spec : BuildkitBuilderTemplateSpec) (n : ℤ) (t : W.State)
      → Holds W R.peek stateful_set (in_namespace b (base_name b)) (Runs b spec n) t
      → IsUpdatable b t
  Runs-IsUpdatable b spec n t (p, there, runs) old stored =
      let same : p ≡ old = some-injective p old (sym there ∙ stored) in
      (
        sym runs.2 ∙ ap (λ (o : StatefulSet). o.match_labels) same,
        sym runs.1 ∙ ap (λ (o : StatefulSet). o.service_name) same,
      )

  replicas_of :
      (b : BuildkitBuilder) (spec : BuildkitBuilderTemplateSpec) (n : ℤ)
      → (stateful_set_for_builder W b spec n).replicas ≡ some n
  unfolding stateful_set_for_builder
  replicas_of b spec n = refl

  owned_twice :
      (b : BuildkitBuilder) (spec : BuildkitBuilderTemplateSpec) (n : ℤ) (O : IsOwning W b.meta)
      → own W b (stateful_set_for_builder W b spec n).meta
        ≡ ok (record (new_meta b.meta.namespace (base_name b)) {
          owner_references = (O.accepted (new_meta b.meta.namespace (base_name b)) (refl, refl)).0;
        })
  unfolding stateful_set_for_builder own
  owned_twice b spec n O =
      let (refs, once, twice) = O.accepted (new_meta b.meta.namespace (base_name b)) (refl, refl) in
      rw once (rw (own, twice) (ap (λ p. ok p.0) twice))

  pub ensure_stateful_set-Runs :
      (b : BuildkitBuilder) (spec : BuildkitBuilderTemplateSpec) (n : ℤ) (s : W.State)
      → IsOwning W b.meta
      → IsUpdatable b s
      → IsPut W R.peek stateful_set
          (in_namespace b (base_name b))
          (Runs b spec n)
          s
          (ensure_stateful_set W b spec n s)
  unfolding ensure_stateful_set stateful_set_for_builder ◌>>=◌
  ensure_stateful_set-Runs b spec n s O updatable = rw (owned_twice b spec n O) (
      let p =
        create_or_update_stateful_set-stores W R
          (record (stateful_set_for_builder W b spec n) {
            meta = record (new_meta b.meta.namespace (base_name b)) {
              owner_references =
                  (O.accepted (new_meta b.meta.namespace (base_name b)) (refl, refl)).0;
            };
          })
          s updatable in
      record {
        succeeds = p.succeeds;
        object = p.object;
        present = p.present;
        agrees = p.agrees;
        frame = p.frame;
      })
