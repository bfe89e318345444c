-- ===== src/Controller/Upsert/Owners.antt =====
-- Who owns the objects that the controller makes.
use build_operator.Prelude.{◌≡◌, ap, []}
use build_operator.Exec.{ok}
use build_operator.Kube.Meta.{ObjectMeta}
use build_operator.Builder.{BuildkitBuilder}
use build_operator.Controller.Upsert.{own}
use build_operator.World.{World}
use build_operator.World.Laws.{IsOwning}

module _ (W : World) where
  -- The owner is accepted on an object of its namespace that has no owner yet.
  pub owned :
      (b : BuildkitBuilder) (O : IsOwning W b.meta) (m : ObjectMeta)
      (h : (m.owner_references ≡ []) × (m.namespace ≡ b.meta.namespace))
      → own W b m ≡ ok (record m { owner_references = (O.accepted m h).0 })
  unfolding own
  owned b O m h = rw (own, (O.accepted m h).1) (ap (λ p. ok p.0) (O.accepted m h).1)
