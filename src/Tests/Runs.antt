-- ===== src/Tests/Runs.antt =====
-- Writes and reconciliations in the cluster in memory.
use mathlib.Core.Option.{some-injective}
use build_operator.Kube.Workload.{StatefulSet}
use build_operator.Controller.Metadata.{base_name}
use build_operator.Memory.{Cluster}
use build_operator.Prelude.{ap, ◌≡◌, refl}
use build_operator.Prelude.Int.{pos}
use build_operator.Error.{not_found, template_not_found}
use build_operator.Exec.{err}
use build_operator.Kube.Meta.{key_of}
use build_operator.Controller.Objects.{headless_service_for_builder, stateful_set_for_builder}
use build_operator.Controller.Upsert.{
  create_or_update_service, create_or_update_pvc, create_or_update_stateful_set,
}
use build_operator.Controller.Upsert.Effects.{
  at_existing, create_or_update_service-stores, create_or_update_pvc-keeps,
  create_or_update_stateful_set-stores,
}
use build_operator.Controller.Reconcile.{reconcile}
use build_operator.Controller.Reconcile.Again.{after_requests}
use build_operator.Controller.Reconcile.Stuck.{reconcile_stuck}
use build_operator.Controller.Upsert.Effects.{Claimed}
use build_operator.World.{service, claim, stateful_set}
use build_operator.World.Laws.{IsStored, IsUnchanged}
use build_operator.Memory.{memory}
use build_operator.Memory.Objects.{read, put, write_at}
use build_operator.Memory.Laws.{peek, reliable_memory}
use build_operator.Tests.Samples.{
  sleepy_builder, lost_builder, template_spec, empty_cluster, with_builder, sample_claim,
}

create_or_update_service-stores_example :
    let svc = headless_service_for_builder sleepy_builder in
    IsStored memory peek service
      (at_existing svc (peek service (key_of svc.meta) empty_cluster))
      empty_cluster
      (create_or_update_service memory svc empty_cluster)
create_or_update_service-stores_example =
    create_or_update_service-stores memory reliable_memory
      (headless_service_for_builder sleepy_builder) empty_cluster

create_or_update_pvc-keeps_example :
    Claimed memory reliable_memory sample_claim empty_cluster
      (create_or_update_pvc memory sample_claim empty_cluster)
      (peek claim (key_of sample_claim.meta) empty_cluster)
create_or_update_pvc-keeps_example =
    create_or_update_pvc-keeps memory reliable_memory sample_claim empty_cluster

-- The stateful set is there, asleep.
abbrev asleep : StatefulSet
asleep = stateful_set_for_builder memory sleepy_builder template_spec (pos 0)

abbrev asleep_cluster : Cluster
asleep_cluster = record empty_cluster { objects = put stateful_set asleep empty_cluster.objects }

create_or_update_stateful_set-stores_example :
    let sts = stateful_set_for_builder memory sleepy_builder template_spec (pos 1) in
    IsStored memory peek stateful_set sts asleep_cluster
      (create_or_update_stateful_set memory sts asleep_cluster)
unfolding read put write_at stateful_set_for_builder base_name
create_or_update_stateful_set-stores_example =
    create_or_update_stateful_set-stores memory reliable_memory
      (stateful_set_for_builder memory sleepy_builder template_spec (pos 1)) asleep_cluster
      λ old there.
        let same : asleep ≡ old = some-injective asleep old there in
        (
          ap (λ (o : StatefulSet). o.match_labels) same,
          ap (λ (o : StatefulSet). o.service_name) same,
        )

-- After three requests for it.
reconcile_stuck_example :
    ((reconcile memory
        (record { namespace = "ci"; name = "lost" })
        (after_requests memory reliable_memory 3
          (record { namespace = "ci"; name = "lost" })
          (with_builder lost_builder))).0
      ≡ err (template_not_found "gone" "ci" not_found))
    × IsUnchanged memory peek
        (with_builder lost_builder)
        (reconcile memory
          (record { namespace = "ci"; name = "lost" })
          (after_requests memory reliable_memory 3
            (record { namespace = "ci"; name = "lost" })
            (with_builder lost_builder))).1
unfolding read put write_at
reconcile_stuck_example =
    reconcile_stuck memory reliable_memory (record { namespace = "ci"; name = "lost" }) lost_builder
      "gone" 3 (with_builder lost_builder) (record { stored = refl; ref = refl; gone = refl })
