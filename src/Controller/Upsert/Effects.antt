-- ===== src/Controller/Upsert/Effects.antt =====
-- What the create-or-update calls leave in a reliable cluster.
use build_operator.Prelude.{◌≡◌, refl, Option, none, some, inl, inr, Option-cases}
use build_operator.Exec.{Result, ok, ◌>>=◌}
use build_operator.Kube.Meta.{key_of}
use build_operator.Kube.Network.{Service, IngressRoute}
use build_operator.Kube.Storage.{PersistentVolumeClaim}
use build_operator.Kube.Workload.{StatefulSet}
use build_operator.Controller.Upsert.{
  create_or_update_service, create_or_update_pvc, create_or_update_stateful_set,
  create_or_update_ingress_route,
}
use build_operator.Error.{is_not_found}
use build_operator.World.{World, service, claim, stateful_set, ingress_route}
use build_operator.World.Laws.{IsReliable, IsStored, MayReplace}

-- The service that `createOrUpdateService` writes, up to its resource version.
abbrev pub at_existing : Service → Option Service → Service
at_existing svc none = svc
at_existing svc (some old) = record svc { cluster_ip = old.cluster_ip }

module _ (W : World) (R : IsReliable W) where
  -- The stateful set is absent, or there with the selector and the service name of the desired one.
  abbrev pub IsReplaceable : StatefulSet → W.State → Type 0
  IsReplaceable sts s =
      (old : StatefulSet)
      → R.peek stateful_set (key_of sts.meta) s ≡ some old
      → MayReplace stateful_set old sts

  -- In a cluster with one writer, whose API server finds no object invalid, the call succeeds if
  -- the stateful set is absent, or there with the desired selector and service name, which may not
  -- change. It leaves one with the desired replicas, service name, selector and pod template at its
  -- key, and changes nothing else.
  pub create_or_update_stateful_set-stores :
      (sts : StatefulSet) (s : W.State)
      → IsReplaceable sts s
      → IsStored W R.peek stateful_set sts s (create_or_update_stateful_set W sts s)
  unfolding create_or_update_stateful_set ◌>>=◌ is_not_found
  create_or_update_stateful_set-stores sts s same =
      rw R.get_lem (elim (Option-cases (R.peek stateful_set (key_of sts.meta) s)) [
        | inl missing ↦ rw missing (R.create_lem stateful_set sts s missing)
        | inr (old, there) ↦
            let u =
              R.update_lem stateful_set
                (record sts {
                  meta = record sts.meta { resource_version = old.meta.resource_version };
                })
                old s there refl (same old there) in
            rw there (record {
              succeeds = u.succeeds;
              object = u.object;
              present = u.present;
              agrees = u.agrees;
              frame = u.frame;
            })
      ])

  -- In a cluster with one writer, whose API server finds no object invalid, the call succeeds,
  -- whether the route was there or not. It leaves one with the desired routes, entry points and
  -- passthrough at its key, and changes nothing else.
  pub create_or_update_ingress_route-stores :
      (route : IngressRoute) (s : W.State)
      → IsStored W R.peek ingress_route route s (create_or_update_ingress_route W route s)
  unfolding create_or_update_ingress_route ◌>>=◌ is_not_found
  create_or_update_ingress_route-stores route s =
      rw R.get_lem (elim (Option-cases (R.peek ingress_route (key_of route.meta) s)) [
        | inl missing ↦ rw missing (R.create_lem ingress_route route s missing)
        | inr (old, there) ↦
            let u =
              R.update_lem ingress_route
                (record route {
                  meta = record route.meta { resource_version = old.meta.resource_version };
                })
                old s there refl tt in
            rw there (record {
              succeeds = u.succeeds;
              object = u.object;
              present = u.present;
              agrees = u.agrees;
              frame = u.frame;
            })
      ])

  -- In a cluster with one writer, whose API server finds no object invalid, the call succeeds,
  -- whether the service was there or not. It leaves one with the desired selector at its key, and
  -- with the desired type if one is given. A service that was there keeps its cluster IP if it had
  -- one, and a new one has the desired one if that is given. Nothing else changes.
  pub create_or_update_service-stores :
      (svc : Service) (s : W.State)
      → IsStored W R.peek service
          (at_existing svc (R.peek service (key_of svc.meta) s))
          s
          (create_or_update_service W svc s)
  unfolding create_or_update_service ◌>>=◌ is_not_found
  create_or_update_service-stores svc s =
      rw R.get_lem (elim (Option-cases (R.peek service (key_of svc.meta) s)) [
        | inl missing ↦ rw missing (R.create_lem service svc s missing)
        | inr (old, there) ↦
            let u =
              R.update_lem service
                (record svc {
                  meta = record svc.meta { resource_version = old.meta.resource_version };
                  cluster_ip = old.cluster_ip;
                })
                old s there refl refl in
            rw there (record {
              succeeds = u.succeeds;
              object = u.object;
              present = u.present;
              agrees = u.agrees;
              frame = u.frame;
            })
      ])

  -- What a create-or-update of a claim leaves behind, by what was there.
  abbrev pub Claimed :
      PersistentVolumeClaim
      → W.State
      → Result (Unit {0}) × W.State
      → Option PersistentVolumeClaim
      → Type 0
  Claimed pvc s r (some old) = r ≡ (ok tt, s)
  Claimed pvc s r none = IsStored W R.peek claim pvc s r

  -- In a cluster with one writer, whose API server finds no object invalid, the call succeeds. A
  -- claim that is there is left as it is, and the whole cluster with it; one that is not there is
  -- made, with the desired access modes and requests, and nothing else changes.
  pub create_or_update_pvc-keeps :
      (pvc : PersistentVolumeClaim) (s : W.State)
      → Claimed pvc s (create_or_update_pvc W pvc s) (R.peek claim (key_of pvc.meta) s)
  unfolding create_or_update_pvc ◌>>=◌ is_not_found
  create_or_update_pvc-keeps pvc s =
      rw R.get_lem (elim (Option-cases (R.peek claim (key_of pvc.meta) s)) [
        | inl missing ↦ rw missing (R.create_lem claim pvc s missing)
        | inr (old, there) ↦ rw there
      ])
