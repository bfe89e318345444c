-- ===== src/Controller/Endpoint.antt =====
-- `resolveStatefulSetEndpoint` and `resolveNodePort` of helpers.go.
pub mod Counting
use build_operator.Prelude.{
  String, ◌<>◌, ◌==◌, Bool, ◌&&◌, not, Option, List, [], ◌∷◌, if◌then◌else◌,
}
use build_operator.Prelude.Int.{ℤ, pos, ltb_ℤ, increment32}
use build_operator.Exec.{Result, ok, err, Exec, pure, attempt, ◌>>=◌}
use build_operator.Kube.Network.{Service, ServicePort}
use build_operator.Kube.Workload.{Pod}
use build_operator.Builder.{BuildkitBuilder}
use build_operator.Controller.Metadata.{label_key_builder_name, client_name}
use build_operator.World.{World, Kind, service}

-- `p.Status.Phase == corev1.PodRunning && p.Status.PodIP != ""`
unfoldable pub is_serving : Pod → Bool
is_serving p = p.phase == "Running" && not (p.pod_ip == "")

abbrev pub pod_endpoint : Pod → String
pod_endpoint p = "tcp://" <> (p.pod_ip <> ":1234")

-- The loop over the pods, from the endpoint and the count so far.
unfoldable pub scan_pods : String → ℤ → List Pod → String × ℤ
unfolding is_serving increment32
scan_pods endpoint ready [] = (endpoint, ready)
scan_pods endpoint ready (p ∷ pods) =
    scan_pods
      (if is_serving p then (if endpoint == "" then pod_endpoint p else endpoint) else endpoint)
      (if is_serving p then increment32 ready else ready) pods

-- The loop over the ports of the client service.
unfoldable pub node_port_of : List ServicePort → ℤ
node_port_of [] = pos 0
node_port_of (p ∷ ports) =
    if p.name == "buildkit" && ltb_ℤ (pos 0) p.node_port then p.node_port else node_port_of ports

found_node_port : Result Service → ℤ
unfolding node_port_of
found_node_port (ok svc) = node_port_of svc.ports
found_node_port (err e) = pos 0

module _ (W : World) where
  -- `resolveStatefulSetEndpoint`: the endpoint and the ready replicas
  unfoldable pub resolve_stateful_set_endpoint : BuildkitBuilder → Exec W.State (String × ℤ)
  unfolding scan_pods
  resolve_stateful_set_endpoint b = do
    pods ← W.list_pods b.meta.namespace ((label_key_builder_name, b.meta.name) ∷ [])
    pure (scan_pods "" (pos 0) pods)

  -- `resolveNodePort`: every error reads as no port
  unfoldable pub resolve_node_port : BuildkitBuilder → Exec W.State ℤ
  unfolding found_node_port
  resolve_node_port b = do
    got ← attempt (W.get service (record { namespace = b.meta.namespace; name = client_name b }))
    pure (found_node_port got)
