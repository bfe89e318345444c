-- ===== src/Kube/Network.antt =====
-- corev1.Service and Traefik's IngressRouteTCP.
use build_operator.Prelude.{String, Bool, List, Dict}
use build_operator.Prelude.Int.{ℤ}
use build_operator.Kube.Meta.{ObjectMeta}

pub record ServicePort : Type 0 where
  pub name : String
  pub port : ℤ
  pub target_port : ℤ
  pub node_port : ℤ

pub record Service : Type 0 where
  pub meta : ObjectMeta
  pub type : String
  pub cluster_ip : String
  pub selector : Dict String
  pub ports : List ServicePort

pub record RouteService : Type 0 where
  pub name : String
  pub port : ℤ

pub record Route : Type 0 where
  pub match : String
  pub services : List RouteService

-- The unstructured object, key by key.
pub record IngressRoute : Type 0 where
  pub api_version : String
  pub kind : String
  pub meta : ObjectMeta
  pub entry_points : List String
  pub routes : List Route
  pub passthrough : Bool
