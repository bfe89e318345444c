-- ===== src/Kube/Workload.antt =====
-- corev1 and appsv1: pods and stateful sets.
use build_operator.Prelude.{String, Bool, Option, List, Dict}
use build_operator.Prelude.Int.{ℤ}
use build_operator.Kube.Meta.{ObjectMeta}
use build_operator.Kube.Storage.{Quantity}

-- Values that the source only copies, by their manifests.
pub record Toleration : Type 0 where
  pub manifest : String

pub record Affinity : Type 0 where
  pub manifest : String

pub record ResourceRequirements : Type 0 where
  pub limits : Dict Quantity
  pub requests : Dict Quantity
  pub claims : List String

pub record PodSecurityContext : Type 0 where
  pub run_as_non_root : Option Bool
  pub run_as_user : Option ℤ
  pub run_as_group : Option ℤ
  pub fs_group : Option ℤ

pub record SecurityContext : Type 0 where
  pub run_as_non_root : Option Bool
  pub run_as_user : Option ℤ
  pub run_as_group : Option ℤ
  pub seccomp_profile : Option String
  pub app_armor_profile : Option String

pub record KeyToPath : Type 0 where
  pub key : String
  pub path : String

pub data VolumeSource : Type 0 where
  config_map : String → VolumeSource
  secret : String → VolumeSource
  persistent_volume_claim : String → VolumeSource
  empty_dir : VolumeSource
  projected_secret : String → List KeyToPath → VolumeSource

pub record Volume : Type 0 where
  pub name : String
  pub source : VolumeSource

pub record VolumeMount : Type 0 where
  pub name : String
  pub mount_path : String
  pub read_only : Bool

pub record ContainerPort : Type 0 where
  pub name : String
  pub container_port : ℤ

-- A probe by a TCP socket.
pub record Probe : Type 0 where
  pub tcp_port : ℤ
  pub initial_delay_seconds : ℤ
  pub period_seconds : ℤ

pub record Container : Type 0 where
  pub name : String
  pub image : String
  pub args : List String
  pub security_context : SecurityContext
  pub ports : List ContainerPort
  pub resources : ResourceRequirements
  pub volume_mounts : List VolumeMount
  pub liveness_probe : Probe
  pub readiness_probe : Probe

pub record PodSpec : Type 0 where
  pub security_context : PodSecurityContext
  pub node_selector : Dict String
  pub tolerations : Option (List Toleration)
  pub affinity : Option Affinity
  pub volumes : List Volume
  pub restart_policy : String
  pub image_pull_secrets : List String
  pub containers : List Container

pub record PodTemplate : Type 0 where
  pub labels : Dict String
  pub spec : PodSpec

pub record StatefulSet : Type 0 where
  pub meta : ObjectMeta
  pub replicas : Option ℤ
  pub service_name : String
  pub match_labels : Dict String
  pub template : PodTemplate

pub record Pod : Type 0 where
  pub name : String
  pub labels : Dict String
  pub phase : String
  pub pod_ip : String
