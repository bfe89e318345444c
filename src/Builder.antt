-- ===== src/Builder.antt =====
-- api/v1alpha1/buildkitbuilder_types.go
pub mod Webhook
use build_operator.Prelude.{String, Bool, Option, List, Dict}
use build_operator.Prelude.Int.{ℤ}
use build_operator.Kube.Meta.{ObjectMeta, Condition, Instant}
use build_operator.Template.{BuildkitBuilderTemplateSpec}

-- A Go string type: any text may occur, whatever the CRD's enumeration says.
abbrev pub BuilderMode : Type 0
BuilderMode = String

abbrev pub mode_persistent : BuilderMode
mode_persistent = "persistent"

abbrev pub mode_sleepy : BuilderMode
mode_sleepy = "sleepy"

abbrev pub IngressControllerType : Type 0
IngressControllerType = String

abbrev pub ingress_controller_traefik : IngressControllerType
ingress_controller_traefik = "traefik"

pub record ExposureConfig : Type 0 where
  pub enabled : Bool
  pub host : String
  pub ingress_controller : IngressControllerType
  pub entry_point : String
  pub annotations : Dict String

pub record BuildkitBuilderSpec : Type 0 where
  pub template_ref : Option String
  pub template : Option BuildkitBuilderTemplateSpec
  pub mode : BuilderMode
  -- int32
  pub replicas : Option ℤ
  -- int32
  pub idle_timeout_seconds : Option ℤ
  pub labels : Dict String
  pub exposure : Option ExposureConfig

pub record BuildkitBuilderStatus : Type 0 where
  pub endpoint : String
  pub node_port : ℤ
  pub external_endpoint : String
  pub tls_secret_name : String
  pub conditions : List Condition
  pub phase : String
  pub ready_replicas : ℤ
  pub desired_replicas : ℤ
  pub last_scaled_at : Option Instant

abbrev pub condition_ready : String
condition_ready = "Ready"

abbrev pub condition_endpoint : String
condition_endpoint = "Endpoint"

abbrev pub condition_last_scaled : String
condition_last_scaled = "LastScaled"

pub record BuildkitBuilder : Type 0 where
  pub meta : ObjectMeta
  pub spec : BuildkitBuilderSpec
  pub status : BuildkitBuilderStatus
