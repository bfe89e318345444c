-- ===== src/Template.antt =====
-- api/buildertemplate/v1alpha1/buildkitbuildertemplate_types.go
pub mod Webhook
use build_operator.Prelude.{String, Bool, Option, List, Dict}
use build_operator.Kube.Meta.{ObjectMeta}
use build_operator.Kube.Workload.{ResourceRequirements, Toleration, Affinity}

-- A Go string type: any text may occur, whatever the CRD's enumeration says.
abbrev pub CacheType : Type 0
CacheType = String

abbrev pub cache_type_pvc : CacheType
cache_type_pvc = "pvc"

abbrev pub cache_type_none : CacheType
cache_type_none = "none"

abbrev pub cache_type_s3 : CacheType
cache_type_s3 = "s3"

pub record PvcConfig : Type 0 where
  pub storage_class_name : String
  pub size : String
  pub access_modes : List String

pub record S3Config : Type 0 where
  pub bucket : String
  pub region : String
  pub endpoint : String
  -- The secret's name.
  pub secret_ref : Option String

pub record CacheConfig : Type 0 where
  pub type : CacheType
  pub pvc : Option PvcConfig
  pub s3 : Option S3Config

pub record BuildkitBuilderTemplateSpec : Type 0 where
  pub buildkit_image : String
  pub rootless : Bool
  pub resources : ResourceRequirements
  pub node_selector : Option (Dict String)
  pub tolerations : Option (List Toleration)
  pub affinity : Option Affinity
  pub buildkitd_toml : String
  pub cache_config : CacheConfig
  pub arch : String

pub record BuildkitBuilderTemplate : Type 0 where
  pub meta : ObjectMeta
  pub spec : BuildkitBuilderTemplateSpec
