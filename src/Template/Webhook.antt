-- ===== src/Template/Webhook.antt =====
-- api/buildertemplate/v1alpha1/buildkitbuildertemplate_webhook.go
pub mod Admission
pub mod Complete
use build_operator.Prelude.{
  String, ◌==◌, Option, none, some, List, [], ◌∷◌, is_empty, if◌then◌else◌,
}
use build_operator.Error.{
  Review, Error, pvc_required, pvc_size_required, s3_required, s3_bucket_required,
}
use build_operator.Template.{
  CacheConfig, PvcConfig, S3Config, BuildkitBuilderTemplateSpec, BuildkitBuilderTemplate,
  cache_type_pvc, cache_type_s3,
}

abbrev pub read_write_once : String
read_write_once = "ReadWriteOnce"

default_image : BuildkitBuilderTemplateSpec → BuildkitBuilderTemplateSpec
default_image spec =
    if spec.buildkit_image == ""
    then (if spec.rootless
        then record spec { buildkit_image = "moby/buildkit:master-rootless" }
        else record spec { buildkit_image = "moby/buildkit:master" })
    else spec

default_access_modes : Option PvcConfig → Option PvcConfig
default_access_modes none = none
default_access_modes (some pvc) =
    if is_empty pvc.access_modes
    then some (record pvc { access_modes = read_write_once ∷ [] })
    else some pvc

default_cache : CacheConfig → CacheConfig
unfolding default_access_modes
default_cache cache =
    if cache.type == cache_type_pvc
    then record cache { pvc = default_access_modes cache.pvc }
    else cache

-- `Default`
unfoldable pub default_template : BuildkitBuilderTemplate → BuildkitBuilderTemplate
unfolding default_image default_cache
default_template obj =
    let spec = default_image obj.spec in
    record obj { spec = record spec { cache_config = default_cache spec.cache_config } }

validate_pvc : Option PvcConfig → Option Error
validate_pvc none = some pvc_required
validate_pvc (some pvc) = if pvc.size == "" then some pvc_size_required else none

validate_s3 : Option S3Config → Option Error
validate_s3 none = some s3_required
validate_s3 (some s3) = if s3.bucket == "" then some s3_bucket_required else none

-- `validate`
unfoldable pub validate_template : BuildkitBuilderTemplate → Option Error
unfolding validate_pvc validate_s3
validate_template r =
    let cache = r.spec.cache_config in
    if cache.type == cache_type_pvc
    then validate_pvc cache.pvc
    else if cache.type == cache_type_s3
    then validate_s3 cache.s3
    else none

-- `ValidateCreate`
unfoldable pub validate_template_create : BuildkitBuilderTemplate → Review
validate_template_create obj = ([], validate_template obj)

-- `ValidateUpdate`
unfoldable pub validate_template_update : BuildkitBuilderTemplate → BuildkitBuilderTemplate → Review
validate_template_update old new = ([], validate_template new)

-- `ValidateDelete`
unfoldable pub validate_template_delete : BuildkitBuilderTemplate → Review
validate_template_delete obj = ([], none)
