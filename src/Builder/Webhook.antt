-- ===== src/Builder/Webhook.antt =====
-- api/v1alpha1/buildkitbuilder_webhook.go
pub mod Admission
pub mod Complete
use build_operator.Prelude.{
  String, ◌==◌, Bool, false, ◌&&◌, ◌||◌, not, Option, none, some, is_none, List, [], if◌then◌else◌,
}
use build_operator.Prelude.Int.{pos}
use build_operator.Error.{
  Review, Error, template_missing, template_ref_empty, exposure_host_required,
  only_traefik_supported,
}
use build_operator.Builder.{
  BuildkitBuilder, ExposureConfig, mode_sleepy, ingress_controller_traefik,
}

abbrev pub default_entry_point : String
default_entry_point = "websecure"

-- `defaultExposure`
unfoldable pub default_exposure : Option ExposureConfig → Option ExposureConfig
default_exposure none = none
default_exposure (some exp) =
    if exp.enabled
    then some (record exp {
      ingress_controller =
          if exp.ingress_controller == ""
          then ingress_controller_traefik
          else exp.ingress_controller;
      entry_point = if exp.entry_point == "" then default_entry_point else exp.entry_point;
    })
    else some exp

-- `Default`
unfoldable pub default_builder : BuildkitBuilder → BuildkitBuilder
unfolding default_exposure
default_builder obj =
    let spec = obj.spec in
    record obj {
      spec = record spec {
        replicas = if is_none spec.replicas then some (pos 1) else spec.replicas;
        idle_timeout_seconds =
            if spec.mode == mode_sleepy && is_none spec.idle_timeout_seconds
            then some (pos 300)
            else spec.idle_timeout_seconds;
        exposure = default_exposure spec.exposure;
      };
    }

-- `validateExposure`
unfoldable pub validate_exposure : Option ExposureConfig → Option Error
validate_exposure none = none
validate_exposure (some exp) =
    if not exp.enabled
    then none
    else if exp.host == ""
    then some exposure_host_required
    else if exp.ingress_controller == "" || exp.ingress_controller == ingress_controller_traefik
    then none
    else some (only_traefik_supported exp.ingress_controller)

unfoldable pub is_empty_ref : Option String → Bool
is_empty_ref none = false
is_empty_ref (some name) = name == ""

-- `validate`
unfoldable pub validate_builder : BuildkitBuilder → Option Error
unfolding validate_exposure is_empty_ref
validate_builder r =
    if is_none r.spec.template_ref && is_none r.spec.template
    then some template_missing
    else if is_empty_ref r.spec.template_ref
    then some template_ref_empty
    else validate_exposure r.spec.exposure

-- `ValidateCreate`
unfoldable pub validate_builder_create : BuildkitBuilder → Review
validate_builder_create obj = ([], validate_builder obj)

-- `ValidateUpdate`
unfoldable pub validate_builder_update : BuildkitBuilder → BuildkitBuilder → Review
validate_builder_update old new = ([], validate_builder new)

-- `ValidateDelete`
unfoldable pub validate_builder_delete : BuildkitBuilder → Review
validate_builder_delete obj = ([], none)
