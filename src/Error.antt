-- ===== src/Error.antt =====
-- The errors of the operator: one constructor for each `fmt.Errorf` of internal/controller and of
-- the webhooks under api/, and those of the API client and of the libraries that the source tells
-- apart. `fmt.Errorf` with `%w` keeps the error that it wraps, as the last argument here.
use build_operator.Prelude.{String, Bool, true, false, List, Option}

pub data Error : Type 0 where
  -- `errors.IsNotFound` and `errors.IsAlreadyExists` hold of these two.
  not_found already_exists : Error
  -- Any other error of the API client or of a library, by its text.
  failure : String → Error
  -- A Go panic, which the manager turns into an error of the reconciliation.
  panic : String → Error
  -- internal/controller
  unknown_mode : String → Error
  template_not_found : String → String → Error → Error
  template_missing : Error
  unsupported_ingress_controller : String → Error
  certificate_host_required : Error
  parsing_existing_ca : Error → Error
  invalid_certificate_pem invalid_key_pem : Error
  -- the webhooks
  template_ref_empty exposure_host_required : Error
  only_traefik_supported : String → Error
  pvc_required pvc_size_required s3_required s3_bucket_required : Error

-- `errors.IsNotFound`, which looks through wrapped errors.
unfoldable pub is_not_found : Error → Bool
is_not_found not_found = true
is_not_found (template_not_found _ _ e) = is_not_found e
is_not_found (parsing_existing_ca e) = is_not_found e
is_not_found _ = false

-- `errors.IsAlreadyExists`
unfoldable pub is_already_exists : Error → Bool
is_already_exists already_exists = true
is_already_exists (template_not_found _ _ e) = is_already_exists e
is_already_exists (parsing_existing_ca e) = is_already_exists e
is_already_exists _ = false

-- The `(admission.Warnings, error)` of a webhook.
abbrev pub Review : Type 0
Review = List String × Option Error
