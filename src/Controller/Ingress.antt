-- ===== src/Controller/Ingress.antt =====
-- The pure part of ingress.go.
use build_operator.Prelude.{
  String, ◌<>◌, ◌==◌, Bool, true, false, Option, none, some, [], ◌∷◌, insert_all, if◌then◌else◌,
}
use build_operator.Prelude.Int.{pos}
use build_operator.Kube.Meta.{new_meta}
use build_operator.Kube.Network.{IngressRoute}
use build_operator.Builder.{BuildkitBuilder, ExposureConfig}
use build_operator.Controller.Metadata.{base_name, builder_tls_secret_name}

abbrev pub ingress_route_api_version : String
ingress_route_api_version = "traefik.io/v1alpha1"

abbrev pub ingress_route_kind : String
ingress_route_kind = "IngressRouteTCP"

abbrev pub external_dns_hostname_annotation : String
external_dns_hostname_annotation = "external-dns.alpha.kubernetes.io/hostname"

abbrev pub is_enabled : Option ExposureConfig → Bool
is_enabled none = false
is_enabled (some exp) = exp.enabled

-- `exposureEnabled`
unfoldable pub exposure_enabled : BuildkitBuilder → Bool
exposure_enabled b = is_enabled b.spec.exposure

-- `resolvedExposureEntryPoint`
unfoldable pub resolved_exposure_entry_point : ExposureConfig → String
resolved_exposure_entry_point exp = if exp.entry_point == "" then "websecure" else exp.entry_point

external_endpoint : Option ExposureConfig → String
external_endpoint none = ""
external_endpoint (some exp) =
    if exp.enabled then (if exp.host == "" then "" else "tcp://" <> (exp.host <> ":443")) else ""

-- `externalEndpointForBuilder`
unfoldable pub external_endpoint_for_builder : BuildkitBuilder → String
unfolding external_endpoint
external_endpoint_for_builder b = external_endpoint b.spec.exposure

-- `exposureTLSSecretName` of tls.go
unfoldable pub exposure_tls_secret_name : BuildkitBuilder → String
unfolding exposure_enabled
exposure_tls_secret_name b = if exposure_enabled b then builder_tls_secret_name b else ""

-- `ingressRouteForBuilder`, given `*b.Spec.Exposure`
unfoldable pub ingress_route_for_builder : BuildkitBuilder → ExposureConfig → IngressRoute
unfolding resolved_exposure_entry_point
ingress_route_for_builder b exp = record {
  api_version = ingress_route_api_version;
  kind = ingress_route_kind;
  meta = record (new_meta b.meta.namespace (base_name b)) {
    annotations =
        some (insert_all exp.annotations ((external_dns_hostname_annotation, exp.host) ∷ []));
  };
  entry_points = resolved_exposure_entry_point exp ∷ [];
  routes =
      record {
        match = "HostSNI(`" <> (exp.host <> "`)");
        services = record { name = base_name b; port = pos 1234 } ∷ [];
      }
      ∷ [];
  passthrough = true;
}
