-- ===== src/Controller/Exposure/Attained.antt =====
-- When `reconcileExposure` succeeds in a reliable cluster.
use build_operator.Prelude.{◌≡◌, ◌⊎◌, false, none, inl, inr}
use build_operator.Kube.Meta.{Key}
use build_operator.Builder.{BuildkitBuilder}
use build_operator.Builder.Webhook.{validate_builder}
use build_operator.Builder.Webhook.Admission.{validate_builder_iff}
use build_operator.Controller.Ingress.{exposure_enabled}
use build_operator.Controller.Exposure.{reconcile_exposure}
use build_operator.Controller.Exposure.State.{HasAsciiHost, IsExposed}
use build_operator.Controller.Exposure.Shown.{unexposed-IsExposed, reconcile_exposure-IsExposed}
use build_operator.Controller.Tls.Creation.{IsReadable, IsReadable-same}
use build_operator.World.{World, secret}
use build_operator.World.Laws.{IsReliable, IsOwning, IsTrusted}

module _ (W : World) (R : IsReliable W) where
  -- The exposure is absent or off, or the certificate libraries behave as documented, the webhook
  -- admits the builder, its host is in ASCII, and the authority of its namespace is absent or parses
  -- with the key of its certificate.
  abbrev pub IsAttainable : BuildkitBuilder → W.State → Type 0
  IsAttainable b s =
      (exposure_enabled b ≡ false)
      ⊎ (IsTrusted W R.peek
          × (validate_builder b ≡ none)
          × HasAsciiHost W R b.spec.exposure
          × IsReadable W R b.meta.namespace s)

  pub attainable-IsExposed :
      (b : BuildkitBuilder) (s : W.State)
      → IsOwning W b.meta
      → IsAttainable b s
      → IsExposed W R b b.spec.exposure s (reconcile_exposure W b s)
  attainable-IsExposed b s O (inl off) = unexposed-IsExposed W R b s off
  attainable-IsExposed b s O (inr (T, admitted, ascii, readable)) =
      reconcile_exposure-IsExposed W R T b s O ((validate_builder_iff b).0 admitted).exposure ascii
        readable

  pub IsAttainable-same :
      (b : BuildkitBuilder) (s t : W.State)
      → ((key : Key) → R.peek secret key t ≡ R.peek secret key s)
      → IsAttainable b s
      → IsAttainable b t
  IsAttainable-same b s t secrets (inl off) = inl off
  IsAttainable-same b s t secrets (inr (T, admitted, ascii, readable)) =
      inr (T, admitted, ascii, IsReadable-same W R b.meta.namespace s t (secrets _) readable)
