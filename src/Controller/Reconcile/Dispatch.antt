-- ===== src/Controller/Reconcile/Dispatch.antt =====
-- How `Reconcile` goes on once the builder and its template are read.
use build_operator.Prelude.{◌≡◌, refl, String, Option, none, some, if◌then◌else◌}
use build_operator.Exec.{ok, ◌>>=◌}
use build_operator.Kube.Meta.{Key, is_zero}
use build_operator.Template.{BuildkitBuilderTemplate, BuildkitBuilderTemplateSpec}
use build_operator.Builder.{BuildkitBuilder}
use build_operator.Controller.Merge.{merge_spec}
use build_operator.Controller.Status.{reconcile_delete}
use build_operator.Controller.Reconcile.{
  reconcile, resolve_spec, merge_inline, with_spec, reconcile_mode,
}
use build_operator.World.{World, builder, template}

-- The template's settings under the inline ones.
abbrev pub effective :
    BuildkitBuilderTemplateSpec → Option BuildkitBuilderTemplateSpec → BuildkitBuilderTemplateSpec
effective base none = base
effective base (some inline) = merge_spec (some base) (some inline)

module _ (W : World) where
  pub merges :
      (base : BuildkitBuilderTemplateSpec) (inline : Option BuildkitBuilderTemplateSpec)
      → merge_inline W (some base) inline ≡ ok (effective base inline)
  unfolding merge_inline
  merges base none = refl
  merges base (some inline) = refl

  -- A builder that is found, and names a template that is found, is reconciled in its mode with the
  -- template's settings under its inline ones, or deleted if it has a deletion timestamp.
  pub reconcile_resolved :
      (request : Key) (b : BuildkitBuilder) (tmpl : BuildkitBuilderTemplate) (name : String)
      (s t u : W.State)
      → W.get builder request s ≡ (ok b, t)
      → b.spec.template_ref ≡ some name
      → W.get template (record { namespace = b.meta.namespace; name = name }) t ≡ (ok tmpl, u)
      → reconcile W request s
        ≡ (if is_zero b.meta.deletion_timestamp
              then reconcile_mode W b (effective tmpl.spec b.spec.template)
              else reconcile_delete W b)
            u
  unfolding reconcile resolve_spec with_spec ◌>>=◌
  reconcile_resolved request b tmpl name s t u found ref there =
      rw (found, ref, there, merges tmpl.spec b.spec.template)
