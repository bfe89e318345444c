-- ===== src/Copies/Templates.antt =====
-- api/buildertemplate/v1alpha1/zz_generated.deepcopy.go: the `copy` of each copier is `DeepCopyInto` of
-- its type, and that of a pointer to it is `DeepCopy`.
use build_operator.Prelude.{refl, String, Option, List}
use build_operator.Template.{
  PvcConfig, S3Config, CacheConfig, BuildkitBuilderTemplateSpec, BuildkitBuilderTemplate,
}
use build_operator.Copies.{
  Types, Pointer, TypeMeta, StoredPvc, StoredS3, StoredCache, StoredTemplateSpec, StoredTemplate,
  StoredList, Copier, text, pvc, s3, tolerations, affinity, cache, template_spec, template,
  templates, list,
}
use build_operator.Copies.Laws.{IsDeep, plain, plain-IsDeep, pair, pair-IsDeep, each, each-IsDeep}
use build_operator.Copies.Pointers.{pointer, pointer-IsDeep}
use build_operator.Copies.Structures.{
  Library, IsDocumented, string_map, string_map-IsDeep, string_slice, string_slice-IsDeep, or_empty,
  through, through-IsDeep,
}

module _ (T : Types) (L : Library T) where
  unfoldable pub pvc_copier : Copier T StoredPvc PvcConfig
  pvc_copier =
      through T (string_slice T) (λ in_pvc. in_pvc.access_modes)
        (λ in_pvc modes. record in_pvc { access_modes = modes })
        (λ p modes. record {
          storage_class_name = p.storage_class_name;
          size = p.size;
          access_modes = or_empty T modes;
        })

  -- `(*PVCConfig).DeepCopy`
  unfoldable pub deep_copy_pvc : Copier T Pointer (Option PvcConfig)
  unfolding pvc_copier
  deep_copy_pvc = pointer T pvc pvc_copier

  -- The reference is a structure with a name.
  unfoldable pub s3_copier : Copier T StoredS3 S3Config
  s3_copier =
      through T (pointer T text (plain T String)) (λ in_s3. in_s3.secret_ref)
        (λ in_s3 ref. record in_s3 { secret_ref = ref })
        (λ s ref. record {
          bucket = s.bucket;
          region = s.region;
          endpoint = s.endpoint;
          secret_ref = ref;
        })

  -- `(*S3Config).DeepCopy`
  unfoldable pub deep_copy_s3 : Copier T Pointer (Option S3Config)
  unfolding s3_copier
  deep_copy_s3 = pointer T s3 s3_copier

  -- The code writes `DeepCopy` of the two out.
  unfoldable pub cache_copier : Copier T StoredCache CacheConfig
  unfolding deep_copy_pvc deep_copy_s3
  cache_copier =
      through T (pair T deep_copy_pvc deep_copy_s3) (λ in_cache. (in_cache.pvc, in_cache.s3))
        (λ in_cache (claim, bucket). record in_cache { pvc = claim; s3 = bucket })
        (λ c (claim, bucket). record { type = c.type; pvc = claim; s3 = bucket })

  unfoldable pub template_spec_copier : Copier T (StoredTemplateSpec T) BuildkitBuilderTemplateSpec
  unfolding cache_copier
  template_spec_copier =
      through T
        (pair T L.resources (
          pair T (string_map T) (
            pair T (pointer T tolerations (each T L.toleration))
              (pair T (pointer T affinity L.affinity) cache_copier))))
        (λ in_spec. (
          in_spec.resources,
          (in_spec.node_selector, (in_spec.tolerations, (in_spec.affinity, in_spec.cache_config))),
        ))
        (λ in_spec (resources, (selector, (tolerated, (near, cached)))). record in_spec {
          resources = resources;
          node_selector = selector;
          tolerations = tolerated;
          affinity = near;
          cache_config = cached;
        })
        (λ s (resources, (selector, (tolerated, (near, cached)))). record {
          buildkit_image = s.buildkit_image;
          rootless = s.rootless;
          resources = resources;
          node_selector = selector;
          tolerations = tolerated;
          affinity = near;
          buildkitd_toml = s.buildkitd_toml;
          cache_config = cached;
          arch = s.arch;
        })

  -- `(*CacheConfig).DeepCopy`
  unfoldable pub deep_copy_cache : Copier T Pointer (Option CacheConfig)
  unfolding cache_copier
  deep_copy_cache = pointer T cache cache_copier

  -- `(*BuildkitBuilderTemplateSpec).DeepCopy`
  unfoldable pub deep_copy_template_spec : Copier T Pointer (Option BuildkitBuilderTemplateSpec)
  unfolding template_spec_copier
  deep_copy_template_spec = pointer T template_spec template_spec_copier

  unfoldable pub template_copier : Copier T (StoredTemplate T) (TypeMeta × BuildkitBuilderTemplate)
  unfolding template_spec_copier
  template_copier =
      through T (pair T L.meta template_spec_copier) (λ in_tmpl. (in_tmpl.meta, in_tmpl.spec))
        (λ in_tmpl (meta, spec). record in_tmpl { meta = meta; spec = spec })
        (λ t (meta, spec). (t.type_meta, record { meta = meta; spec = spec }))

  -- What a list of templates reads as.
  pub record TemplateList : Type 0 where
    pub type_meta : TypeMeta
    pub meta : L.ListView
    pub items : List (TypeMeta × BuildkitBuilderTemplate)

  unfoldable pub template_list_copier : Copier T (StoredList T) TemplateList
  unfolding template_copier
  template_list_copier =
      through T (pair T L.list_meta (pointer T templates (each T template_copier)))
        (λ in_list. (in_list.meta, in_list.items))
        (λ in_list (meta, items). record in_list { meta = meta; items = items })
        (λ l (meta, items). record {
          type_meta = l.type_meta;
          meta = meta;
          items = or_empty T items;
        })

  -- `(*BuildkitBuilderTemplate).DeepCopy`, and its `DeepCopyObject`, which returns the same.
  unfoldable pub deep_copy_template : Copier T Pointer (Option (TypeMeta × BuildkitBuilderTemplate))
  unfolding template_copier
  deep_copy_template = pointer T template template_copier

  -- `(*BuildkitBuilderTemplateList).DeepCopy`, and its `DeepCopyObject`.
  unfoldable pub deep_copy_template_list : Copier T Pointer (Option TemplateList)
  unfolding template_list_copier
  deep_copy_template_list = pointer T list template_list_copier

  module _ (D : IsDocumented T L) where
    pvc_copier-IsDeep : IsDeep T pvc_copier
    unfolding pvc_copier
    pvc_copier-IsDeep =
        through-IsDeep T _ _ _ _ (λ s a. refl) (λ s a v. refl) (string_slice-IsDeep T)

    deep_copy_pvc-IsDeep : IsDeep T deep_copy_pvc
    unfolding deep_copy_pvc
    deep_copy_pvc-IsDeep = pointer-IsDeep T pvc _ pvc_copier-IsDeep

    s3_copier-IsDeep : IsDeep T s3_copier
    unfolding s3_copier
    s3_copier-IsDeep =
        through-IsDeep T _ _ _ _ (λ s a. refl) (λ s a v. refl)
          (pointer-IsDeep T text _ (plain-IsDeep T String))

    deep_copy_s3-IsDeep : IsDeep T deep_copy_s3
    unfolding deep_copy_s3
    deep_copy_s3-IsDeep = pointer-IsDeep T s3 _ s3_copier-IsDeep

    cache_copier-IsDeep : IsDeep T cache_copier
    unfolding cache_copier
    cache_copier-IsDeep =
        through-IsDeep T _ _ _ _ (λ s a. refl) (λ s a v. refl)
          (pair-IsDeep T _ _ deep_copy_pvc-IsDeep deep_copy_s3-IsDeep)

    template_spec_copier-IsDeep : IsDeep T template_spec_copier
    unfolding template_spec_copier
    template_spec_copier-IsDeep =
        through-IsDeep T _ _ _ _ (λ s a. refl) (λ s a v. refl)
          (pair-IsDeep T _ _ D.resources (
            pair-IsDeep T _ _ (string_map-IsDeep T) (
              pair-IsDeep T _ _ (pointer-IsDeep T tolerations _ (each-IsDeep T _ D.toleration))
                (pair-IsDeep T _ _ (pointer-IsDeep T affinity _ D.affinity) cache_copier-IsDeep))))

    deep_copy_cache-IsDeep : IsDeep T deep_copy_cache
    unfolding deep_copy_cache
    deep_copy_cache-IsDeep = pointer-IsDeep T cache _ cache_copier-IsDeep

    pub deep_copy_template_spec-IsDeep : IsDeep T deep_copy_template_spec
    unfolding deep_copy_template_spec
    deep_copy_template_spec-IsDeep = pointer-IsDeep T template_spec _ template_spec_copier-IsDeep

    template_copier-IsDeep : IsDeep T template_copier
    unfolding template_copier
    template_copier-IsDeep =
        through-IsDeep T _ _ _ _ (λ s a. refl) (λ s a v. refl)
          (pair-IsDeep T _ _ D.meta template_spec_copier-IsDeep)

    template_list_copier-IsDeep : IsDeep T template_list_copier
    unfolding template_list_copier
    template_list_copier-IsDeep =
        through-IsDeep T _ _ _ _ (λ s a. refl) (λ s a v. refl)
          (pair-IsDeep T _ _ D.list_meta
            (pointer-IsDeep T templates _ (each-IsDeep T _ template_copier-IsDeep)))

    pub deep_copy_template-IsDeep : IsDeep T deep_copy_template
    unfolding deep_copy_template
    deep_copy_template-IsDeep = pointer-IsDeep T template _ template_copier-IsDeep

    pub deep_copy_template_list-IsDeep : IsDeep T deep_copy_template_list
    unfolding deep_copy_template_list
    deep_copy_template_list-IsDeep = pointer-IsDeep T list _ template_list_copier-IsDeep
