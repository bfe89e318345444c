-- ===== src/Copies/Builders.antt =====
-- api/v1alpha1/zz_generated.deepcopy.go: the `copy` of each copier is `DeepCopyInto` of its type, and
-- that of a pointer to it is `DeepCopy`.
use build_operator.Prelude.{refl, String, Option, List}
use build_operator.Prelude.Int.{ℤ}
use build_operator.Builder.{
  BuildkitBuilder, BuildkitBuilderSpec, BuildkitBuilderStatus, ExposureConfig,
}
use build_operator.Copies.{
  Types, Pointer, TypeMeta, StoredExposure, StoredSpec, StoredStatus, StoredBuilder, StoredList,
  Copier, text, number, exposure, conditions, time, spec, status, builder, builders, list,
}
use build_operator.Copies.Laws.{IsDeep, plain, plain-IsDeep, pair, pair-IsDeep, each, each-IsDeep}
use build_operator.Copies.Pointers.{pointer, pointer-IsDeep}
use build_operator.Copies.Structures.{
  Library, IsDocumented, string_map, string_map-IsDeep, or_empty, through, through-IsDeep,
}
use build_operator.Copies.Templates.{deep_copy_template_spec, deep_copy_template_spec-IsDeep}

module _ (T : Types) (L : Library T) where
  unfoldable pub exposure_copier : Copier T StoredExposure ExposureConfig
  exposure_copier =
      through T (string_map T) (λ in_exp. in_exp.annotations)
        (λ in_exp annotations. record in_exp { annotations = annotations })
        (λ e annotations. record {
          enabled = e.enabled;
          host = e.host;
          ingress_controller = e.ingress_controller;
          entry_point = e.entry_point;
          annotations = or_empty T annotations;
        })

  -- `(*ExposureConfig).DeepCopy`
  unfoldable pub deep_copy_exposure : Copier T Pointer (Option ExposureConfig)
  unfolding exposure_copier
  deep_copy_exposure = pointer T exposure exposure_copier

  -- `*int32` and `*string`: `*out = new(…)` and `**out = **in`.
  abbrev int32_pointer : Copier T Pointer (Option ℤ)
  int32_pointer = pointer T number (plain T ℤ)

  abbrev string_pointer : Copier T Pointer (Option String)
  string_pointer = pointer T text (plain T String)

  -- The code writes `DeepCopy` of the template and of the exposure out.
  unfoldable pub spec_copier : Copier T StoredSpec BuildkitBuilderSpec
  unfolding deep_copy_exposure
  spec_copier =
      through T
        (pair T string_pointer (
          pair T (deep_copy_template_spec T L) (
            pair T int32_pointer
              (pair T int32_pointer (pair T (string_map T) deep_copy_exposure)))))
        (λ in_spec. (
          in_spec.template_ref,
          (
            in_spec.template,
            (in_spec.replicas, (in_spec.idle_timeout_seconds, (in_spec.labels, in_spec.exposure))),
          ),
        ))
        (λ in_spec (ref, (inline, (replicas, (timeout, (labels, shown))))). record in_spec {
          template_ref = ref;
          template = inline;
          replicas = replicas;
          idle_timeout_seconds = timeout;
          labels = labels;
          exposure = shown;
        })
        (λ s (ref, (inline, (replicas, (timeout, (labels, shown))))). record {
          template_ref = ref;
          template = inline;
          mode = s.mode;
          replicas = replicas;
          idle_timeout_seconds = timeout;
          labels = or_empty T labels;
          exposure = shown;
        })

  -- `(*BuildkitBuilderSpec).DeepCopy`
  unfoldable pub deep_copy_spec : Copier T Pointer (Option BuildkitBuilderSpec)
  unfolding spec_copier
  deep_copy_spec = pointer T spec spec_copier

  unfoldable pub status_copier : Copier T StoredStatus BuildkitBuilderStatus
  status_copier =
      through T (pair T (pointer T conditions (each T L.condition)) (pointer T time L.time))
        (λ in_status. (in_status.conditions, in_status.last_scaled_at))
        (λ in_status (conds, scaled). record in_status {
          conditions = conds;
          last_scaled_at = scaled;
        })
        (λ s (conds, scaled). record {
          endpoint = s.endpoint;
          node_port = s.node_port;
          external_endpoint = s.external_endpoint;
          tls_secret_name = s.tls_secret_name;
          conditions = or_empty T conds;
          phase = s.phase;
          ready_replicas = s.ready_replicas;
          desired_replicas = s.desired_replicas;
          last_scaled_at = scaled;
        })

  -- `(*BuildkitBuilderStatus).DeepCopy`
  unfoldable pub deep_copy_status : Copier T Pointer (Option BuildkitBuilderStatus)
  unfolding status_copier
  deep_copy_status = pointer T status status_copier

  unfoldable pub builder_copier : Copier T (StoredBuilder T) (TypeMeta × BuildkitBuilder)
  unfolding spec_copier status_copier
  builder_copier =
      through T (pair T L.meta (pair T spec_copier status_copier))
        (λ in_b. (in_b.meta, (in_b.spec, in_b.status)))
        (λ in_b (meta, (wanted, seen)). record in_b { meta = meta; spec = wanted; status = seen })
        (λ b (meta, (wanted, seen)).
          (b.type_meta, record { meta = meta; spec = wanted; status = seen }))

  -- What a list of builders reads as.
  pub record BuilderList : Type 0 where
    pub type_meta : TypeMeta
    pub meta : L.ListView
    pub items : List (TypeMeta × BuildkitBuilder)

  unfoldable pub builder_list_copier : Copier T (StoredList T) BuilderList
  unfolding builder_copier
  builder_list_copier =
      through T (pair T L.list_meta (pointer T builders (each T builder_copier)))
        (λ in_list. (in_list.meta, in_list.items))
        (λ in_list (meta, items). record in_list { meta = meta; items = items })
        (λ l (meta, items). record {
          type_meta = l.type_meta;
          meta = meta;
          items = or_empty T items;
        })

  -- `(*BuildkitBuilder).DeepCopy`, and its `DeepCopyObject`, which returns the same.
  unfoldable pub deep_copy_builder : Copier T Pointer (Option (TypeMeta × BuildkitBuilder))
  unfolding builder_copier
  deep_copy_builder = pointer T builder builder_copier

  -- `(*BuildkitBuilderList).DeepCopy`, and its `DeepCopyObject`.
  unfoldable pub deep_copy_builder_list : Copier T Pointer (Option BuilderList)
  unfolding builder_list_copier
  deep_copy_builder_list = pointer T list builder_list_copier

  module _ (D : IsDocumented T L) where
    exposure_copier-IsDeep : IsDeep T exposure_copier
    unfolding exposure_copier
    exposure_copier-IsDeep =
        through-IsDeep T _ _ _ _ (λ s a. refl) (λ s a v. refl) (string_map-IsDeep T)

    deep_copy_exposure-IsDeep : IsDeep T deep_copy_exposure
    unfolding deep_copy_exposure
    deep_copy_exposure-IsDeep = pointer-IsDeep T exposure _ exposure_copier-IsDeep

    int32_pointer-IsDeep : IsDeep T int32_pointer
    int32_pointer-IsDeep = pointer-IsDeep T number _ (plain-IsDeep T ℤ)

    spec_copier-IsDeep : IsDeep T spec_copier
    unfolding spec_copier
    spec_copier-IsDeep =
        through-IsDeep T _ _ _ _ (λ s a. refl) (λ s a v. refl)
          (pair-IsDeep T _ _ (pointer-IsDeep T text _ (plain-IsDeep T String)) (
            pair-IsDeep T _ _ (deep_copy_template_spec-IsDeep T L D) (
              pair-IsDeep T _ _ int32_pointer-IsDeep (
                pair-IsDeep T _ _ int32_pointer-IsDeep
                  (pair-IsDeep T _ _ (string_map-IsDeep T) deep_copy_exposure-IsDeep)))))

    status_copier-IsDeep : IsDeep T status_copier
    unfolding status_copier
    status_copier-IsDeep =
        through-IsDeep T _ _ _ _ (λ s a. refl) (λ s a v. refl)
          (pair-IsDeep T _ _ (pointer-IsDeep T conditions _ (each-IsDeep T _ D.condition))
            (pointer-IsDeep T time _ D.time))

    pub deep_copy_spec-IsDeep : IsDeep T deep_copy_spec
    unfolding deep_copy_spec
    deep_copy_spec-IsDeep = pointer-IsDeep T spec _ spec_copier-IsDeep

    pub deep_copy_status-IsDeep : IsDeep T deep_copy_status
    unfolding deep_copy_status
    deep_copy_status-IsDeep = pointer-IsDeep T status _ status_copier-IsDeep

    builder_copier-IsDeep : IsDeep T builder_copier
    unfolding builder_copier
    builder_copier-IsDeep =
        through-IsDeep T _ _ _ _ (λ s a. refl) (λ s a v. refl)
          (pair-IsDeep T _ _ D.meta (pair-IsDeep T _ _ spec_copier-IsDeep status_copier-IsDeep))

    builder_list_copier-IsDeep : IsDeep T builder_list_copier
    unfolding builder_list_copier
    builder_list_copier-IsDeep =
        through-IsDeep T _ _ _ _ (λ s a. refl) (λ s a v. refl)
          (pair-IsDeep T _ _ D.list_meta
            (pointer-IsDeep T builders _ (each-IsDeep T _ builder_copier-IsDeep)))

    pub deep_copy_builder-IsDeep : IsDeep T deep_copy_builder
    unfolding deep_copy_builder
    deep_copy_builder-IsDeep = pointer-IsDeep T builder _ builder_copier-IsDeep

    pub deep_copy_builder_list-IsDeep : IsDeep T deep_copy_builder_list
    unfolding deep_copy_builder_list
    deep_copy_builder_list-IsDeep = pointer-IsDeep T list _ builder_list_copier-IsDeep
