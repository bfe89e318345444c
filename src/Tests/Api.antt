-- ===== src/Tests/Api.antt =====
-- The webhooks, merging, conditions and the idle timeout on sample values.
use build_operator.Prelude.{◌≡◌, ◌↔◌, ◌≤◌, ◌+◌, true, none, some, [], length, refl, arith}
use build_operator.Prelude.Int.{pos, ◌+ℤ◌, ◌<ℤ◌}
use build_operator.Template.Webhook.{default_template, validate_template}
use build_operator.Template.Webhook.Admission.{IsUsable}
use build_operator.Builder.Webhook.{default_builder, validate_builder}
use build_operator.Builder.Webhook.Admission.{IsAdmissible}
use build_operator.Builder.Webhook.{
  validate_builder_create, validate_builder_update, validate_builder_delete,
}
use build_operator.Builder.Webhook.Complete.{admitted-IsComplete}
use build_operator.Template.Webhook.{
  validate_template_create, validate_template_update, validate_template_delete,
}
use build_operator.Template.Webhook.Complete.{admitted_template-IsComplete}
use build_operator.Controller.Merge.{merge_spec, zero_spec}
use build_operator.Controller.Merge.Precedence.{IsMerged, merge_spec-IsMerged}
use build_operator.Controller.Conditions.{set_condition}
use build_operator.Controller.Conditions.Unique.{
  find_condition, AreUnique, find-set_condition, set_condition-AreUnique,
}
use build_operator.Controller.Sleep.{replicas_at, idle_duration}
use build_operator.Controller.Sleep.Deadline.{idle_duration_exact, nanoseconds, replicas_at_iff}
use build_operator.Controller.Endpoint.{scan_pods, is_serving}
use build_operator.Controller.Endpoint.Counting.{serving, first_endpoint, scan_pods_lem}
use build_operator.Tests.Samples.{
  sleepy_builder, lost_builder, sample_template, template_spec, empty_status, conditions, pods,
}

admitted-IsComplete_example :
    (((validate_builder_create (default_builder sleepy_builder)).1 ≡ none)
      ↔ IsAdmissible sleepy_builder)
    × ((validate_builder_create (default_builder sleepy_builder)).0 ≡ [])
    × (validate_builder_update lost_builder (default_builder sleepy_builder)
        ≡ validate_builder_create (default_builder sleepy_builder))
    × (validate_builder_delete lost_builder ≡ ([], none))
    × (IsAdmissible sleepy_builder
        → build_operator.Builder.Webhook.Complete.IsComplete (default_builder sleepy_builder))
admitted-IsComplete_example = admitted-IsComplete lost_builder sleepy_builder

admitted_template-IsComplete_example :
    (((validate_template_create (default_template sample_template)).1 ≡ none)
      ↔ IsUsable sample_template.spec.cache_config)
    × ((validate_template_create (default_template sample_template)).0 ≡ [])
    × (validate_template_update sample_template (default_template sample_template)
        ≡ validate_template_create (default_template sample_template))
    × (validate_template_delete sample_template ≡ ([], none))
    × build_operator.Template.Webhook.Complete.IsComplete (default_template sample_template)
admitted_template-IsComplete_example = admitted_template-IsComplete sample_template sample_template

merge_spec-IsMerged_example :
    IsMerged template_spec zero_spec (merge_spec (some template_spec) (some zero_spec))
    × (merge_spec (some template_spec) none ≡ template_spec)
merge_spec-IsMerged_example = merge_spec-IsMerged (some template_spec) zero_spec

find-set_condition_example :
    find_condition "Ready"
      (set_condition
        (pos 9)
        "Endpoint"
        true
        ""
        "m"
        (record empty_status { conditions = conditions })).conditions
    ≡ find_condition "Ready" conditions
find-set_condition_example =
    find-set_condition (pos 9) "Endpoint" true "" "m"
      (record empty_status { conditions = conditions }) "Ready"

set_condition-AreUnique_example :
    AreUnique
      (set_condition
        (pos 9)
        "Endpoint"
        true
        ""
        "m"
        (record empty_status { conditions = conditions })).conditions
    × (length
          (set_condition
            (pos 9)
            "Endpoint"
            true
            ""
            "m"
            (record empty_status { conditions = conditions })).conditions
        ≤ length conditions + 1)
unfolding find_condition
set_condition-AreUnique_example =
    set_condition-AreUnique (pos 9) "Endpoint" true "" "m"
      (record empty_status { conditions = conditions }) (refl, tt)

replicas_at_iff_example :
    (replicas_at (pos 60) (pos 0) (pos 59000000000) ≡ pos 1)
    ↔ (pos 59000000000 <ℤ pos 0 +ℤ nanoseconds (pos 60))
replicas_at_iff_example = replicas_at_iff (pos 60) (pos 0) (pos 59000000000) (omega arith)

scan_pods_lem_example :
    scan_pods "" (pos 0) pods ≡ (first_endpoint (serving pods), pos (length (serving pods)))
unfolding serving is_serving
scan_pods_lem_example = scan_pods_lem pods (omega arith)

-- The longest timeout there is, 2^31 - 1 seconds.
idle_duration_exact_example : idle_duration (pos 2147483647) ≡ nanoseconds (pos 2147483647)
idle_duration_exact_example = idle_duration_exact (pos 2147483647) (omega arith)
