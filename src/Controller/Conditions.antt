-- ===== src/Controller/Conditions.antt =====
-- `setCondition` of helpers.go.
pub mod Unique
use build_operator.Prelude.{String, ◌==◌, Bool, List, [], ◌∷◌, if◌then◌else◌}
use build_operator.Kube.Meta.{Condition, Instant}
use build_operator.Builder.{BuildkitBuilderStatus}

-- The loop: the first condition of the type is rewritten, and one is appended where there is none.
unfoldable pub put_condition : Condition → List Condition → List Condition
put_condition new [] = new ∷ []
put_condition new (c ∷ conditions) =
    if c.type == new.type
    then record c {
      status = new.status;
      reason = new.reason;
      message = new.message;
      last_transition_time = new.last_transition_time;
    }
      ∷ conditions
    else c ∷ put_condition new conditions

-- `setCondition`, at the instant that its `metav1.Now()` returns
unfoldable pub set_condition :
    Instant → String → Bool → String → String → BuildkitBuilderStatus → BuildkitBuilderStatus
unfolding put_condition
set_condition now type value reason message status = record status {
  conditions =
      put_condition
        (record {
          type = type;
          status = if value then "True" else "False";
          reason = if reason == "" then "Unknown" else reason;
          message = message;
          last_transition_time = now;
        })
        status.conditions;
}
