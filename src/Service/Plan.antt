-- ===== src/Service/Plan.antt =====
-- `RestorePlan` and `RestorePlanHandoff` of crates/zonkey-service/src/lib.rs. `chars().count()` is the
-- length of a text.
use zon_key.Prelude.{ℕ, Bool, not, ◌||◌, Option, none, some, length, ◌==◌, if◌then◌else◌}
use zon_key.Text.{Str, is_empty}
use zon_key.Types.{DecisionReason}

pub record RestorePlan : Type 0 where
  pub original_token : Str
  pub rendered_token : Str
  pub replacement_token : Str
  pub rendered_units_to_replace : ℕ
  pub replacement_units : ℕ
  pub reason : DecisionReason
  pub execution_allowed : Bool
  pub generation : ℕ

pub data PlanIneligibilityReason : Type 0 where
  no_current_plan internal_span_inconsistent execution_capability_present : PlanIneligibilityReason

pub data PlanEligibility : Type 0 where
  eligible_for_future_execution_consideration : PlanEligibility
  ineligible : PlanIneligibilityReason → PlanEligibility

unfoldable pub validate_restore_plan : Option RestorePlan → PlanEligibility
validate_restore_plan none = ineligible no_current_plan
validate_restore_plan (some plan) =
    if plan.execution_allowed
    then ineligible execution_capability_present
    else if is_empty plan.original_token
        || (is_empty plan.replacement_token
            || (not (plan.rendered_units_to_replace == length plan.rendered_token)
                || not (plan.replacement_units == length plan.replacement_token)))
    then ineligible internal_span_inconsistent
    else eligible_for_future_execution_consideration

pub record RestorePlanHandoff : Type 0 where
  pub rendered_token : Str
  pub replacement_token : Str
  pub rendered_units_to_replace : ℕ
  pub replacement_units : ℕ
  pub reason : DecisionReason
  pub generation : ℕ
  pub simulation_only : Bool
