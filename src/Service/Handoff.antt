-- ===== src/Service/Handoff.antt =====
-- The handoff of a plan, and its gate, in crates/zonkey-service/src/lib.rs.
pub mod Gate
use zon_key.Prelude.{
  ℕ, Bool, true, false, not, ◌||◌, Option, none, some, List, [], ◌∷◌, length, ◌==◌, if◌then◌else◌,
  text_eq,
}
use zon_key.Text.{Str, is_empty}
use zon_key.Types.{
  DecisionReason, exact_english_dictionary, exact_technical_dictionary, exact_product_dictionary,
  user_allow_list, never_transform_pattern, vietnamese_candidate, context_blocked,
  insufficient_confidence, unsupported_input,
}
use zon_key.Service.Plan.{
  RestorePlan, PlanEligibility, eligible_for_future_execution_consideration, ineligible,
  validate_restore_plan, RestorePlanHandoff,
}
use zon_key.Service.Processor.{DiagnosticDecisionProcessor}

pub data HandoffStaleReason : Type 0 where
  no_current_plan different_generation malformed_snapshot : HandoffStaleReason

pub data HandoffRevalidation : Type 0 where
  current : HandoffRevalidation
  stale : HandoffStaleReason → HandoffRevalidation

pub data InternalGateRejection : Type 0 where
  no_plan plan_ineligible no_current_handoff handoff_stale : InternalGateRejection
  handoff_malformed generation_mismatch span_inconsistent : InternalGateRejection
  simulation_invariant_broken : InternalGateRejection

pub data InternalExecutionGate : Type 0 where
  passed_for_external_validation : InternalExecutionGate
  rejected : InternalGateRejection → InternalExecutionGate

-- The derived `==` of reasons, by discriminants.
unfoldable pub reason_discriminant : DecisionReason → ℕ
reason_discriminant exact_english_dictionary = 0
reason_discriminant exact_technical_dictionary = 1
reason_discriminant exact_product_dictionary = 2
reason_discriminant user_allow_list = 3
reason_discriminant never_transform_pattern = 4
reason_discriminant vietnamese_candidate = 5
reason_discriminant context_blocked = 6
reason_discriminant insufficient_confidence = 7
reason_discriminant unsupported_input = 8

unfoldable pub plan_eligibility : DiagnosticDecisionProcessor → PlanEligibility
plan_eligibility s = validate_restore_plan s.last_restore_plan

-- `matches!(.., EligibleForFutureExecutionConsideration)`
unfoldable pub is_eligible : PlanEligibility → Bool
is_eligible eligible_for_future_execution_consideration = true
is_eligible (ineligible r) = false

unfoldable pub capture : RestorePlan → RestorePlanHandoff
capture plan = record {
  rendered_token = plan.rendered_token;
  replacement_token = plan.replacement_token;
  rendered_units_to_replace = plan.rendered_units_to_replace;
  replacement_units = plan.replacement_units;
  reason = plan.reason;
  generation = plan.generation;
  simulation_only = true;
}

unfoldable pub current_restore_handoff : DiagnosticDecisionProcessor → Option RestorePlanHandoff
unfolding is_eligible plan_eligibility capture
current_restore_handoff s =
    if is_eligible (plan_eligibility s)
    then (elim s.last_restore_plan [ none ↦ none | some plan ↦ some (capture plan) ])
    else none

unfoldable pub is_malformed : RestorePlanHandoff → Bool
is_malformed h =
    not h.simulation_only
    || (is_empty h.rendered_token
        || (is_empty h.replacement_token
            || (not (h.rendered_units_to_replace == length h.rendered_token)
                || not (h.replacement_units == length h.replacement_token))))

unfoldable pub differs_from : RestorePlanHandoff → RestorePlan → Bool
differs_from h plan =
    not (h.generation == plan.generation)
    || (not (text_eq h.rendered_token plan.rendered_token)
        || (not (text_eq h.replacement_token plan.replacement_token)
            || (not (h.rendered_units_to_replace == plan.rendered_units_to_replace)
                || (not (h.replacement_units == plan.replacement_units)
                    || not (reason_discriminant h.reason == reason_discriminant plan.reason)))))

unfoldable pub revalidate_restore_handoff :
    DiagnosticDecisionProcessor → RestorePlanHandoff → HandoffRevalidation
unfolding is_eligible plan_eligibility
revalidate_restore_handoff s h = elim s.last_restore_plan [
  | none ↦ stale no_current_plan
  | some plan ↦
      if is_malformed h
      then stale malformed_snapshot
      else if not (is_eligible (plan_eligibility s))
      then stale no_current_plan
      else if differs_from h plan
      then stale different_generation
      else current
]

-- The match on the revalidation in the gate.
unfoldable pub gate_verdict :
    RestorePlanHandoff → RestorePlanHandoff → HandoffRevalidation → InternalExecutionGate
gate_verdict now h current =
    if now.generation == h.generation
    then passed_for_external_validation
    else rejected generation_mismatch
gate_verdict now h (stale no_current_plan) = rejected no_plan
gate_verdict now h (stale different_generation) = rejected generation_mismatch
gate_verdict now h (stale malformed_snapshot) = rejected handoff_malformed

unfoldable pub evaluate_internal_execution_gate :
    DiagnosticDecisionProcessor → RestorePlanHandoff → InternalExecutionGate
unfolding is_eligible plan_eligibility current_restore_handoff gate_verdict
evaluate_internal_execution_gate s h =
    if not (is_eligible (plan_eligibility s))
    then rejected plan_ineligible
    else elim (current_restore_handoff s) [
      | none ↦ rejected no_current_handoff
      | some now ↦
          if not h.simulation_only
          then rejected simulation_invariant_broken
          else gate_verdict now h (revalidate_restore_handoff s h)
    ]
