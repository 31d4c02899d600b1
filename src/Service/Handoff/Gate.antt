-- ===== src/Service/Handoff/Gate.antt =====
-- What the gate of crates/zonkey-service/src/lib.rs lets through.
use zon_key.Prelude.{
  ◌≡◌, ◌≢◌, ◌↔◌, inl, inr, true, false, none, some, arith, text_eq→eq, text_eq_refl, Option-cases,
  subst,
}
use zon_key.Text.{is_empty}
use zon_key.Types.{DecisionReason, exact_english_dictionary}
use zon_key.Service.Plan.{
  RestorePlan, validate_restore_plan, RestorePlanHandoff,
  eligible_for_future_execution_consideration,
}
use zon_key.Service.Processor.{DiagnosticDecisionProcessor}
use zon_key.Service.Handoff.{
  reason_discriminant, plan_eligibility, is_eligible, capture, current_restore_handoff,
  is_malformed, differs_from, revalidate_restore_handoff, passed_for_external_validation,
  evaluate_internal_execution_gate,
}

reason_discriminant-injective :
    (a b : DecisionReason) → reason_discriminant a ≡ reason_discriminant b → a ≡ b
unfolding reason_discriminant
reason_discriminant-injective exact_english_dictionary b h = ground arith
reason_discriminant-injective _ b h = ground arith

differs_from-capture :
    (h : RestorePlanHandoff) (plan : RestorePlan)
    → h.simulation_only ≡ true
    → differs_from h plan ≡ false
    → capture plan ≡ h
unfolding differs_from capture
differs_from-capture h plan k d = ground (
  arith,
  text_eq→eq h.rendered_token plan.rendered_token,
  text_eq→eq h.replacement_token plan.replacement_token,
  reason_discriminant-injective h.reason plan.reason,
)

capture-differs_from : (plan : RestorePlan) → differs_from (capture plan) plan ≡ false
unfolding differs_from capture
capture-differs_from plan =
    ground (arith, text_eq_refl plan.rendered_token, text_eq_refl plan.replacement_token)

-- A captured plan that is eligible is well formed, unless nothing was rendered.
capture-is_malformed :
    (plan : RestorePlan)
    → validate_restore_plan (some plan) ≡ eligible_for_future_execution_consideration
    → is_empty plan.rendered_token ≡ false
    → is_malformed (capture plan) ≡ false
unfolding validate_restore_plan is_malformed capture
capture-is_malformed plan h k = ground arith

passes-current :
    (s : DiagnosticDecisionProcessor) (h : RestorePlanHandoff) (plan : RestorePlan)
    → s.last_restore_plan ≡ some plan
    → evaluate_internal_execution_gate s h ≡ passed_for_external_validation
    → (current_restore_handoff s ≡ some h) × (is_empty h.rendered_token ≡ false)
unfolding evaluate_internal_execution_gate revalidate_restore_handoff is_malformed
passes-current s h plan p e = ground (arith, differs_from-capture h plan)

current-passes :
    (s : DiagnosticDecisionProcessor) (plan : RestorePlan)
    → s.last_restore_plan ≡ some plan
    → is_eligible (plan_eligibility s) ≡ true
    → is_empty plan.rendered_token ≡ false
    → evaluate_internal_execution_gate s (capture plan) ≡ passed_for_external_validation
unfolding evaluate_internal_execution_gate revalidate_restore_handoff
current-passes s plan p e k = ground (arith, capture-differs_from plan, capture-is_malformed plan)

pub current-capture :
    (s : DiagnosticDecisionProcessor) (plan : RestorePlan) (h : RestorePlanHandoff)
    → s.last_restore_plan ≡ some plan
    → current_restore_handoff s ≡ some h
    → (capture plan ≡ h)
      × (plan.rendered_token ≡ h.rendered_token)
      × (is_eligible (plan_eligibility s) ≡ true)
unfolding current_restore_handoff
current-capture s plan h p e = ground arith

pub no_plan-rejects :
    (s : DiagnosticDecisionProcessor) (h : RestorePlanHandoff)
    → s.last_restore_plan ≡ none
    → (evaluate_internal_execution_gate s h ≢ passed_for_external_validation)
      × (current_restore_handoff s ≡ none)
unfolding evaluate_internal_execution_gate validate_restore_plan
no_plan-rejects s h p = ground arith

-- The gate passes a handoff exactly when it is the one that the current plan gives and something
-- was rendered.
pub evaluate_internal_execution_gate-passed_iff :
    (s : DiagnosticDecisionProcessor) (h : RestorePlanHandoff)
    → (evaluate_internal_execution_gate s h ≡ passed_for_external_validation)
      ↔ ((current_restore_handoff s ≡ some h) × (is_empty h.rendered_token ≡ false))
evaluate_internal_execution_gate-passed_iff s h = elim (Option-cases s.last_restore_plan) [
  | inl p ↦ (
    λ e. absurd ((no_plan-rejects s h p).0 e),
    λ (c, k). absurd (ground (arith, no_plan-rejects s h p)),
  )
  | inr (plan, p) ↦ (
    passes-current s h plan p,
    λ (c, k).
        let (e, t, v) = current-capture s plan h p c in
        subst (λ x. evaluate_internal_execution_gate s x ≡ passed_for_external_validation) e
          (current-passes s plan p v (rw t k)),
  )
]
