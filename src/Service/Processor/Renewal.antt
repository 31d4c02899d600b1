-- ===== src/Service/Processor/Renewal.antt =====
-- The plan of the processor of crates/zonkey-service/src/lib.rs: how it is dropped or made anew.
use zon_key.Prelude.{
  ℕ, ◌≡◌, inl, inr, refl, sym, ◌∙◌, Bool, true, false, none, some, arith, Option-cases, checked_suc,
  if◌then◌else◌,
}
use zon_key.Text.{Str, is_empty}
use zon_key.Types.{RecoveryDecision, keep_vietnamese, restore_english, ambiguous, DecisionReason}
use zon_key.Types.Float.{Confidence}
use zon_key.Types.Observe.{ObservedInputEvent}
use zon_key.Detect.Evidence.{LexicalEvidence}
use zon_key.Service.Run.{ProcessorClassification}
use zon_key.Service.Plan.{
  RestorePlan, validate_restore_plan, eligible_for_future_execution_consideration,
}
use zon_key.Service.Processor.{
  DiagnosticDecisionProcessor, allocate_plan_generation, set_modifier, update_shortcut_state,
  finish_token, plan_for, restore_token, apply_decision,
}

abbrev pub IsEligiblePlan : RestorePlan → Type 0
IsEligiblePlan plan =
    validate_restore_plan (some plan) ≡ eligible_for_future_execution_consideration

-- The plan is dropped, or there is a plan of the next generation, which is then used up.
pub data Renew (s t : DiagnosticDecisionProcessor) : Type 0 where
  drops : t.last_restore_plan ≡ none → t.next_plan_generation ≡ s.next_plan_generation → Renew s t
  makes :
      (plan : RestorePlan)
      → s.next_plan_generation ≡ some plan.generation
      → t.last_restore_plan ≡ some plan
      → t.next_plan_generation ≡ checked_suc plan.generation
      → IsEligiblePlan plan
      → Renew s t

-- The plan stays as it is, or is renewed.
pub data Advance (s t : DiagnosticDecisionProcessor) : Type 0 where
  keeps :
      t.last_restore_plan ≡ s.last_restore_plan
      → t.next_plan_generation ≡ s.next_plan_generation
      → Advance s t
  renews : Renew s t → Advance s t

plan_for-IsEligiblePlan :
    (raw rendered : Str) (reason : DecisionReason) (g : ℕ)
    → is_empty raw ≡ false
    → IsEligiblePlan (plan_for raw rendered raw reason g)
unfolding plan_for validate_restore_plan
plan_for-IsEligiblePlan raw rendered reason g h = ground arith

allocate_none :
    (s : DiagnosticDecisionProcessor)
    → s.next_plan_generation ≡ none
    → allocate_plan_generation s ≡ (s, none)
unfolding allocate_plan_generation
allocate_none s e = ground arith

allocate_some :
    (s : DiagnosticDecisionProcessor) (g : ℕ)
    → s.next_plan_generation ≡ some g
    → allocate_plan_generation s ≡ (record s { next_plan_generation = checked_suc g }, some g)
unfolding allocate_plan_generation
allocate_some s g e = ground arith

restore_token-none :
    (s : DiagnosticDecisionProcessor) (raw rendered text : Str) (reason : DecisionReason)
    → s.next_plan_generation ≡ none
    → let t = restore_token s raw rendered text reason in
      (t.last_restore_plan ≡ none) × (t.next_plan_generation ≡ none)
unfolding restore_token
restore_token-none s raw rendered text reason e = ground (arith, allocate_none s)

restore_token-some :
    (s : DiagnosticDecisionProcessor) (raw rendered text : Str) (reason : DecisionReason) (g : ℕ)
    → s.next_plan_generation ≡ some g
    → let t = restore_token s raw rendered text reason in
      (t.last_restore_plan ≡ some (plan_for raw rendered text reason g))
      × (t.next_plan_generation ≡ checked_suc g)
unfolding restore_token
restore_token-some s raw rendered text reason g e = ground (arith, allocate_some s g)

plan_for-generation :
    (raw rendered text : Str) (reason : DecisionReason) (g : ℕ)
    → (plan_for raw rendered text reason g).generation ≡ g
unfolding plan_for
plan_for-generation raw rendered text reason g = refl

restore_token-Renew :
    (s : DiagnosticDecisionProcessor) (raw rendered : Str) (reason : DecisionReason)
    → is_empty raw ≡ false
    → Renew s (restore_token s raw rendered raw reason)
restore_token-Renew s raw rendered reason h = elim (Option-cases s.next_plan_generation) [
  | inl n ↦ let r = restore_token-none s raw rendered raw reason n in drops r.0 (r.1 ∙ sym n)
  | inr (g, n) ↦
      let r = restore_token-some s raw rendered raw reason g n in
      let same = plan_for-generation raw rendered raw reason g in
      makes (plan_for raw rendered raw reason g) (rw same n) r.0 (rw same r.1)
        (plan_for-IsEligiblePlan raw rendered reason g h)
]

-- A processor whose plan was dropped before.
pub apply_decision-Renew :
    (s : DiagnosticDecisionProcessor) (raw rendered : Str) (evidence : LexicalEvidence)
    (decision : RecoveryDecision)
    → s.last_restore_plan ≡ none
    → ((text : Str) (confidence : Confidence) (reason : DecisionReason)
        → decision ≡ restore_english text confidence reason
        → (text ≡ raw) × (is_empty raw ≡ false))
    → Renew s (apply_decision s raw rendered evidence decision)
unfolding apply_decision finish_token
apply_decision-Renew s raw rendered evidence (restore_english text confidence reason) e h =
    let (same, full) = h text confidence reason refl in
    rw same (restore_token-Renew s raw rendered reason full)
apply_decision-Renew s raw rendered evidence (ambiguous confidence reason) e h = drops e refl
apply_decision-Renew s raw rendered evidence (keep_vietnamese reason) e h = drops e refl

-- What comes before a renewal, and changes neither plan nor counter.
pub Renew-after :
    (s t u : DiagnosticDecisionProcessor)
    → t.next_plan_generation ≡ s.next_plan_generation
    → Renew t u
    → Renew s u
Renew-after s t u f (drops p n) = drops p (n ∙ f)
Renew-after s t u f (makes plan g p n w) = makes plan (sym f ∙ g) p n w

pub Renew-if :
    (s : DiagnosticDecisionProcessor) (test : Bool)
    (x y : DiagnosticDecisionProcessor × ProcessorClassification)
    → Renew s x.0
    → Renew s y.0
    → Renew s (if test then x else y).0
Renew-if s true x y p q = p
Renew-if s false x y p q = q

pub update_shortcut_state-plan :
    (s : DiagnosticDecisionProcessor) (e : ObservedInputEvent)
    → let t = (update_shortcut_state s e).0 in
      (t.last_restore_plan ≡ s.last_restore_plan)
      × (t.next_plan_generation ≡ s.next_plan_generation)
      × (t.telex ≡ s.telex)
unfolding update_shortcut_state set_modifier
update_shortcut_state-plan s e = ground arith
