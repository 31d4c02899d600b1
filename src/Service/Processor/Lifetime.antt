-- ===== src/Service/Processor/Lifetime.antt =====
-- Plans and handoffs over whole histories of the processor of crates/zonkey-service/src/lib.rs.
use zon_key.Prelude.{
  ℕ, ◌<◌, ◌≡◌, ◌≢◌, inl, inr, sym, ◌∙◌, ap, Bool, none, some, List, [], ◌∷◌, arith, Option-cases,
  checked_suc,
}
use zon_key.Text.{Str}
use zon_key.Types.Observe.{ObservedInputEvent}
use zon_key.Service.Plan.{RestorePlan, RestorePlanHandoff}
use zon_key.Service.Processor.{
  DiagnosticDecisionProcessor, new_processor, process, reset_after_discontinuity,
}
use zon_key.Service.Processor.Renewal.{IsEligiblePlan, drops, makes, Advance, keeps, renews}
use zon_key.Service.Processor.Plans.{process-Advance, reset_after_discontinuity-Advance}
use zon_key.Service.Handoff.{
  capture, current_restore_handoff, evaluate_internal_execution_gate,
  passed_for_external_validation,
}
use zon_key.Service.Handoff.Gate.{
  evaluate_internal_execution_gate-passed_iff, current-capture, no_plan-rejects,
}

-- What the service tells the processor.
pub data Stimulus : Type 0 where
  observes : ObservedInputEvent → Stimulus
  loses : Stimulus

checked_suc-lt : (g n : ℕ) → checked_suc g ≡ some n → g < n
unfolding checked_suc
checked_suc-lt g n h = ground arith

-- The current plan passes its own validation, and is older than the next generation.
pub record IsWellFormed (s : DiagnosticDecisionProcessor) : Type 0 where
  pub eligible : (plan : RestorePlan) → s.last_restore_plan ≡ some plan → IsEligiblePlan plan
  pub older :
      (plan : RestorePlan) (n : ℕ)
      → s.last_restore_plan ≡ some plan
      → s.next_plan_generation ≡ some n
      → plan.generation < n

-- No plan has this generation now, and none will get it.
record IsRetired (g : ℕ) (s : DiagnosticDecisionProcessor) : Type 0 where
  gone : (plan : RestorePlan) → s.last_restore_plan ≡ some plan → plan.generation ≢ g
  beyond : (n : ℕ) → s.next_plan_generation ≡ some n → g < n

Advance-IsWellFormed :
    (s t : DiagnosticDecisionProcessor) → Advance s t → IsWellFormed s → IsWellFormed t
Advance-IsWellFormed s t (keeps p n) v = record {
  eligible = λ plan e. v.eligible plan (sym p ∙ e);
  older = λ plan k e f. v.older plan k (sym p ∙ e) (sym n ∙ f);
}
Advance-IsWellFormed s t (renews (drops p n)) v = record {
  eligible = λ plan e. absurd (cc);
  older = λ plan k e f. absurd (cc);
}
Advance-IsWellFormed s t (renews (makes made g p n w)) v = record {
  eligible = λ plan e. ground arith;
  older = λ plan k e f. ground (arith, checked_suc-lt made.generation k);
}

Advance-beyond :
    (g : ℕ) (s t : DiagnosticDecisionProcessor)
    → Advance s t
    → ((n : ℕ) → s.next_plan_generation ≡ some n → g < n)
    → (n : ℕ) → t.next_plan_generation ≡ some n
    → g < n
Advance-beyond g s t (keeps p n) h k e = h k (sym n ∙ e)
Advance-beyond g s t (renews (drops p n)) h k e = h k (sym n ∙ e)
Advance-beyond g s t (renews (makes made m p n w)) h k e =
    omega (arith, h made.generation m, checked_suc-lt made.generation k (sym n ∙ e))

Advance-IsRetired :
    (g : ℕ) (s t : DiagnosticDecisionProcessor) → Advance s t → IsRetired g s → IsRetired g t
Advance-IsRetired g s t a v = record {
  gone = still_gone a;
  beyond = Advance-beyond g s t a v.beyond;
}
  where
    still_gone :
        Advance s t → (plan : RestorePlan) → t.last_restore_plan ≡ some plan → plan.generation ≢ g
    still_gone (keeps p n) plan e = v.gone plan (sym p ∙ e)
    still_gone (renews (drops p n)) plan e = absurd (cc)
    still_gone (renews (makes made m p n w)) plan e =
        let later = v.beyond made.generation m in ground arith

module _ (graphemes : Str → List Str) (is_alphabetic : ℕ → Bool) where
  unfoldable pub feel : DiagnosticDecisionProcessor → Stimulus → DiagnosticDecisionProcessor
  feel s (observes e) = (process graphemes is_alphabetic s e).0
  feel s loses = reset_after_discontinuity graphemes is_alphabetic s

  unfoldable pub feel_all :
      DiagnosticDecisionProcessor → List Stimulus → DiagnosticDecisionProcessor
  unfolding feel
  feel_all s [] = s
  feel_all s (x ∷ xs) = feel_all (feel s x) xs

  feel-Advance : (s : DiagnosticDecisionProcessor) (x : Stimulus) → Advance s (feel s x)
  unfolding feel
  feel-Advance s (observes e) = process-Advance graphemes is_alphabetic s e
  feel-Advance s loses = reset_after_discontinuity-Advance graphemes is_alphabetic s

  pub new_processor-IsWellFormed : (show : Bool) → IsWellFormed (new_processor show)
  unfolding new_processor
  new_processor-IsWellFormed show = record {
    eligible = λ plan e. absurd (cc);
    older = λ plan n e f. absurd (cc);
  }

  -- Whatever the processor is told, the plan that it holds passes its own validation, and its
  -- generation lies below the next one to be given out, if this was so at the start.
  pub feel_all-IsWellFormed :
      (s : DiagnosticDecisionProcessor) (xs : List Stimulus)
      → IsWellFormed s
      → IsWellFormed (feel_all s xs)
  unfolding feel_all
  feel_all-IsWellFormed s [] v = v
  feel_all-IsWellFormed s (x ∷ xs) v =
      feel_all-IsWellFormed (feel s x) xs (Advance-IsWellFormed s (feel s x) (feel-Advance s x) v)

  feel_all-IsRetired :
      (g : ℕ) (s : DiagnosticDecisionProcessor) (xs : List Stimulus)
      → IsRetired g s
      → IsRetired g (feel_all s xs)
  unfolding feel_all
  feel_all-IsRetired g s [] v = v
  feel_all-IsRetired g s (x ∷ xs) v =
      feel_all-IsRetired g (feel s x) xs (Advance-IsRetired g s (feel s x) (feel-Advance s x) v)

  feel_all-beyond :
      (g : ℕ) (s : DiagnosticDecisionProcessor) (xs : List Stimulus)
      → ((n : ℕ) → s.next_plan_generation ≡ some n → g < n)
      → (n : ℕ) → (feel_all s xs).next_plan_generation ≡ some n
      → g < n
  unfolding feel_all
  feel_all-beyond g s [] h = h
  feel_all-beyond g s (x ∷ xs) h =
      feel_all-beyond g (feel s x) xs (Advance-beyond g s (feel s x) (feel-Advance s x) h)

  -- A retired generation does not pass the gate.
  IsRetired-gate :
      (s : DiagnosticDecisionProcessor) (h : RestorePlanHandoff)
      → IsRetired h.generation s
      → evaluate_internal_execution_gate s h ≢ passed_for_external_validation
  unfolding capture
  IsRetired-gate s h v e = elim (Option-cases s.last_restore_plan) [
    | inl n ↦ (no_plan-rejects s h n).0 e
    | inr (plan, p) ↦
        let c = (evaluate_internal_execution_gate-passed_iff s h).0 e in
        v.gone plan p (ap (λ x. x.generation) (current-capture s plan h p c.0).0)
  ]

  -- Once the plan of a handoff of a well-formed processor was dropped, the gate never passes that
  -- handoff again, whatever the processor is told afterwards and whichever plans it makes.
  pub dropped_handoff_never_passes :
      (s : DiagnosticDecisionProcessor) (h : RestorePlanHandoff) (before after : List Stimulus)
      → IsWellFormed s
      → current_restore_handoff s ≡ some h
      → (feel_all s before).last_restore_plan ≡ none
      → evaluate_internal_execution_gate (feel_all (feel_all s before) after) h
        ≢ passed_for_external_validation
  unfolding current_restore_handoff
  dropped_handoff_never_passes s h before after v c d = elim (Option-cases s.last_restore_plan) [
    | inl n ↦ absurd (ground arith)
    | inr (plan, p) ↦
        let same = ap (λ x. x.generation) (current-capture s plan h p c).0 in
        IsRetired-gate _ h (
          feel_all-IsRetired h.generation (feel_all s before) after (record {
            gone = λ plan' e. absurd (cc);
            beyond =
                feel_all-beyond h.generation s before (λ n e. rw (← same) (v.older plan n p e));
          }))
  ]
