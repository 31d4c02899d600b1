-- ===== src/Service/Processor/Plans.antt =====
-- How one event changes the plan of the processor of crates/zonkey-service/src/lib.rs.
use zon_key.Prelude.{
  ℕ, ◌≡◌, inl, inr, refl, Bool, false, Option, none, some, List, arith, Option-cases, Bool-cases,
  Result-cases,
}
use zon_key.Text.{Str, is_empty}
use zon_key.Types.{TokenBoundary, EngineEvent, DecisionReason}
use zon_key.Types.Float.{Confidence}
use zon_key.Types.Observe.{ObservedInputEvent, is_escape, is_backspace}
use zon_key.Detect.Evidence.{candidate}
use zon_key.Detect.Safety.{classify-candidate}
use zon_key.Detect.Dictionary.{built_in_dictionaries}
use zon_key.Policy.Safety.{decide-restore_english}
use zon_key.Telex.Engine
use zon_key.Service.Processor.{
  DiagnosticDecisionProcessor, invalidate_restore_plan, update_shortcut_state, feed_engine,
  evidence_for, evaluate_token, evaluate_boundary, process_text, process_key, process, is_injected,
  is_release, shortcut_held, is_modifier, boundary_for, character_for, reset_after_discontinuity,
}
use zon_key.Service.Processor.Renewal.{
  Renew, drops, makes, Advance, keeps, renews, apply_decision-Renew, Renew-after, Renew-if,
  update_shortcut_state-plan,
}

-- The tests that an event passes on the way to `process_key`.
abbrev pub IsTyped : DiagnosticDecisionProcessor → ObservedInputEvent → Type 0
IsTyped s e =
    (is_injected e.injection_origin ≡ false)
    × ((update_shortcut_state s e).1 ≡ false)
    × (is_release e.kind ≡ false)
    × (shortcut_held (update_shortcut_state s e).0 e ≡ false)
    × (is_modifier e.key ≡ false)

module _ (graphemes : Str → List Str) (is_alphabetic : ℕ → Bool) where
  evidence_for-candidate :
      (s : DiagnosticDecisionProcessor) (b : TokenBoundary) (text : Str) (confidence : Confidence)
      (reason : DecisionReason)
      → evidence_for graphemes is_alphabetic s b ≡ candidate text confidence reason
      → (text ≡ s.telex.token.raw_ascii) × (is_empty s.telex.token.raw_ascii ≡ false)
  unfolding evidence_for
  evidence_for-candidate s b text confidence reason h =
      let c = classify-candidate is_alphabetic built_in_dictionaries _ text confidence reason h in
      (c.0, c.1)

  evaluate_token-Renew :
      (s : DiagnosticDecisionProcessor) (b : TokenBoundary)
      → s.last_restore_plan ≡ none
      → Renew s (evaluate_token graphemes is_alphabetic s b)
  unfolding evaluate_token
  evaluate_token-Renew s b e = Renew-after s _ _ refl (
      apply_decision-Renew _ s.telex.token.raw_ascii s.telex.token.rendered _ _ e
        λ text confidence reason d.
          evidence_for-candidate s b text confidence reason
            (decide-restore_english graphemes _ s.context s.telex.token.rendered text confidence
              reason d).0)

  feed_engine-Renew :
      (s t : DiagnosticDecisionProcessor) (ev : EngineEvent)
      → Renew s t
      → Renew s (feed_engine graphemes is_alphabetic t ev)
  unfolding feed_engine
  feed_engine-Renew s t ev (drops p n) = drops p n
  feed_engine-Renew s t ev (makes plan g p n w) = makes plan g p n w

  evaluate_boundary-Renew :
      (s : DiagnosticDecisionProcessor) (b : TokenBoundary)
      → Renew s (evaluate_boundary graphemes is_alphabetic s b).0
  unfolding evaluate_boundary
  evaluate_boundary-Renew s b =
      let s' : DiagnosticDecisionProcessor = record s { last_restore_plan = none } in
      Renew-if s _ _ _ (feed_engine-Renew s s' _ (drops refl refl))
        (feed_engine-Renew s _ _ (Renew-after s s' _ refl (evaluate_token-Renew s' b refl)))

  process_text-Renew :
      (s : DiagnosticDecisionProcessor) (c : Option ℕ)
      → Renew s (process_text graphemes is_alphabetic s c).0
  unfolding process_text
  process_text-Renew s none = drops refl refl
  process_text-Renew s (some c) =
      elim (Result-cases (Engine.process graphemes s.telex (EngineEvent.character c)).1) [
        | inl (action, e) ↦ drops (ground arith) (ground arith)
        | inr (f, e) ↦ drops (ground arith) (ground arith)
      ]

  process_key-Renew :
      (s : DiagnosticDecisionProcessor) (e : ObservedInputEvent)
      → Renew s (process_key graphemes is_alphabetic s e).0
  unfolding process_key
  process_key-Renew s e = elim (Bool-cases (is_escape e.key)) [
    | inl t ↦ rw t (drops refl refl)
    | inr t ↦ elim (Bool-cases (is_backspace e.key)) [
      | inl u ↦ rw (t, u) (feed_engine-Renew s (invalidate_restore_plan s) _ (drops refl refl))
      | inr u ↦ elim (Option-cases (boundary_for e)) [
        | inl n ↦ rw (t, u, n) (process_text-Renew s (character_for e))
        | inr (b, n) ↦ rw (t, u, n) (evaluate_boundary-Renew s b)
      ]
    ]
  ]

  process_typed :
      (s : DiagnosticDecisionProcessor) (e : ObservedInputEvent)
      → IsTyped s e
      → process graphemes is_alphabetic s e
        ≡ process_key graphemes is_alphabetic (update_shortcut_state s e).0 e
  unfolding process
  process_typed s e (a, b, c, d, f) = rw (a, b, c, d, f)

  -- A key that is typed never leaves the plan in force: afterwards there is none, or a new one that
  -- passes its own validation and takes the next generation.
  pub process-Renew :
      (s : DiagnosticDecisionProcessor) (e : ObservedInputEvent)
      → IsTyped s e
      → Renew s (process graphemes is_alphabetic s e).0
  process-Renew s e typed =
      let s' : DiagnosticDecisionProcessor = (update_shortcut_state s e).0 in
      rw (process_typed s e typed)
        (Renew-after s s' _ (update_shortcut_state-plan s e).1 (process_key-Renew s' e))

  -- Every event makes an advance.
  pub process-Advance :
      (s : DiagnosticDecisionProcessor) (e : ObservedInputEvent)
      → Advance s (process graphemes is_alphabetic s e).0
  unfolding process
  process-Advance s e =
      let s' : DiagnosticDecisionProcessor = (update_shortcut_state s e).0 in
      let same = update_shortcut_state-plan s e in
      let kept : Advance s s' = keeps same.0 same.1 in
      elim (Bool-cases (is_injected e.injection_origin)) [
        | inl a ↦ rw a (keeps refl refl)
        | inr a ↦ elim (Bool-cases (update_shortcut_state s e).1) [
          | inl b ↦ rw (a, b) kept
          | inr b ↦ elim (Bool-cases (is_release e.kind)) [
            | inl c ↦ rw (a, b, c) kept
            | inr c ↦ elim (Bool-cases (shortcut_held s' e)) [
              | inl d ↦ rw (a, b, c, d) kept
              | inr d ↦ elim (Bool-cases (is_modifier e.key)) [
                | inl f ↦ rw (a, b, c, d, f) kept
                | inr f ↦
                    rw (a, b, c, d, f) (renews (Renew-after s s' _ same.1 (process_key-Renew s' e)))
              ]
            ]
          ]
        ]
      ]

  pub reset_after_discontinuity-Advance :
      (s : DiagnosticDecisionProcessor)
      → Advance s (reset_after_discontinuity graphemes is_alphabetic s)
  unfolding reset_after_discontinuity
  reset_after_discontinuity-Advance s = renews (drops refl refl)
