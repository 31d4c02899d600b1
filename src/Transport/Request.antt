-- ===== src/Transport/Request.antt =====
-- The requests of crates/zonkey-service/src/transport.rs that are made of handoffs, and the decision
-- state that two threads share. A lock is poisoned once a thread panicked while holding it.
pub mod Identity
use zon_key.Prelude.{
  ℕ, zero, suc, ◌+◌, ◌/◌, ◌%◌, Bool, true, false, not, ◌||◌, Option, none, some, List, [], ◌∷◌,
  ◌++◌, length, Result, ok, err, if◌then◌else◌, text_eq, ltb, ◌==◌,
}
use zon_key.Text.{Str, codes, is_empty}
use zon_key.Types.Observe.{
  ObservedInputEvent, ObservedKey, space, new_letter, key_down, no_modifiers, physical_or_unmarked,
  EventSequence, new_sequence,
}
use zon_key.Service.Plan.{RestorePlanHandoff}
use zon_key.Service.Run.{ProcessorClassification, invalid}
use zon_key.Service.Processor.{
  DiagnosticDecisionProcessor, new_processor, process, reset_after_discontinuity,
}
use zon_key.Service.Handoff.{
  InternalGateRejection, no_plan, plan_ineligible, no_current_handoff, handoff_stale,
  handoff_malformed, generation_mismatch, span_inconsistent, simulation_invariant_broken,
  InternalExecutionGate, passed_for_external_validation, rejected, current_restore_handoff,
  evaluate_internal_execution_gate,
}
use zon_key.Transport.Ledger.{LedgerOutcome, definite}

-- The outcome of a request in a state of composition. No state lets it through.
unfoldable pub composition_gate_outcome : Str → LedgerOutcome
composition_gate_outcome composition =
    if text_eq composition (codes "Inactive")
    then definite (codes "rejected:ExecutionNotImplemented")
    else if text_eq composition (codes "Active")
    then definite (codes "rejected:CompositionActive")
    else definite (codes "rejected:CompositionUnknown")

pub record HandoffRequest : Type 0 where
  pub request_id : Str
  pub rendered_token : Str
  pub replacement_token : Str
  pub rendered_units : ℕ
  pub replacement_units : ℕ
  pub generation : ℕ

pub data HandoffRequestError : Type 0 where
  no_current_plan stale_handoff wrong_generation malformed_span internal_gate_failed :
      HandoffRequestError

-- A number in decimal, of at most `fuel` digits.
unfoldable pub decimal : ℕ → ℕ → Str
decimal zero n = []
decimal (suc fuel) n =
    let rest = decimal fuel (n / 10) in
    if ltb n 10 then (b'0' + n) ∷ [] else rest ++ (b'0' + n % 10) ∷ []

-- `format!("handoff-{}", ..)`: an `u64` has at most twenty digits.
unfoldable pub request_id_of : ℕ → Str
request_id_of generation = codes "handoff-" ++ decimal 20 generation

-- The match on the rejection in `build_host_request`.
unfoldable pub error_of : InternalGateRejection → HandoffRequestError
error_of no_plan = no_current_plan
error_of plan_ineligible = no_current_plan
error_of no_current_handoff = stale_handoff
error_of handoff_stale = stale_handoff
error_of generation_mismatch = wrong_generation
error_of handoff_malformed = malformed_span
error_of span_inconsistent = malformed_span
error_of simulation_invariant_broken = internal_gate_failed

unfoldable pub request_of : RestorePlanHandoff → HandoffRequest
request_of h = record {
  request_id = request_id_of h.generation;
  rendered_token = h.rendered_token;
  replacement_token = h.replacement_token;
  rendered_units = h.rendered_units_to_replace;
  replacement_units = h.replacement_units;
  generation = h.generation;
}

-- The test after the gate.
unfoldable pub has_malformed_span : RestorePlanHandoff → Bool
has_malformed_span h =
    is_empty h.rendered_token
    || (is_empty h.replacement_token
        || (not (h.rendered_units_to_replace == length h.rendered_token)
            || not (h.replacement_units == length h.replacement_token)))

unfoldable pub build_host_request :
    DiagnosticDecisionProcessor → RestorePlanHandoff → Result HandoffRequestError HandoffRequest
build_host_request s h = elim (current_restore_handoff s) [
  | none ↦ err no_current_plan
  | some now ↦ elim (evaluate_internal_execution_gate s h) [
    | rejected reason ↦ err (error_of reason)
    | passed_for_external_validation ↦
        if has_malformed_span h then err malformed_span else ok (request_of h)
  ]
]

pub record SharedDecisionState : Type 0 where
  pub processor : DiagnosticDecisionProcessor
  pub poisoned : Bool

unfoldable pub new_shared : SharedDecisionState
new_shared = record { processor = new_processor false; poisoned = false }

unfoldable pub current_handoff_request :
    SharedDecisionState → Result HandoffRequestError HandoffRequest
current_handoff_request s =
    if s.poisoned then err internal_gate_failed else elim (current_restore_handoff s.processor) [
      | none ↦ err no_current_plan
      | some h ↦ build_host_request s.processor h
    ]

module _ (graphemes : Str → List Str) (is_alphabetic : ℕ → Bool) where
  unfoldable pub shared_process :
      SharedDecisionState → ObservedInputEvent → SharedDecisionState × ProcessorClassification
  shared_process s e =
      if s.poisoned
      then (s, invalid)
      else let (p, c) = process graphemes is_alphabetic s.processor e in
        (record s { processor = p }, c)

  unfoldable pub shared_reset : SharedDecisionState → SharedDecisionState
  shared_reset s =
      if s.poisoned
      then s
      else record s { processor = reset_after_discontinuity graphemes is_alphabetic s.processor }

  abbrev pressed : ObservedKey → EventSequence → ObservedInputEvent
  pressed key sequence = record {
    key = key;
    kind = key_down;
    modifiers = no_modifiers;
    injection_origin = physical_or_unmarked;
    sequence = sequence;
  }

  -- A token and a space, with the sequence numbers from `start` on; `none` where a number or a key is
  -- refused, which panics.
  unfoldable pub feed_token :
      DiagnosticDecisionProcessor → Str → ℕ → Option DiagnosticDecisionProcessor
  feed_token s [] start = elim (new_sequence start) [
    | err e ↦ none
    | ok n ↦ some (process graphemes is_alphabetic s (pressed space n)).0
  ]
  feed_token s (c ∷ cs) start = elim (new_letter c) [
    | err e ↦ none
    | ok key ↦ elim (new_sequence start) [
      | err e ↦ none
      | ok n ↦
          feed_token (process graphemes is_alphabetic s (pressed key n)).0 cs
            ((start + 1) % 18446744073709551616)
    ]
  ]
