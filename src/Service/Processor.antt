-- ===== src/Service/Processor.antt =====
-- `DiagnosticDecisionProcessor` of crates/zonkey-service/src/lib.rs: from events to decisions and
-- plans. What it prints is left out.
pub mod Renewal
pub mod Plans
pub mod Lifetime
use zon_key.Prelude.{
  ℕ, ◌+◌, Bool, true, false, not, ◌&&◌, ◌||◌, Option, none, some, List, [], ◌∷◌, length,
  if◌then◌else◌, Result, ok, err, saturating_suc, checked_suc,
}
use zon_key.Text.{Str, is_empty, byte_len, to_ascii_lowercase}
use zon_key.Types.{
  InputContext, writing, TokenBoundary, EngineEvent, RecoveryDecision, keep_vietnamese,
  restore_english, ambiguous, DecisionReason,
}
use zon_key.Types
use zon_key.Types.Observe.{
  ObservedInputEvent, ObservedKey, ModifierKey, KeyEventKind, key_up, system_key_up,
  InjectionOrigin, marked_injected, lower_integrity_injected, letter_value, digit_value,
  punctuation_value, modifier_value, is_space, is_enter, is_tab, is_backspace, is_escape,
}
use zon_key.Telex.Engine.{TelexEngine, new_engine}
use zon_key.Telex.Engine
use zon_key.Detect.Evidence.{LexicalEvidence}
use zon_key.Detect.Dictionary.{built_in_dictionaries}
use zon_key.Detect.Classifier.{classify}
use zon_key.Policy.{decide}
use zon_key.Service.Run.{
  ProcessorClassification, ignored, observed, boundary_observed, unsupported, EventProcessor,
}
use zon_key.Service.Plan.{RestorePlan}

pub data DiagnosticDecision : Type 0 where
  keep restore_candidate ambiguous_decision unsupported_decision : DiagnosticDecision

-- The classifier and the policy have no state.
pub record DiagnosticDecisionProcessor : Type 0 where
  pub telex : TelexEngine
  pub context : InputContext
  pub show_token : Bool
  pub completed_tokens : ℕ
  pub resets : ℕ
  pub injected_events : ℕ
  pub control_down : Bool
  pub alt_down : Bool
  pub meta_down : Bool
  pub last_token_lengths : Option (ℕ × ℕ)
  pub last_decision : Option DiagnosticDecision
  pub last_restore_plan : Option RestorePlan
  pub next_plan_generation : Option ℕ

unfoldable pub new_processor : Bool → DiagnosticDecisionProcessor
new_processor show = record {
  telex = new_engine;
  context = writing;
  show_token = show;
  completed_tokens = 0;
  resets = 0;
  injected_events = 0;
  control_down = false;
  alt_down = false;
  meta_down = false;
  last_token_lengths = none;
  last_decision = none;
  last_restore_plan = none;
  next_plan_generation = some 1;
}

unfoldable pub reset_token : DiagnosticDecisionProcessor → DiagnosticDecisionProcessor
reset_token s = record s { telex = new_engine }

unfoldable pub invalidate_restore_plan : DiagnosticDecisionProcessor → DiagnosticDecisionProcessor
invalidate_restore_plan s = record s { last_restore_plan = none }

unfoldable pub allocate_plan_generation :
    DiagnosticDecisionProcessor → DiagnosticDecisionProcessor × Option ℕ
unfolding checked_suc
allocate_plan_generation s = elim s.next_plan_generation [
  | none ↦ (s, none)
  | some g ↦ (record s { next_plan_generation = checked_suc g }, some g)
]

-- The `matches!` on the two kinds of a release.
unfoldable pub is_release : KeyEventKind → Bool
is_release key_up = true
is_release system_key_up = true
is_release k = false

unfoldable pub set_modifier :
    DiagnosticDecisionProcessor → ModifierKey → Bool → DiagnosticDecisionProcessor
set_modifier s ModifierKey.control active = record s { control_down = active }
set_modifier s ModifierKey.alt active = record s { alt_down = active }
set_modifier s ModifierKey.meta active = record s { meta_down = active }
set_modifier s ModifierKey.shift active = s

unfoldable pub update_shortcut_state :
    DiagnosticDecisionProcessor → ObservedInputEvent → DiagnosticDecisionProcessor × Bool
unfolding modifier_value set_modifier is_release
update_shortcut_state s e = elim (modifier_value e.key) [
  | none ↦ (s, false)
  | some m ↦ (set_modifier s m (not (is_release e.kind)), true)
]

unfoldable pub boundary_for : ObservedInputEvent → Option TokenBoundary
unfolding is_space is_enter is_tab punctuation_value
boundary_for e =
    if is_space e.key
    then some Types.space
    else if is_enter e.key
    then some Types.enter
    else if is_tab e.key
    then some Types.tab
    else elim (punctuation_value e.key) [ none ↦ none | some c ↦ some (Types.punctuation c) ]

-- The `matches!` on the two marks of an injected event.
unfoldable pub is_injected : InjectionOrigin → Bool
is_injected marked_injected = true
is_injected lower_integrity_injected = true
is_injected o = false

-- A letter in the case that Shift gives, or a digit.
unfoldable pub character_for : ObservedInputEvent → Option ℕ
unfolding letter_value digit_value
character_for e = elim (letter_value e.key) [
  | some c ↦ some (if e.modifiers.shift_down then c else to_ascii_lowercase c)
  | none ↦ elim (digit_value e.key) [ none ↦ none | some d ↦ some (b'0' + d) ]
]

unfoldable pub shortcut_held : DiagnosticDecisionProcessor → ObservedInputEvent → Bool
shortcut_held s e =
    e.modifiers.control_down
    || (e.modifiers.alt_down
        || (e.modifiers.meta_down || (s.control_down || (s.alt_down || s.meta_down))))

-- `modifier_value().is_some()`
unfoldable pub is_modifier : ObservedKey → Bool
is_modifier k = elim (modifier_value k) [ none ↦ false | some m ↦ true ]

-- The decision on a token that is not restored.
unfoldable pub kept_decision : LexicalEvidence → DiagnosticDecision
kept_decision LexicalEvidence.unsupported = unsupported_decision
kept_decision evidence = keep

unfoldable pub finish_token :
    DiagnosticDecisionProcessor → DiagnosticDecision → DiagnosticDecisionProcessor
finish_token s decision = record s {
  completed_tokens = saturating_suc s.completed_tokens;
  last_decision = some decision;
}

unfoldable pub plan_for : Str → Str → Str → DecisionReason → ℕ → RestorePlan
plan_for raw rendered text reason generation = record {
  original_token = raw;
  rendered_token = rendered;
  replacement_token = text;
  rendered_units_to_replace = length rendered;
  replacement_units = length text;
  reason = reason;
  execution_allowed = false;
  generation = generation;
}

-- The arm of `RestoreEnglish`: without a generation left there is no plan, and no token is counted.
unfoldable pub restore_token :
    DiagnosticDecisionProcessor → Str → Str → Str → DecisionReason → DiagnosticDecisionProcessor
unfolding finish_token plan_for
restore_token s raw rendered text reason =
    let (s', allocated) = allocate_plan_generation s in
    elim allocated [
      | none ↦ record s' { last_restore_plan = none; last_decision = some ambiguous_decision }
      | some g ↦
          finish_token
            (record s' { last_restore_plan = some (plan_for raw rendered text reason g) })
            restore_candidate
    ]

unfoldable pub apply_decision :
    DiagnosticDecisionProcessor
    → Str
    → Str
    → LexicalEvidence
    → RecoveryDecision
    → DiagnosticDecisionProcessor
unfolding restore_token kept_decision
apply_decision s raw rendered evidence (restore_english text confidence reason) =
    restore_token s raw rendered text reason
apply_decision s raw rendered evidence (ambiguous confidence reason) =
    finish_token s ambiguous_decision
apply_decision s raw rendered evidence (keep_vietnamese reason) =
    finish_token s (kept_decision evidence)

module _ (graphemes : Str → List Str) (is_alphabetic : ℕ → Bool) where
  -- A call of the engine whose result is not looked at.
  unfoldable pub feed_engine :
      DiagnosticDecisionProcessor → EngineEvent → DiagnosticDecisionProcessor
  feed_engine s ev = record s { telex = (Engine.process graphemes s.telex ev).0 }

  unfoldable pub evidence_for : DiagnosticDecisionProcessor → TokenBoundary → LexicalEvidence
  evidence_for s boundary = classify is_alphabetic built_in_dictionaries (record {
    raw = s.telex.token.raw_ascii;
    rendered = s.telex.token.rendered;
    boundary = boundary;
    context = s.context;
  })

  -- The part of `evaluate_boundary` between the test for an empty token and the engine's call.
  unfoldable pub evaluate_token :
      DiagnosticDecisionProcessor → TokenBoundary → DiagnosticDecisionProcessor
  evaluate_token s boundary =
      let raw : Str = s.telex.token.raw_ascii in
      let rendered : Str = s.telex.token.rendered in
      let evidence = evidence_for s boundary in
      apply_decision (record s { last_token_lengths = some (byte_len raw, byte_len rendered) }) raw
        rendered evidence (decide graphemes evidence s.context rendered).decision

  unfoldable pub evaluate_boundary :
      DiagnosticDecisionProcessor
      → TokenBoundary
      → DiagnosticDecisionProcessor × ProcessorClassification
  unfolding invalidate_restore_plan
  evaluate_boundary s boundary =
      let s' : DiagnosticDecisionProcessor = invalidate_restore_plan s in
      if is_empty s'.telex.token.raw_ascii && is_empty s'.telex.token.rendered
      then (feed_engine s' (EngineEvent.boundary boundary), boundary_observed)
      else (
        feed_engine (evaluate_token s' boundary) (EngineEvent.boundary boundary),
        boundary_observed,
      )

  -- The last part of `process`: a character for the engine.
  unfoldable pub process_text :
      DiagnosticDecisionProcessor → Option ℕ → DiagnosticDecisionProcessor × ProcessorClassification
  unfolding reset_token invalidate_restore_plan
  process_text s none = (invalidate_restore_plan (reset_token s), unsupported)
  process_text s (some c) =
      let (engine, result) = Engine.process graphemes s.telex (EngineEvent.character c) in
      let s' : DiagnosticDecisionProcessor = record s {
        telex = engine;
        last_restore_plan = none;
      } in
      elim result [
        | ok action ↦ (s', observed)
        | err f ↦ (invalidate_restore_plan (reset_token s'), unsupported)
      ]

  -- An event that is no shortcut and no release.
  unfoldable pub process_key :
      DiagnosticDecisionProcessor
      → ObservedInputEvent
      → DiagnosticDecisionProcessor × ProcessorClassification
  unfolding reset_token invalidate_restore_plan
  process_key s e =
      if is_escape e.key
      then (invalidate_restore_plan (reset_token s), ignored)
      else if is_backspace e.key
      then (feed_engine (invalidate_restore_plan s) EngineEvent.backspace, observed)
      else elim (boundary_for e) [
        | some boundary ↦ evaluate_boundary s boundary
        | none ↦ process_text s (character_for e)
      ]

  unfoldable pub process :
      DiagnosticDecisionProcessor
      → ObservedInputEvent
      → DiagnosticDecisionProcessor × ProcessorClassification
  process s e =
      if is_injected e.injection_origin
      then (record s { injected_events = saturating_suc s.injected_events }, ignored)
      else let (s', was_modifier) = update_shortcut_state s e in
        if was_modifier
        then (s', ignored)
        else if is_release e.kind
        then (s', ignored)
        else if shortcut_held s' e
        then (s', ignored)
        else if is_modifier e.key
        then (s', ignored)
        else process_key s' e

  unfoldable pub reset_after_discontinuity :
      DiagnosticDecisionProcessor → DiagnosticDecisionProcessor
  unfolding reset_token
  reset_after_discontinuity s = record (reset_token s) {
    last_restore_plan = none;
    control_down = false;
    alt_down = false;
    meta_down = false;
    resets = saturating_suc s.resets;
  }

  abbrev pub diagnostic_processor : EventProcessor DiagnosticDecisionProcessor
  diagnostic_processor = record {
    reset_after_discontinuity = reset_after_discontinuity;
    process = process;
  }
