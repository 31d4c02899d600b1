-- ===== src/Tests/Session.antt =====
-- Witnesses of the service: the queue, the loop, the processor, the gate and the boundary.
use zon_key.Prelude.{
  ℕ, ◌≡◌, ◌≢◌, ◌↔◌, refl, true, false, Option, none, some, List, [], ◌∷◌, ◌++◌, ok, length, ◌<◌,
  ◌%◌, ◌+◌, arith,
}
use zon_key.Text.{Str, codes, is_empty, is_ascii_alphabetic}
use zon_key.Text.Utf16.{encode_utf16}
use zon_key.Types.{exact_product_dictionary}
use zon_key.Types.Observe.{ObservedInputEvent, letter, space, stopped}
use zon_key.Service.Queue.{ObserveQueue, new_queue}
use zon_key.Service.Queue.Fifo.{Call, enqueue, dequeue, History, no_history, run-IsFifo, IsFifo}
use zon_key.Service.Queue.Fifo
use zon_key.Service.Run.{
  EventSource, delivers, exhausted, ObserveService, new_service, run, no_report,
}
use zon_key.Service.Run.Fold.{HasRun, run-HasRun, run_stop_requested, process_after_gap}
use zon_key.Service.Plan.{RestorePlanHandoff}
use zon_key.Service.Processor.{
  new_processor, process, is_injected, update_shortcut_state, is_release, shortcut_held,
  is_modifier, diagnostic_processor,
}
use zon_key.Service.Processor.Renewal.{Renew}
use zon_key.Service.Processor.Plans.{process-Renew}
use zon_key.Service.Processor.Lifetime.{
  Stimulus, observes, loses, feel_all, IsWellFormed, new_processor-IsWellFormed,
  feel_all-IsWellFormed, dropped_handoff_never_passes,
}
use zon_key.Service.Handoff.{
  current_restore_handoff, evaluate_internal_execution_gate, passed_for_external_validation,
}
use zon_key.Service.Handoff.Gate.{evaluate_internal_execution_gate-passed_iff}
use zon_key.Service.Boundary.{BoundarySample, available, validate_boundary, boundary_validated}
use zon_key.Service.Boundary.Validated.{IsValidated, validate_boundary-IsValidated}
use zon_key.Service.Boundary.Complete.{validate_boundary-encode_utf16}
use zon_key.Tests.{each, key_event, stimuli, redis_keys, after_redis}

-- The queue, with a loss.
abbrev empty_queue : ℕ → ObserveQueue
empty_queue n = record {
  capacity = n;
  events = [];
  dropped_events = 0;
  discontinuity_pending = false;
}

new_queue_lem : new_queue 4 ≡ ok (empty_queue 4)
unfolding new_queue
new_queue_lem = refl

abbrev small_queue : ObserveQueue
small_queue = empty_queue 1

abbrev calls : List Call
calls = enqueue (key_event space) ∷ enqueue (key_event (letter b'A')) ∷ dequeue ∷ []

run-IsFifo_example : IsFifo (Fifo.run (small_queue, no_history) calls)
run-IsFifo_example =
    run-IsFifo (small_queue, no_history) calls
      (record { order = refl; bounded = omega arith; flag = refl; counter = omega arith })

-- The loop.
abbrev source_of : List ObservedInputEvent → EventSource
source_of [] = exhausted
source_of (e ∷ es) = delivers e (source_of es)

abbrev idle : ObserveService
idle = new_service (empty_queue 4)

run-HasRun_example :
    HasRun
      (diagnostic_processor each is_ascii_alphabetic)
      idle
      (new_processor false)
      (source_of redis_keys)
      (run
        (diagnostic_processor each is_ascii_alphabetic)
        idle
        (new_processor false)
        (source_of redis_keys))
unfolding new_service zon_key.Service.Run.has_ended
run-HasRun_example =
    run-HasRun (diagnostic_processor each is_ascii_alphabetic) idle (new_processor false)
      (source_of redis_keys)
      (record { nothing_waits = refl; nothing_lost = refl; room = omega arith }) refl refl

abbrev stopping_service : ObserveService
stopping_service = record idle {
  stop_requested = true;
  queue = record (empty_queue 4) { events = redis_keys; discontinuity_pending = true };
}

run_stop_requested_example :
    let (s', p') =
      run
        (diagnostic_processor each is_ascii_alphabetic)
        stopping_service
        (new_processor false)
        exhausted in
    (p'
      ≡ process_after_gap
          (diagnostic_processor each is_ascii_alphabetic)
          (new_processor false)
          true
          redis_keys)
    × (s'.queue.events ≡ [])
    × (s'.status ≡ stopped)
    × (s'.report.processed % 18446744073709551616 ≡ 6 % 18446744073709551616)
unfolding zon_key.Service.Run.has_ended new_service
run_stop_requested_example =
    run_stop_requested (diagnostic_processor each is_ascii_alphabetic) stopping_service
      (new_processor false) exhausted refl refl

-- The processor after "redis" and a space holds a plan, and a letter drops it.
abbrev redis_handoff : RestorePlanHandoff
redis_handoff = record {
  rendered_token = codes "redí";
  replacement_token = codes "redis";
  rendered_units_to_replace = 4;
  replacement_units = 5;
  reason = exact_product_dictionary;
  generation = 1;
  simulation_only = true;
}

redis_handoff_current : current_restore_handoff after_redis ≡ some redis_handoff
unfolding zon_key.Text.is_ascii zon_key.Text.is_ascii_digit zon_key.Text.is_ascii_lowercase
    zon_key.Text.is_ascii_uppercase zon_key.Text.is_ascii_alphabetic
    zon_key.Text.is_ascii_alphanumeric zon_key.Text.is_ascii_hexdigit
    zon_key.Text.is_ascii_punctuation zon_key.Text.is_whitespace zon_key.Text.to_ascii_lowercase
    zon_key.Text.all zon_key.Text.any zon_key.Text.is_empty zon_key.Text.concat
    zon_key.Text.utf8_width zon_key.Text.byte_len zon_key.Text.Search.strip_prefix
    zon_key.Text.Search.starts_with zon_key.Text.Search.contains zon_key.Text.Search.contains_char
    zon_key.Text.Search.count_char zon_key.Text.Search.split_first zon_key.Text.Search.split_once
    zon_key.Text.Search.split zon_key.Text.Search.first_is zon_key.Text.Search.last_is
    zon_key.Text.Search.trim_start zon_key.Text.Search.trim zon_key.Text.Search.lowercase
    zon_key.Text.Search.eq_ignore_ascii_case zon_key.Text.Search.decimal_value
    zon_key.Text.Search.drop_plus zon_key.Text.Search.parses_as_u8 zon_key.Types.boundary_from_char
    zon_key.Types.Observe.new_letter zon_key.Types.Observe.new_digit
    zon_key.Types.Observe.new_punctuation zon_key.Types.Observe.letter_value
    zon_key.Types.Observe.digit_value zon_key.Types.Observe.punctuation_value
    zon_key.Types.Observe.modifier_value zon_key.Types.Observe.is_space
    zon_key.Types.Observe.is_enter zon_key.Types.Observe.is_tab zon_key.Types.Observe.is_backspace
    zon_key.Types.Observe.is_escape zon_key.Types.Observe.new_sequence
    zon_key.Types.Observe.is_label_char zon_key.Types.Observe.sanitize_label
    zon_key.Types.Observe.new_snapshot zon_key.Types.Observe.diagnostics_eligible
    zon_key.Types.Float.is_finite zon_key.Types.Float.is_negative zon_key.Types.Float.float_le
    zon_key.Types.Float.new_confidence zon_key.Types.Float.confidence_ge
    zon_key.Token.is_empty_token zon_key.Token.push_raw zon_key.Token.pop_last zon_key.Token.pop_raw
    zon_key.Token.clear zon_key.Token.common_prefix zon_key.Token.grapheme_count
    zon_key.Token.delete_last_graphemes zon_key.Token.edit_plan_between
    zon_key.Token.apply_edit_plan zon_key.Token.replace_rendered zon_key.Telex.transition_for
    zon_key.Telex.shape_vowel zon_key.Telex.try_shape_transform zon_key.Telex.requested_tone
    zon_key.Telex.retone zon_key.Telex.try_tone zon_key.Telex.push_key zon_key.Telex.compose_from
    zon_key.Telex.compose zon_key.Telex.Vowels.tone_index zon_key.Telex.Vowels.tone_at
    zon_key.Telex.Vowels.discriminant zon_key.Telex.Vowels.position zon_key.Telex.Vowels.decode_rows
    zon_key.Telex.Vowels.decode_vowel zon_key.Telex.Vowels.row_of zon_key.Telex.Vowels.encode_vowel
    zon_key.Telex.Engine.process_boundary zon_key.Telex.Engine.rerender
    zon_key.Telex.Engine.push_character zon_key.Telex.Engine.process_character
    zon_key.Telex.Engine.process_backspace zon_key.Telex.Engine.process
    zon_key.Telex.Engine.process_all zon_key.Detect.Patterns.last_satisfies
    zon_key.Detect.Patterns.is_domain_label zon_key.Detect.Patterns.looks_like_domain
    zon_key.Detect.Patterns.looks_like_email zon_key.Detect.Patterns.looks_like_windows_path
    zon_key.Detect.Patterns.looks_like_ipv4 zon_key.Detect.Patterns.looks_like_ipv6
    zon_key.Detect.Patterns.looks_like_semver zon_key.Detect.Patterns.looks_like_uuid
    zon_key.Detect.Patterns.looks_like_hex_or_hash zon_key.Detect.Patterns.has_internal_uppercase
    zon_key.Detect.Patterns.looks_like_secret zon_key.Detect.Patterns.looks_like_url
    zon_key.Detect.Patterns.looks_like_command_option zon_key.Detect.Patterns.looks_like_path
    zon_key.Detect.Patterns.looks_like_identifier zon_key.Detect.Patterns.classify_never_transform
    zon_key.Detect.Dictionary.reason_of zon_key.Detect.Dictionary.exact_confidence
    zon_key.Detect.Dictionary.line_matches zon_key.Detect.Dictionary.contains
    zon_key.Detect.Dictionary.built_in_classify zon_key.Detect.Dictionary.in_set
    zon_key.Detect.Dictionary.insert_set zon_key.Detect.Dictionary.insert
    zon_key.Detect.Dictionary.extend_entries zon_key.Detect.Dictionary.with_entries
    zon_key.Detect.Dictionary.in_memory_classify zon_key.Detect.Validation.is_vietnamese_letter
    zon_key.Detect.Validation.is_vietnamese_candidate zon_key.Detect.Classifier.is_unknown_boundary
    zon_key.Detect.Classifier.classify_word zon_key.Detect.Classifier.classify
    zon_key.Policy.is_technical_reason zon_key.Policy.permits_candidate zon_key.Policy.keep
    zon_key.Policy.is_blocked_context zon_key.Policy.decide_evidence zon_key.Policy.decide
    zon_key.Service.Plan.validate_restore_plan zon_key.Service.Processor.new_processor
    zon_key.Service.Processor.reset_token zon_key.Service.Processor.invalidate_restore_plan
    zon_key.Service.Processor.allocate_plan_generation zon_key.Service.Processor.is_release
    zon_key.Service.Processor.set_modifier zon_key.Service.Processor.update_shortcut_state
    zon_key.Service.Processor.boundary_for zon_key.Service.Processor.is_injected
    zon_key.Service.Processor.character_for zon_key.Service.Processor.shortcut_held
    zon_key.Service.Processor.is_modifier zon_key.Service.Processor.kept_decision
    zon_key.Service.Processor.finish_token zon_key.Service.Processor.plan_for
    zon_key.Service.Processor.restore_token zon_key.Service.Processor.apply_decision
    zon_key.Service.Processor.feed_engine zon_key.Service.Processor.evidence_for
    zon_key.Service.Processor.evaluate_token zon_key.Service.Processor.evaluate_boundary
    zon_key.Service.Processor.process_text zon_key.Service.Processor.process_key
    zon_key.Service.Processor.process zon_key.Service.Processor.reset_after_discontinuity
    zon_key.Service.Processor.Lifetime.feel zon_key.Service.Processor.Lifetime.feel_all
    zon_key.Service.Handoff.reason_discriminant zon_key.Service.Handoff.plan_eligibility
    zon_key.Service.Handoff.is_eligible zon_key.Service.Handoff.capture
    zon_key.Service.Handoff.current_restore_handoff zon_key.Service.Handoff.is_malformed
    zon_key.Service.Handoff.differs_from zon_key.Service.Handoff.revalidate_restore_handoff
    zon_key.Service.Handoff.gate_verdict zon_key.Service.Handoff.evaluate_internal_execution_gate
    zon_key.Tests.each
redis_handoff_current = refl

after_redis-IsWellFormed : IsWellFormed after_redis
after_redis-IsWellFormed =
    feel_all-IsWellFormed each is_ascii_alphabetic (new_processor false) (stimuli redis_keys)
      (new_processor-IsWellFormed each is_ascii_alphabetic false)

abbrev a_letter : List Stimulus
a_letter = observes (key_event (letter b'A')) ∷ []

letter_drops : (feel_all each is_ascii_alphabetic after_redis a_letter).last_restore_plan ≡ none
unfolding zon_key.Text.is_ascii zon_key.Text.is_ascii_digit zon_key.Text.is_ascii_lowercase
    zon_key.Text.is_ascii_uppercase zon_key.Text.is_ascii_alphabetic
    zon_key.Text.is_ascii_alphanumeric zon_key.Text.is_ascii_hexdigit
    zon_key.Text.is_ascii_punctuation zon_key.Text.is_whitespace zon_key.Text.to_ascii_lowercase
    zon_key.Text.all zon_key.Text.any zon_key.Text.is_empty zon_key.Text.concat
    zon_key.Text.utf8_width zon_key.Text.byte_len zon_key.Text.Search.strip_prefix
    zon_key.Text.Search.starts_with zon_key.Text.Search.contains zon_key.Text.Search.contains_char
    zon_key.Text.Search.count_char zon_key.Text.Search.split_first zon_key.Text.Search.split_once
    zon_key.Text.Search.split zon_key.Text.Search.first_is zon_key.Text.Search.last_is
    zon_key.Text.Search.trim_start zon_key.Text.Search.trim zon_key.Text.Search.lowercase
    zon_key.Text.Search.eq_ignore_ascii_case zon_key.Text.Search.decimal_value
    zon_key.Text.Search.drop_plus zon_key.Text.Search.parses_as_u8 zon_key.Types.boundary_from_char
    zon_key.Types.Observe.new_letter zon_key.Types.Observe.new_digit
    zon_key.Types.Observe.new_punctuation zon_key.Types.Observe.letter_value
    zon_key.Types.Observe.digit_value zon_key.Types.Observe.punctuation_value
    zon_key.Types.Observe.modifier_value zon_key.Types.Observe.is_space
    zon_key.Types.Observe.is_enter zon_key.Types.Observe.is_tab zon_key.Types.Observe.is_backspace
    zon_key.Types.Observe.is_escape zon_key.Types.Observe.new_sequence
    zon_key.Types.Observe.is_label_char zon_key.Types.Observe.sanitize_label
    zon_key.Types.Observe.new_snapshot zon_key.Types.Observe.diagnostics_eligible
    zon_key.Types.Float.is_finite zon_key.Types.Float.is_negative zon_key.Types.Float.float_le
    zon_key.Types.Float.new_confidence zon_key.Types.Float.confidence_ge
    zon_key.Token.is_empty_token zon_key.Token.push_raw zon_key.Token.pop_last zon_key.Token.pop_raw
    zon_key.Token.clear zon_key.Token.common_prefix zon_key.Token.grapheme_count
    zon_key.Token.delete_last_graphemes zon_key.Token.edit_plan_between
    zon_key.Token.apply_edit_plan zon_key.Token.replace_rendered zon_key.Telex.transition_for
    zon_key.Telex.shape_vowel zon_key.Telex.try_shape_transform zon_key.Telex.requested_tone
    zon_key.Telex.retone zon_key.Telex.try_tone zon_key.Telex.push_key zon_key.Telex.compose_from
    zon_key.Telex.compose zon_key.Telex.Vowels.tone_index zon_key.Telex.Vowels.tone_at
    zon_key.Telex.Vowels.discriminant zon_key.Telex.Vowels.position zon_key.Telex.Vowels.decode_rows
    zon_key.Telex.Vowels.decode_vowel zon_key.Telex.Vowels.row_of zon_key.Telex.Vowels.encode_vowel
    zon_key.Telex.Engine.process_boundary zon_key.Telex.Engine.rerender
    zon_key.Telex.Engine.push_character zon_key.Telex.Engine.process_character
    zon_key.Telex.Engine.process_backspace zon_key.Telex.Engine.process
    zon_key.Telex.Engine.process_all zon_key.Detect.Patterns.last_satisfies
    zon_key.Detect.Patterns.is_domain_label zon_key.Detect.Patterns.looks_like_domain
    zon_key.Detect.Patterns.looks_like_email zon_key.Detect.Patterns.looks_like_windows_path
    zon_key.Detect.Patterns.looks_like_ipv4 zon_key.Detect.Patterns.looks_like_ipv6
    zon_key.Detect.Patterns.looks_like_semver zon_key.Detect.Patterns.looks_like_uuid
    zon_key.Detect.Patterns.looks_like_hex_or_hash zon_key.Detect.Patterns.has_internal_uppercase
    zon_key.Detect.Patterns.looks_like_secret zon_key.Detect.Patterns.looks_like_url
    zon_key.Detect.Patterns.looks_like_command_option zon_key.Detect.Patterns.looks_like_path
    zon_key.Detect.Patterns.looks_like_identifier zon_key.Detect.Patterns.classify_never_transform
    zon_key.Detect.Dictionary.reason_of zon_key.Detect.Dictionary.exact_confidence
    zon_key.Detect.Dictionary.line_matches zon_key.Detect.Dictionary.contains
    zon_key.Detect.Dictionary.built_in_classify zon_key.Detect.Dictionary.in_set
    zon_key.Detect.Dictionary.insert_set zon_key.Detect.Dictionary.insert
    zon_key.Detect.Dictionary.extend_entries zon_key.Detect.Dictionary.with_entries
    zon_key.Detect.Dictionary.in_memory_classify zon_key.Detect.Validation.is_vietnamese_letter
    zon_key.Detect.Validation.is_vietnamese_candidate zon_key.Detect.Classifier.is_unknown_boundary
    zon_key.Detect.Classifier.classify_word zon_key.Detect.Classifier.classify
    zon_key.Policy.is_technical_reason zon_key.Policy.permits_candidate zon_key.Policy.keep
    zon_key.Policy.is_blocked_context zon_key.Policy.decide_evidence zon_key.Policy.decide
    zon_key.Service.Plan.validate_restore_plan zon_key.Service.Processor.new_processor
    zon_key.Service.Processor.reset_token zon_key.Service.Processor.invalidate_restore_plan
    zon_key.Service.Processor.allocate_plan_generation zon_key.Service.Processor.is_release
    zon_key.Service.Processor.set_modifier zon_key.Service.Processor.update_shortcut_state
    zon_key.Service.Processor.boundary_for zon_key.Service.Processor.is_injected
    zon_key.Service.Processor.character_for zon_key.Service.Processor.shortcut_held
    zon_key.Service.Processor.is_modifier zon_key.Service.Processor.kept_decision
    zon_key.Service.Processor.finish_token zon_key.Service.Processor.plan_for
    zon_key.Service.Processor.restore_token zon_key.Service.Processor.apply_decision
    zon_key.Service.Processor.feed_engine zon_key.Service.Processor.evidence_for
    zon_key.Service.Processor.evaluate_token zon_key.Service.Processor.evaluate_boundary
    zon_key.Service.Processor.process_text zon_key.Service.Processor.process_key
    zon_key.Service.Processor.process zon_key.Service.Processor.reset_after_discontinuity
    zon_key.Service.Processor.Lifetime.feel zon_key.Service.Processor.Lifetime.feel_all
    zon_key.Service.Handoff.reason_discriminant zon_key.Service.Handoff.plan_eligibility
    zon_key.Service.Handoff.is_eligible zon_key.Service.Handoff.capture
    zon_key.Service.Handoff.current_restore_handoff zon_key.Service.Handoff.is_malformed
    zon_key.Service.Handoff.differs_from zon_key.Service.Handoff.revalidate_restore_handoff
    zon_key.Service.Handoff.gate_verdict zon_key.Service.Handoff.evaluate_internal_execution_gate
    zon_key.Tests.each
letter_drops = refl

dropped_handoff_never_passes_example :
    evaluate_internal_execution_gate
      (feel_all each is_ascii_alphabetic
        (feel_all each is_ascii_alphabetic after_redis a_letter)
        (loses ∷ stimuli redis_keys))
      redis_handoff
    ≢ passed_for_external_validation
dropped_handoff_never_passes_example =
    dropped_handoff_never_passes each is_ascii_alphabetic after_redis redis_handoff a_letter
      (loses ∷ stimuli redis_keys) after_redis-IsWellFormed redis_handoff_current letter_drops

feel_all-IsWellFormed_example :
    IsWellFormed (feel_all each is_ascii_alphabetic (new_processor false) (stimuli redis_keys))
feel_all-IsWellFormed_example =
    feel_all-IsWellFormed each is_ascii_alphabetic (new_processor false) (stimuli redis_keys)
      (new_processor-IsWellFormed each is_ascii_alphabetic false)

evaluate_internal_execution_gate-passed_iff_example :
    (evaluate_internal_execution_gate after_redis redis_handoff ≡ passed_for_external_validation)
    ↔ ((current_restore_handoff after_redis ≡ some redis_handoff)
        × (is_empty (codes "redí") ≡ false))
evaluate_internal_execution_gate-passed_iff_example =
    evaluate_internal_execution_gate-passed_iff after_redis redis_handoff

process-Renew_example :
    Renew
      (new_processor false)
      (process each is_ascii_alphabetic (new_processor false) (key_event (letter b'A'))).0
unfolding new_processor is_injected update_shortcut_state is_release shortcut_held is_modifier
process-Renew_example =
    process-Renew each is_ascii_alphabetic (new_processor false) (key_event (letter b'A'))
      (refl, refl, refl, refl, refl)

-- The boundary.
abbrev sample : BoundarySample
sample = record {
  utf16_text = codes "a redí.";
  start = 6;
  end = 6;
  control = record { identity = 7; supported = true; is_secure = false; style = 0 };
  status = available;
}

sample_validated : validate_boundary sample sample (codes "redí") ≡ boundary_validated
unfolding validate_boundary zon_key.Service.Boundary.is_available
    zon_key.Service.Boundary.same_control zon_key.Prelude.text_eq
    zon_key.Service.Boundary.validate_sample zon_key.Text.Utf16.is_well_formed_utf16
    zon_key.Text.Utf16.is_high_surrogate zon_key.Text.Utf16.is_low_surrogate
    zon_key.Service.Boundary.splits_surrogate zon_key.Service.Boundary.has_prefix encode_utf16
    zon_key.Text.Utf16.encode_utf16_char
sample_validated = refl

validate_boundary-IsValidated_example :
    (sample ≡ sample)
    × IsValidated sample (codes "redí")
    × ((before after : List ℕ) × (sample.utf16_text
          ≡ before ++ encode_utf16 (codes "redí") ++ after)
        × (length (before ++ encode_utf16 (codes "redí")) ≡ 6))
validate_boundary-IsValidated_example =
    validate_boundary-IsValidated sample sample (codes "redí") sample_validated

-- A text that starts with a surrogate pair.
abbrev smiling : BoundarySample
smiling = record sample { utf16_text = 0xd83d ∷ 0xde00 ∷ codes "redí." }

validate_boundary-encode_utf16_example :
    validate_boundary smiling smiling (codes "redí") ≡ boundary_validated
unfolding encode_utf16 zon_key.Text.Utf16.encode_utf16_char zon_key.Text.all
    zon_key.Text.Utf8.is_scalar zon_key.Service.Boundary.is_available
validate_boundary-encode_utf16_example =
    validate_boundary-encode_utf16 (0x1f600 ∷ []) (codes "redí") (codes ".") smiling refl refl refl
      refl refl refl refl
