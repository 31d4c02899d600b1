-- ===== src/Policy.antt =====
-- crates/zonkey-policy/src/lib.rs: the default-deny recovery policy.
pub mod Safety
use zon_key.Prelude.{ℕ, Bool, true, false, ◌&&◌, Option, none, some, List, if◌then◌else◌}
use zon_key.Text.{Str}
use zon_key.Types.Float.{Confidence, zero_confidence, english_exact, technical_exact, confidence_ge}
use zon_key.Types.{
  InputContext, writing, technical_editor, terminal, secure, remote, unknown_context,
  DecisionReason, exact_technical_dictionary, exact_product_dictionary, user_allow_list,
  never_transform_pattern, vietnamese_candidate, context_blocked, insufficient_confidence,
  unsupported_input, RecoveryDecision, keep_vietnamese, restore_english, ambiguous, EditPlan,
}
use zon_key.Token.{edit_plan_between}
use zon_key.Detect.Evidence.{
  LexicalEvidence, candidate, never_transform, vietnamese, unsupported, unknown,
}

pub record PolicyOutcome : Type 0 where
  pub decision : RecoveryDecision
  pub edit_plan : Option EditPlan

abbrev pub default_auto_recovery_threshold : Confidence
default_auto_recovery_threshold = english_exact

abbrev pub technical_editor_threshold : Confidence
technical_editor_threshold = technical_exact

-- The `matches!` on the reason in `permits_candidate`.
unfoldable pub is_technical_reason : DecisionReason → Bool
is_technical_reason exact_technical_dictionary = true
is_technical_reason exact_product_dictionary = true
is_technical_reason user_allow_list = true
is_technical_reason r = false

unfoldable pub permits_candidate : InputContext → Confidence → DecisionReason → Bool
unfolding is_technical_reason
permits_candidate writing confidence reason =
    confidence_ge confidence default_auto_recovery_threshold
permits_candidate technical_editor confidence reason =
    confidence_ge confidence technical_editor_threshold && is_technical_reason reason
permits_candidate terminal confidence reason = false
permits_candidate secure confidence reason = false
permits_candidate remote confidence reason = false
permits_candidate unknown_context confidence reason = false

unfoldable pub keep : DecisionReason → PolicyOutcome
keep reason = record { decision = keep_vietnamese reason; edit_plan = none }

-- The `matches!` at the head of `decide`.
unfoldable pub is_blocked_context : InputContext → Bool
is_blocked_context terminal = true
is_blocked_context secure = true
is_blocked_context remote = true
is_blocked_context unknown_context = true
is_blocked_context c = false

module _ (graphemes : Str → List Str) where
  unfoldable pub decide_evidence : LexicalEvidence → InputContext → Str → PolicyOutcome
  unfolding keep
  decide_evidence (candidate text confidence reason) context rendered =
      if permits_candidate context confidence reason
      then record {
        decision = restore_english text confidence reason;
        edit_plan = some (edit_plan_between graphemes rendered text);
      }
      else record { decision = ambiguous confidence insufficient_confidence; edit_plan = none }
  decide_evidence never_transform context rendered = keep never_transform_pattern
  decide_evidence vietnamese context rendered = keep vietnamese_candidate
  decide_evidence unsupported context rendered = keep unsupported_input
  decide_evidence unknown context rendered = record {
    decision = ambiguous zero_confidence insufficient_confidence;
    edit_plan = none;
  }

  unfoldable pub decide : LexicalEvidence → InputContext → Str → PolicyOutcome
  unfolding decide_evidence keep is_blocked_context
  decide evidence context rendered =
      if is_blocked_context context
      then keep context_blocked
      else decide_evidence evidence context rendered
