-- ===== src/Types.antt =====
-- crates/zonkey-types/src/lib.rs: the domain types that the crates share.
pub mod Float
pub mod Observe
use zon_key.Prelude.{ℕ, Option, none, some, ◌==◌, ◌||◌, if◌then◌else◌}
use zon_key.Text.{Str, is_ascii_punctuation}
use Float.{Confidence}

pub data TokenBoundary : Type 0 where
  space enter tab : TokenBoundary
  punctuation : ℕ → TokenBoundary
  cursor_move focus_loss unknown : TokenBoundary

unfoldable pub boundary_from_char : ℕ → Option TokenBoundary
unfolding is_ascii_punctuation
boundary_from_char c =
    if c == 32
    then some space
    else if c == 10 || c == 13
    then some enter
    else if c == 9
    then some tab
    else if is_ascii_punctuation c
    then some (punctuation c)
    else none

pub data InputContext : Type 0 where
  writing technical_editor terminal secure remote unknown_context : InputContext

pub data DecisionReason : Type 0 where
  exact_english_dictionary exact_technical_dictionary exact_product_dictionary : DecisionReason
  user_allow_list never_transform_pattern vietnamese_candidate : DecisionReason
  context_blocked insufficient_confidence unsupported_input : DecisionReason

pub data RecoveryDecision : Type 0 where
  keep_vietnamese : DecisionReason → RecoveryDecision
  restore_english : Str → Confidence → DecisionReason → RecoveryDecision
  ambiguous : Confidence → DecisionReason → RecoveryDecision

pub record EditPlan : Type 0 where
  pub delete_graphemes : ℕ
  pub insert_text : Str

pub data EngineAction : Type 0 where
  noop : EngineAction
  apply : EditPlan → EngineAction
  commit : TokenBoundary → EngineAction
  reset : EngineAction

pub data EngineEvent : Type 0 where
  character : ℕ → EngineEvent
  backspace : EngineEvent
  boundary : TokenBoundary → EngineEvent

pub data UnsupportedBehavior : Type 0 where
  non_ascii_input : ℕ → UnsupportedBehavior
