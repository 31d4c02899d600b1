-- ===== src/Types/Observe.antt =====
-- crates/zonkey-types/src/observe.rs: the observed-input value types.
use zon_key.Prelude.{
  ℕ, ◌≤◌, ◌≡◌, Bool, true, false, not, ◌&&◌, ◌||◌, Option, none, some, Result, ok, err, leb, ltb,
  ◌==◌, if◌then◌else◌, ◌>>=◌,
}
use zon_key.Text.{
  Str, is_ascii_alphabetic, is_ascii_alphanumeric, is_ascii_punctuation, all, is_empty, byte_len,
}
use zon_key.Types.{InputContext, secure, unknown_context}

pub data KeyEventKind : Type 0 where
  key_down key_up system_key_down system_key_up : KeyEventKind

pub data ModifierKey : Type 0 where
  shift control alt meta : ModifierKey

pub data ObservedKeyError : Type 0 where
  invalid_letter invalid_digit invalid_punctuation : ObservedKeyError

-- `ObservedKeyKind`, which `ObservedKey` wraps.
pub data ObservedKey : Type 0 where
  letter : ℕ → ObservedKey
  digit : ℕ → ObservedKey
  space enter tab backspace escape : ObservedKey
  punctuation : ℕ → ObservedKey
  modifier : ModifierKey → ObservedKey
  other : ObservedKey

unfoldable pub new_letter : ℕ → Result ObservedKeyError ObservedKey
unfolding is_ascii_alphabetic
new_letter c = if is_ascii_alphabetic c then ok (letter c) else err invalid_letter

unfoldable pub new_digit : ℕ → Result ObservedKeyError ObservedKey
new_digit d = if leb d 9 then ok (digit d) else err invalid_digit

unfoldable pub new_punctuation : ℕ → Result ObservedKeyError ObservedKey
unfolding is_ascii_punctuation
new_punctuation c = if is_ascii_punctuation c then ok (punctuation c) else err invalid_punctuation

unfoldable pub letter_value : ObservedKey → Option ℕ
letter_value (letter c) = some c
letter_value k = none

unfoldable pub digit_value : ObservedKey → Option ℕ
digit_value (digit d) = some d
digit_value k = none

unfoldable pub punctuation_value : ObservedKey → Option ℕ
punctuation_value (punctuation c) = some c
punctuation_value k = none

unfoldable pub modifier_value : ObservedKey → Option ModifierKey
modifier_value (modifier m) = some m
modifier_value k = none

unfoldable pub is_space : ObservedKey → Bool
is_space space = true
is_space k = false

unfoldable pub is_enter : ObservedKey → Bool
is_enter enter = true
is_enter k = false

unfoldable pub is_tab : ObservedKey → Bool
is_tab tab = true
is_tab k = false

unfoldable pub is_backspace : ObservedKey → Bool
is_backspace backspace = true
is_backspace k = false

unfoldable pub is_escape : ObservedKey → Bool
is_escape escape = true
is_escape k = false

-- What the validating constructors let through: the private payload can be nothing else.
abbrev pub IsWellFormedKey : ObservedKey → Type 0
IsWellFormedKey (letter c) = is_ascii_alphabetic c ≡ true
IsWellFormedKey (digit d) = d ≤ 9
IsWellFormedKey (punctuation c) = is_ascii_punctuation c ≡ true
IsWellFormedKey k = Unit {0}

pub record ModifierState : Type 0 where
  pub shift_down : Bool
  pub control_down : Bool
  pub alt_down : Bool
  pub meta_down : Bool

abbrev pub no_modifiers : ModifierState
no_modifiers = record {
  shift_down = false;
  control_down = false;
  alt_down = false;
  meta_down = false;
}

pub data InjectionOrigin : Type 0 where
  unknown_origin physical_or_unmarked marked_injected lower_integrity_injected : InjectionOrigin

pub data EventSequenceError : Type 0 where
  event_sequence_error : EventSequenceError

pub record EventSequence : Type 0 where
  pub value : ℕ

unfoldable pub new_sequence : ℕ → Result EventSequenceError EventSequence
new_sequence n = if n == 0 then err event_sequence_error else ok (record { value = n })

pub record ObservedInputEvent : Type 0 where
  pub key : ObservedKey
  pub kind : KeyEventKind
  pub modifiers : ModifierState
  pub injection_origin : InjectionOrigin
  pub sequence : EventSequence

pub data IntegrityRelation : Type 0 where
  same_or_unknown lower higher unavailable : IntegrityRelation

pub record ForegroundContextSnapshot : Type 0 where
  pub input_context : InputContext
  pub executable_basename : Option Str
  pub window_class : Option Str
  pub integrity_relation : IntegrityRelation
  pub secure_desktop : Bool

pub data ContextSnapshotError : Type 0 where
  invalid_label : ContextSnapshotError

abbrev pub max_context_label_bytes : ℕ
max_context_label_bytes = 64

-- The test of one byte of a label. The source runs it over the bytes, and no byte of a character
-- beyond ASCII passes; so it is run over the characters here.
unfoldable pub is_label_char : ℕ → Bool
unfolding is_ascii_alphanumeric
is_label_char c = is_ascii_alphanumeric c || (c == b'.' || (c == b'_' || c == b'-'))

unfoldable pub sanitize_label : Option Str → Result ContextSnapshotError (Option Str)
sanitize_label none = ok none
sanitize_label (some value) =
    if is_empty value
      || (ltb max_context_label_bytes (byte_len value) || not (all is_label_char value))
    then err invalid_label
    else ok (some value)

unfoldable pub new_snapshot :
    InputContext
    → Option Str
    → Option Str
    → IntegrityRelation
    → Bool
    → Result ContextSnapshotError ForegroundContextSnapshot
new_snapshot context basename class relation desktop = do
  basename' ← sanitize_label basename
  class' ← sanitize_label class
  ok (record {
    input_context = context;
    executable_basename = basename';
    window_class = class';
    integrity_relation = relation;
    secure_desktop = desktop;
  })

abbrev pub unknown_snapshot : ForegroundContextSnapshot
unknown_snapshot = record {
  input_context = unknown_context;
  executable_basename = none;
  window_class = none;
  integrity_relation = same_or_unknown;
  secure_desktop = false;
}

unfoldable pub diagnostics_eligible : ForegroundContextSnapshot → Bool
diagnostics_eligible s =
    not s.secure_desktop && not (elim s.input_context [ secure ↦ true | _ ↦ false ])

pub data ObserverStatus : Type 0 where
  starting running stopping stopped failed : ObserverStatus

pub data ObserverError : Type 0 where
  not_supported startup_failed event_source_closed queue_overflow : ObserverError
  invalid_event shutdown_failed internal : ObserverError
