-- ===== src/Windows/Keys.antt =====
-- The mapping of native keyboard events of crates/zonkey-win/src/lib.rs.
pub mod Held
use Prim.Native.Nat.{bit_and}
use zon_key.Prelude.{
  ℕ, ◌-◌, Bool, true, false, not, ◌||◌, ◌&&◌, Option, none, some, Result, ok, err, leb, ◌==◌,
  if◌then◌else◌,
}
use zon_key.Prelude.Partial.{◌>>=◌}
use zon_key.Text.{Str, codes}
use zon_key.Text.Search.{contains_char}
use zon_key.Types.{EditPlan}
use zon_key.Types.Observe.{
  KeyEventKind, key_down, key_up, system_key_down, system_key_up, ModifierKey, shift, control, alt,
  meta, ObservedKey, new_letter, new_digit, new_punctuation, space, enter, tab, backspace, escape,
  modifier, other, ModifierState, InjectionOrigin, physical_or_unmarked, marked_injected,
  lower_integrity_injected, EventSequence, new_sequence, ObservedInputEvent,
}

unfoldable pub validate_plan : EditPlan → Result Str (Unit {0})
validate_plan plan =
    if contains_char plan.insert_text 0
    then err (codes "insert_text must not contain NUL")
    else ok tt

pub record NativeKeyboardEvent : Type 0 where
  pub message : ℕ
  pub virtual_key : ℕ
  pub flags : ℕ
  pub sequence : ℕ

pub record RawKeyboardEvent : Type 0 where
  pub virtual_key : ℕ
  pub flags : ℕ
  pub message : ℕ
  pub sequence : ℕ

unfoldable pub is_supported_message : ℕ → Bool
is_supported_message m = m == 0x0100 || (m == 0x0101 || (m == 0x0104 || m == 0x0105))

pub record ModifierTracker : Type 0 where
  pub shift_generic : Bool
  pub shift_left : Bool
  pub shift_right : Bool
  pub control_generic : Bool
  pub control_left : Bool
  pub control_right : Bool
  pub alt_generic : Bool
  pub alt_left : Bool
  pub alt_right : Bool
  pub meta_left : Bool
  pub meta_right : Bool

-- `ModifierTracker::default()`
abbrev pub no_keys : ModifierTracker
no_keys = record {
  shift_generic = false;
  shift_left = false;
  shift_right = false;
  control_generic = false;
  control_left = false;
  control_right = false;
  alt_generic = false;
  alt_left = false;
  alt_right = false;
  meta_left = false;
  meta_right = false;
}

unfoldable pub is_press : KeyEventKind → Bool
is_press key_down = true
is_press system_key_down = true
is_press key_up = false
is_press system_key_up = false

unfoldable pub observe : ModifierTracker → ℕ → KeyEventKind → ModifierTracker
unfolding is_press
observe t k kind =
    let active = is_press kind in
    if k == 0x10
    then record t { shift_generic = active }
    else if k == 0xa0
    then record t { shift_left = active }
    else if k == 0xa1
    then record t { shift_right = active }
    else if k == 0x11
    then record t { control_generic = active }
    else if k == 0xa2
    then record t { control_left = active }
    else if k == 0xa3
    then record t { control_right = active }
    else if k == 0x12
    then record t { alt_generic = active }
    else if k == 0xa4
    then record t { alt_left = active }
    else if k == 0xa5
    then record t { alt_right = active }
    else if k == 0x5b
    then record t { meta_left = active }
    else if k == 0x5c
    then record t { meta_right = active }
    else t

unfoldable pub modifier_state : ModifierTracker → ModifierState
modifier_state t = record {
  shift_down = t.shift_generic || (t.shift_left || t.shift_right);
  control_down = t.control_generic || (t.control_left || t.control_right);
  alt_down = t.alt_generic || (t.alt_left || t.alt_right);
  meta_down = t.meta_left || t.meta_right;
}

unfoldable pub kind_of_message : ℕ → Option KeyEventKind
kind_of_message m =
    if m == 0x0100
    then some key_down
    else if m == 0x0101
    then some key_up
    else if m == 0x0104
    then some system_key_down
    else if m == 0x0105
    then some system_key_up
    else none

-- `.ok()`
unfoldable pub ok_value {ℓ κ} : {E : Type ℓ} {A : Type κ} → Result E A → Option A
ok_value (ok a) = some a
ok_value (err e) = none

-- The keys of punctuation on the main block, else some other key.
unfoldable pub map_punctuation : ℕ → Option ObservedKey
unfolding ok_value
map_punctuation k =
    if k == 0xba
    then ok_value (new_punctuation b';')
    else if k == 0xbb
    then ok_value (new_punctuation b'=')
    else if k == 0xbc
    then ok_value (new_punctuation b',')
    else if k == 0xbd
    then ok_value (new_punctuation b'-')
    else if k == 0xbe
    then ok_value (new_punctuation b'.')
    else if k == 0xbf
    then ok_value (new_punctuation b'/')
    else if k == 0xc0
    then ok_value (new_punctuation 0x60)
    else if k == 0xdb
    then ok_value (new_punctuation b'[')
    else if k == 0xdc
    then ok_value (new_punctuation 0x5c)
    else if k == 0xdd
    then ok_value (new_punctuation b']')
    else if k == 0xde
    then ok_value (new_punctuation 0x27)
    else some other

unfoldable pub map_modifier : ℕ → Option ObservedKey
unfolding map_punctuation
map_modifier k =
    if k == 0x10 || (k == 0xa0 || k == 0xa1)
    then some (modifier shift)
    else if k == 0x11 || (k == 0xa2 || k == 0xa3)
    then some (modifier control)
    else if k == 0x12 || (k == 0xa4 || k == 0xa5)
    then some (modifier alt)
    else if k == 0x5b || k == 0x5c
    then some (modifier meta)
    else map_punctuation k

unfoldable pub map_key : ℕ → Option ObservedKey
unfolding map_modifier
map_key k =
    if leb 0x41 k && leb k 0x5a
    then ok_value (new_letter k)
    else if leb 0x30 k && leb k 0x39
    then ok_value (new_digit (k - 0x30))
    else if k == 0x20
    then some space
    else if k == 0x0d
    then some enter
    else if k == 0x09
    then some tab
    else if k == 0x08
    then some backspace
    else if k == 0x1b
    then some escape
    else map_modifier k

unfoldable pub injection_origin_of : ℕ → InjectionOrigin
injection_origin_of flags =
    if not (bit_and flags 0x02 == 0)
    then lower_integrity_injected
    else if not (bit_and flags 0x10 == 0)
    then marked_injected
    else physical_or_unmarked

unfoldable pub map_native_event :
    NativeKeyboardEvent → ModifierTracker → Option (ObservedInputEvent × ModifierTracker)
unfolding injection_origin_of
map_native_event native tracker = do
  kind ← kind_of_message native.message
  let next_tracker = observe tracker native.virtual_key kind
  key ← map_key native.virtual_key
  sequence ← ok_value (new_sequence native.sequence)
  some (
    record {
      key = key;
      kind = kind;
      modifiers = modifier_state next_tracker;
      injection_origin = injection_origin_of native.flags;
      sequence = sequence;
    },
    next_tracker,
  )

unfoldable pub map_raw_event :
    RawKeyboardEvent → ModifierTracker → Option (ObservedInputEvent × ModifierTracker)
map_raw_event native tracker =
    map_native_event
      (record {
        message = native.message;
        virtual_key = native.virtual_key;
        flags = 0;
        sequence = native.sequence;
      })
      tracker
