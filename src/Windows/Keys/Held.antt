-- ===== src/Windows/Keys/Held.antt =====
-- The keys that are held, after the events that crates/zonkey-win/src/lib.rs has seen.
use zon_key.Prelude.{
  ℕ, ◌≡◌, refl, ap, ◌∙◌, Bool, false, ◌||◌, List, [], ◌∷◌, ◌==◌, if◌then◌else◌, arith,
}
use zon_key.Types.Observe.{KeyEventKind}
use zon_key.Windows.Keys.{ModifierTracker, no_keys, is_press, observe, modifier_state}

unfoldable pub observe_all : ModifierTracker → List (ℕ × KeyEventKind) → ModifierTracker
observe_all t [] = t
observe_all t ((k, kind) ∷ es) = observe_all (observe t k kind) es

-- Whether the last event of a key pressed it; the default is for a key that has none.
unfoldable pub held : Bool → ℕ → List (ℕ × KeyEventKind) → Bool
held b code [] = b
held b code ((k, kind) ∷ es) = held (if k == code then is_press kind else b) code es

-- A field of the tracker that only the events of one key set.
module _ (field : ModifierTracker → Bool) (code : ℕ)
    (sets : (t : ModifierTracker) (k : ℕ) (kind : KeyEventKind)
      → field (observe t k kind) ≡ (if k == code then is_press kind else field t)) where
  field-observe_all :
      (t : ModifierTracker) (es : List (ℕ × KeyEventKind))
      → field (observe_all t es) ≡ held (field t) code es
  unfolding observe_all held
  field-observe_all t [] = refl
  field-observe_all t ((k, kind) ∷ es) =
      field-observe_all (observe t k kind) es ∙ ap (λ b. held b code es) (sets t k kind)

-- The modifiers are those whose keys are held: the tracker, which looks at each event once, agrees
-- with the last event of each key.
pub modifier_state-observe_all :
    (es : List (ℕ × KeyEventKind))
    → modifier_state (observe_all no_keys es) ≡ record {
      shift_down = held false 0x10 es || (held false 0xa0 es || held false 0xa1 es);
      control_down = held false 0x11 es || (held false 0xa2 es || held false 0xa3 es);
      alt_down = held false 0x12 es || (held false 0xa4 es || held false 0xa5 es);
      meta_down = held false 0x5b es || held false 0x5c es;
    }
unfolding modifier_state observe
modifier_state-observe_all es =
    rw
      (
        field-observe_all (λ t. t.shift_generic) 0x10 (λ t k kind. ground arith) no_keys es,
        field-observe_all (λ t. t.shift_left) 0xa0 (λ t k kind. ground arith) no_keys es,
        field-observe_all (λ t. t.shift_right) 0xa1 (λ t k kind. ground arith) no_keys es,
        field-observe_all (λ t. t.control_generic) 0x11 (λ t k kind. ground arith) no_keys es,
        field-observe_all (λ t. t.control_left) 0xa2 (λ t k kind. ground arith) no_keys es,
        field-observe_all (λ t. t.control_right) 0xa3 (λ t k kind. ground arith) no_keys es,
        field-observe_all (λ t. t.alt_generic) 0x12 (λ t k kind. ground arith) no_keys es,
        field-observe_all (λ t. t.alt_left) 0xa4 (λ t k kind. ground arith) no_keys es,
        field-observe_all (λ t. t.alt_right) 0xa5 (λ t k kind. ground arith) no_keys es,
        field-observe_all (λ t. t.meta_left) 0x5b (λ t k kind. ground arith) no_keys es,
        field-observe_all (λ t. t.meta_right) 0x5c (λ t k kind. ground arith) no_keys es,
      )
      refl
