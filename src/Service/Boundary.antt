-- ===== src/Service/Boundary.antt =====
-- `validate_boundary` of crates/zonkey-service/src/lib.rs. The units of a text are UTF-16.
pub mod Validated
pub mod Complete
use zon_key.Prelude.{
  ℕ, zero, suc, ◌+◌, ◌-◌, Bool, true, false, not, ◌&&◌, ◌||◌, Option, none, some, List, [], ◌∷◌,
  length, take, drop, get_elem?, ltb, leb, ◌==◌, if◌then◌else◌, text_eq,
}
use zon_key.Text.{Str}
use zon_key.Text.Utf16.{is_high_surrogate, is_low_surrogate, is_well_formed_utf16, encode_utf16}

pub data BoundarySampleStatus : Type 0 where
  available failed timed_out : BoundarySampleStatus

pub record BoundaryControlEvidence : Type 0 where
  pub identity : ℕ
  pub supported : Bool
  pub is_secure : Bool
  pub style : ℕ

pub record BoundarySample : Type 0 where
  pub utf16_text : List ℕ
  pub start : ℕ
  pub end : ℕ
  pub control : BoundaryControlEvidence
  pub status : BoundarySampleStatus

pub data BoundaryRejection : Type 0 where
  sample_unavailable samples_disagree identity_changed style_changed : BoundaryRejection
  unsupported_control secure_control selection_not_empty index_out_of_bounds : BoundaryRejection
  invalid_range malformed_utf16 surrogate_split prefix_mismatch : BoundaryRejection

pub data BoundaryValidation : Type 0 where
  boundary_validated : BoundaryValidation
  rejected : BoundaryRejection → BoundaryValidation

unfoldable pub is_available : BoundarySampleStatus → Bool
is_available available = true
is_available s = false

abbrev bool_eq : Bool → Bool → Bool
bool_eq true b = b
bool_eq false b = not b

-- The derived `==` of the evidence.
unfoldable pub same_control : BoundaryControlEvidence → BoundaryControlEvidence → Bool
same_control a b =
    a.identity == b.identity
    && (bool_eq a.supported b.supported && (bool_eq a.is_secure b.is_secure && a.style == b.style))

abbrev pub unit_is : (ℕ → Bool) → Option ℕ → Bool
unit_is p none = false
unit_is p (some u) = p u

-- The index lies between the two halves of a pair.
unfoldable pub splits_surrogate : List ℕ → ℕ → Bool
splits_surrogate text index =
    ltb 0 index
    && (ltb index (length text)
        && (unit_is is_high_surrogate (get_elem? text (index - 1))
            && unit_is is_low_surrogate (get_elem? text index)))

-- The units from `from` up to `to`.
unfoldable pub slice : List ℕ → ℕ → ℕ → List ℕ
slice text from to = take (to - from) (drop from text)

-- The last test: the expected text stands right before the caret.
unfoldable pub has_prefix : List ℕ → ℕ → Str → Bool
unfolding slice
has_prefix text start expected =
    let units = encode_utf16 expected in
    leb (length units) start && text_eq (slice text (start - length units) start) units

-- The tests of the second sample alone, in the order of the source.
unfoldable pub validate_sample : BoundarySample → Str → BoundaryValidation
validate_sample s expected =
    if not s.control.supported
    then rejected unsupported_control
    else if s.control.is_secure
    then rejected secure_control
    else if ltb (length s.utf16_text) s.start || ltb (length s.utf16_text) s.end
    then rejected index_out_of_bounds
    else if ltb s.end s.start
    then rejected invalid_range
    else if not (s.start == s.end)
    then rejected selection_not_empty
    else if not (is_well_formed_utf16 s.utf16_text)
    then rejected malformed_utf16
    else if splits_surrogate s.utf16_text s.start || splits_surrogate s.utf16_text s.end
    then rejected surrogate_split
    else if has_prefix s.utf16_text s.start expected
    then boundary_validated
    else rejected prefix_mismatch

unfoldable pub validate_boundary : BoundarySample → BoundarySample → Str → BoundaryValidation
validate_boundary first second expected =
    if not (is_available first.status) || not (is_available second.status)
    then rejected sample_unavailable
    else if not (first.control.identity == second.control.identity)
    then rejected identity_changed
    else if not (first.control.style == second.control.style)
    then rejected style_changed
    else if not (same_control first.control second.control)
        || (not (text_eq first.utf16_text second.utf16_text)
            || (not (first.start == second.start) || not (first.end == second.end)))
    then rejected samples_disagree
    else validate_sample second expected
