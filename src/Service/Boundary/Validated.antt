-- ===== src/Service/Boundary/Validated.antt =====
-- What a validated boundary of crates/zonkey-service/src/lib.rs means for the sampled text.
use zon_key.Prelude.{
  ℕ, zero, suc, ◌-◌, ◌≤◌, ◌≡◌, refl, sym, ap, ◌∙◌, true, false, List, [], ◌∷◌, ◌++◌, length, take,
  drop, take-append-drop, arith, text_eq→eq, length-take,
}
use zon_key.Text.{Str}
use zon_key.Text.Utf16.{is_well_formed_utf16, encode_utf16}
use zon_key.Service.Boundary.{
  BoundarySample, is_available, same_control, boundary_validated, slice, has_prefix,
  validate_sample, splits_surrogate, validate_boundary,
}

sub_zero : (n : ℕ) → n - 0 ≡ n
sub_zero n = omega arith

sub_suc : (n m : ℕ) → suc n - suc m ≡ n - m
sub_suc n m = omega arith

take_nil : (n : ℕ) → take {A = ℕ} n [] ≡ []
take_nil zero = refl
take_nil (suc n) = refl

take-slice :
    (text : List ℕ) (from to : ℕ) → from ≤ to → take from text ++ slice text from to ≡ take to text
unfolding slice
take-slice text zero to h = rw (sub_zero to)
take-slice text (suc from) zero h = absurd (omega arith)
take-slice [] (suc from) (suc to) h = take_nil (suc to - suc from)
take-slice (u ∷ us) (suc from) (suc to) h =
    rw (sub_suc to from) (ap (◌∷◌ u) (take-slice us from to (omega arith)))

has_prefix-split :
    (text : List ℕ) (start : ℕ) (expected : Str)
    → start ≤ length text
    → has_prefix text start expected ≡ true
    → (before after : List ℕ) × (text ≡ before ++ encode_utf16 expected ++ after)
      × (length (before ++ encode_utf16 expected) ≡ start)
unfolding has_prefix
has_prefix-split text start expected h e =
    let units : List ℕ = encode_utf16 expected in
    let n : ℕ = length units in
    let fits : n ≤ start = ground arith in
    let same : slice text (start - n) start ≡ units = text_eq→eq _ _ (ground arith) in
    let front : take (start - n) text ++ units ≡ take start text =
      ap (◌++◌ (take (start - n) text)) (sym same)
      ∙ take-slice text (start - n) start (omega arith) in
    (
      take (start - n) text,
      drop start text,
      sym (take-append-drop start text) ∙ ap (λ xs. xs ++ drop start text) (sym front),
      ap length front ∙ length-take start text ∙ omega arith,
    )

-- What the verdict says of the sample.
pub record IsValidated (s : BoundarySample) (expected : Str) : Type 0 where
  pub readable : is_available s.status ≡ true
  pub supported : s.control.supported ≡ true
  pub open_text : s.control.is_secure ≡ false
  pub caret : s.start ≡ s.end
  pub inside : s.start ≤ length s.utf16_text
  pub well_formed : is_well_formed_utf16 s.utf16_text ≡ true
  pub whole : splits_surrogate s.utf16_text s.start ≡ false
  pub found : has_prefix s.utf16_text s.start expected ≡ true

validate_sample-IsValidated :
    (s : BoundarySample) (expected : Str)
    → is_available s.status ≡ true
    → validate_sample s expected ≡ boundary_validated
    → IsValidated s expected
unfolding validate_sample
validate_sample-IsValidated s expected a h = ground arith

same_samples :
    (first second : BoundarySample) (expected : Str)
    → validate_boundary first second expected ≡ boundary_validated
    → (first ≡ second)
      × (is_available second.status ≡ true)
      × (validate_sample second expected ≡ boundary_validated)
unfolding validate_boundary same_control is_available
same_samples first second expected h = ground (arith, text_eq→eq first.utf16_text second.utf16_text)

-- A boundary is validated only if the two samples are one and the same, read in full from a
-- supported control that is not secure, with a mere caret, inside a well-formed text and between
-- whole characters; and then the expected text stands in the sample right before the caret.
pub validate_boundary-IsValidated :
    (first second : BoundarySample) (expected : Str)
    → validate_boundary first second expected ≡ boundary_validated
    → (first ≡ second)
      × IsValidated second expected
      × ((before after : List ℕ) × (second.utf16_text ≡ before ++ encode_utf16 expected ++ after)
          × (length (before ++ encode_utf16 expected) ≡ second.start))
validate_boundary-IsValidated first second expected h =
    let (same, a, k) = same_samples first second expected h in
    let v = validate_sample-IsValidated second expected a k in
    (same, v, has_prefix-split second.utf16_text second.start expected v.inside v.found)
