-- ===== src/Service/Boundary/Complete.antt =====
-- Which samples crates/zonkey-service/src/lib.rs validates.
use zon_key.Prelude.{
  ℕ, ◌-◌, ◌+◌, ◌≡◌, sym, ap, ◌∙◌, true, false, List, ◌++◌, append_assoc, length, length-append,
  take, drop, get_elem?, arith, text_eq_refl, Option-cases, inl, inr,
}
use zon_key.Bytes.{take-prefix, drop-prefix}
use zon_key.Text.{Str, all}
use zon_key.Text.Utf8.{is_scalar}
use zon_key.Text.Utf16.{is_well_formed_utf16, encode_utf16}
use zon_key.Text.Borders.{
  encode_utf16-append, all-append, is_well_formed_utf16-encode_utf16, get_elem?-encode_utf16,
  get_elem?-prefix,
}
use zon_key.Service.Boundary.{
  BoundarySample, is_available, same_control, boundary_validated, slice, has_prefix,
  validate_sample, splits_surrogate, validate_boundary,
}
use zon_key.Service.Boundary.Validated.{IsValidated}

IsValidated-validate_sample :
    (s : BoundarySample) (expected : Str)
    → IsValidated s expected
    → validate_sample s expected ≡ boundary_validated
unfolding validate_sample
IsValidated-validate_sample s expected v = ground arith

slice-middle : (xs ys zs : List ℕ) → slice (xs ++ ys ++ zs) (length xs) (length xs + length ys) ≡ ys
unfolding slice
slice-middle xs ys zs =
    let n : (length xs + length ys) - length xs ≡ length ys = omega arith in
    ap (λ us. slice us (length xs) (length xs + length ys)) (append_assoc xs ys zs)
    ∙ ap (λ k. take k (drop (length xs) (xs ++ (ys ++ zs)))) n
    ∙ ap (take (length ys)) (drop-prefix xs (ys ++ zs))
    ∙ take-prefix ys zs

has_prefix-middle :
    (xs zs : List ℕ) (expected : Str)
    → has_prefix
        (xs ++ encode_utf16 expected ++ zs)
        (length xs + length (encode_utf16 expected))
        expected
      ≡ true
unfolding has_prefix
has_prefix-middle xs zs expected =
    let units : List ℕ = encode_utf16 expected in
    let n : (length xs + length units) - length units ≡ length xs = omega arith in
    let same : slice (xs ++ units ++ zs) ((length xs + length units) - length units)
          (length xs + length units)
        ≡ units =
      ap (λ k. slice (xs ++ units ++ zs) k (length xs + length units)) n
      ∙ slice-middle xs units zs in
    rw same (ground (arith, text_eq_refl units))

-- The caret at the end of whole characters, with whole characters behind it.
splits_surrogate-border :
    (xs : List ℕ) (after : Str)
    → all is_scalar after ≡ true
    → splits_surrogate (xs ++ encode_utf16 after) (length xs) ≡ false
unfolding splits_surrogate
splits_surrogate-border xs after h = elim (Option-cases (get_elem? (encode_utf16 after) 0)) [
  | inl e ↦ ground (arith, get_elem?-prefix xs (encode_utf16 after), e)
  | inr (u, e) ↦
      ground
        (arith, get_elem?-prefix xs (encode_utf16 after), e, get_elem?-encode_utf16 after u h e)
]

-- A sample that is the UTF-16 of a text of scalar values, with a mere caret at the end of the
-- expected part of that text, whatever text stands before and after it, is validated when it is
-- read twice from a supported control that is not secure.
pub validate_boundary-encode_utf16 :
    (before expected after : Str) (s : BoundarySample)
    → all is_scalar (before ++ expected ++ after) ≡ true
    → s.utf16_text ≡ encode_utf16 (before ++ expected ++ after)
    → s.start ≡ length (encode_utf16 (before ++ expected))
    → s.end ≡ s.start
    → is_available s.status ≡ true
    → s.control.supported ≡ true
    → s.control.is_secure ≡ false
    → validate_boundary s s expected ≡ boundary_validated
unfolding validate_boundary same_control
validate_boundary-encode_utf16 before expected after s scalar text start caret readable supported
      open_text =
    let xs = encode_utf16 before in
    let ys = encode_utf16 expected in
    let zs = encode_utf16 after in
    let whole_text : s.utf16_text ≡ encode_utf16 (before ++ expected) ++ zs =
      text ∙ encode_utf16-append (before ++ expected) after in
    let parts : s.utf16_text ≡ xs ++ ys ++ zs =
      whole_text ∙ ap (λ us. us ++ zs) (encode_utf16-append before expected) in
    let border : s.start ≡ length xs + length ys =
      start ∙ ap length (encode_utf16-append before expected) ∙ length-append xs ys in
    let v : IsValidated s expected = record {
      readable = readable;
      supported = supported;
      open_text = open_text;
      caret = sym caret;
      inside = omega (
        arith,
        start,
        ap length whole_text,
        length-append (encode_utf16 (before ++ expected)) zs,
      );
      well_formed =
          ap is_well_formed_utf16 text
          ∙ is_well_formed_utf16-encode_utf16 (before ++ expected ++ after) scalar;
      whole =
          rw (whole_text, start)
            (splits_surrogate-border (encode_utf16 (before ++ expected)) after
              (ground (arith, scalar, all-append is_scalar (before ++ expected) after)));
      found = rw (parts, border) (has_prefix-middle xs zs expected);
    } in
    ground (arith, IsValidated-validate_sample s expected v, text_eq_refl s.utf16_text)
