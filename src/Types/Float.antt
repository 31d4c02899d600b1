-- ===== src/Types/Float.antt =====
-- `Confidence` of crates/zonkey-types/src/lib.rs. An `f32` is its bit pattern: the sign is bit 31,
-- the exponent is bits 23 to 30, the mantissa is the rest.
use zon_key.Prelude.{
  ℕ, ◌/◌, ◌%◌, ◌≤◌, ◌<◌, ◌≡◌, ◌⊎◌, ◌↔◌, Bool, true, not, ◌&&◌, arith, Result, ok, err, leb, ◌==◌,
  if◌then◌else◌,
}

-- `f32::is_finite`: the exponent is not all ones.
unfoldable pub is_finite : ℕ → Bool
is_finite x = not (x / 0x800000 % 256 == 255)

unfoldable pub is_negative : ℕ → Bool
is_negative x = leb 0x80000000 x

-- `a <= b` of floats that are not NaN. Of two floats of one sign the bit patterns are in the order
-- of the magnitudes, and the two zeros are equal.
unfoldable pub float_le : ℕ → ℕ → Bool
unfolding is_negative
float_le a b =
    if is_negative a
    then (if is_negative b then leb b a else true)
    else (if is_negative b then a == 0 && b == 0x80000000 else leb a b)

pub record Confidence : Type 0 where
  pub value : ℕ

abbrev pub one : ℕ
one = 0x3f800000

pub data ConfidenceError : Type 0 where
  confidence_error : ConfidenceError

unfoldable pub new_confidence : ℕ → Result ConfidenceError Confidence
unfolding is_finite float_le
new_confidence x =
    if is_finite x && (float_le 0 x && float_le x one)
    then ok (record { value = x })
    else err confidence_error

-- The four constants, 0.0, 0.98, 0.99 and 1.0, rounded to the nearest `f32`.
abbrev pub zero_confidence : Confidence
zero_confidence = record { value = 0 }

abbrev pub english_exact : Confidence
english_exact = record { value = 0x3f7ae148 }

abbrev pub technical_exact : Confidence
technical_exact = record { value = 0x3f7d70a4 }

abbrev pub certain : Confidence
certain = record { value = one }

-- The derived `>=`.
unfoldable pub confidence_ge : Confidence → Confidence → Bool
unfolding float_le
confidence_ge a b = float_le b.value a.value

-- A `u32` is accepted as the pattern of a confidence exactly when it is the pattern of a number in
-- the range: a pattern without sign up to that of 1.0, or that of -0.0.
new_confidence-ok_iff :
    (x : ℕ)
    → x < 0x100000000
    → (new_confidence x ≡ ok (record { value = x })) ↔ ((x ≤ one) ⊎ (x ≡ 0x80000000))
unfolding new_confidence
new_confidence-ok_iff x h = (λ e. ground arith, λ e. ground arith)
