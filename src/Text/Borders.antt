-- ===== src/Text/Borders.antt =====
-- The borders of the characters in UTF-16.
use zon_key.Prelude.{
  ℕ, ◌≡◌, refl, sym, ap, ◌∙◌, true, false, List, [], ◌∷◌, ◌++◌, append_assoc, ltb, Bool, some, ◌&&◌,
  arith, Bool-cases, inl, inr, length, get_elem?,
}
use zon_key.Text.{Str, all}
use zon_key.Text.Utf8.{is_scalar}
use zon_key.Text.Utf16.{
  is_high_surrogate, is_low_surrogate, is_well_formed_utf16, encode_utf16_char, encode_utf16,
}

pub encode_utf16-append : (a b : Str) → encode_utf16 (a ++ b) ≡ encode_utf16 a ++ encode_utf16 b
unfolding encode_utf16
encode_utf16-append [] b = refl
encode_utf16-append (c ∷ cs) b =
    ap (◌++◌ (encode_utf16_char c)) (encode_utf16-append cs b)
    ∙ sym (append_assoc (encode_utf16_char c) (encode_utf16 cs) (encode_utf16 b))

pub all-append {ℓ} :
    {A : Type ℓ} (p : A → Bool) (a b : List A) → all p (a ++ b) ≡ (all p a && all p b)
unfolding all
all-append p [] b = refl
all-append p (x ∷ xs) b = ground (arith, all-append p xs b)

is_well_formed_utf16-single :
    (u : ℕ) (rest : List ℕ)
    → is_high_surrogate u ≡ false
    → is_low_surrogate u ≡ false
    → is_well_formed_utf16 rest ≡ true
    → is_well_formed_utf16 (u ∷ rest) ≡ true
unfolding is_well_formed_utf16
is_well_formed_utf16-single u [] h l w = ground arith
is_well_formed_utf16-single u (v ∷ rest) h l w = ground arith

is_well_formed_utf16-pair :
    (u v : ℕ) (rest : List ℕ)
    → is_high_surrogate u ≡ true
    → is_low_surrogate v ≡ true
    → is_well_formed_utf16 rest ≡ true
    → is_well_formed_utf16 (u ∷ v ∷ rest) ≡ true
unfolding is_well_formed_utf16
is_well_formed_utf16-pair u v rest h l w = ground arith

is_well_formed_utf16-encode_utf16_char :
    (c : ℕ) (rest : List ℕ)
    → is_scalar c ≡ true
    → is_well_formed_utf16 rest ≡ true
    → is_well_formed_utf16 (encode_utf16_char c ++ rest) ≡ true
unfolding encode_utf16_char is_scalar is_high_surrogate is_low_surrogate
is_well_formed_utf16-encode_utf16_char c rest h w = elim (Bool-cases (ltb c 0x10000)) [
  | inl p ↦ rw p (is_well_formed_utf16-single c rest (ground arith) (ground arith) w)
  | inr p ↦ rw p (is_well_formed_utf16-pair _ _ rest (ground arith) (ground arith) w)
]

pub is_well_formed_utf16-encode_utf16 :
    (text : Str) → all is_scalar text ≡ true → is_well_formed_utf16 (encode_utf16 text) ≡ true
unfolding encode_utf16 all is_well_formed_utf16
is_well_formed_utf16-encode_utf16 [] h = refl
is_well_formed_utf16-encode_utf16 (c ∷ cs) h =
    is_well_formed_utf16-encode_utf16_char c (encode_utf16 cs) (ground arith)
      (is_well_formed_utf16-encode_utf16 cs (ground arith))

-- No character starts with a low surrogate.
pub get_elem?-encode_utf16 :
    (text : Str) (u : ℕ)
    → all is_scalar text ≡ true
    → get_elem? (encode_utf16 text) 0 ≡ some u
    → is_low_surrogate u ≡ false
unfolding encode_utf16 encode_utf16_char all is_scalar is_low_surrogate
get_elem?-encode_utf16 [] u h e = absurd (cc)
get_elem?-encode_utf16 (c ∷ cs) u h e = elim (Bool-cases (ltb c 0x10000)) [
  | inl p ↦ ground (arith, p, e)
  | inr p ↦ ground (arith, p, e)
]

pub get_elem?-prefix : (xs ys : List ℕ) → get_elem? (xs ++ ys) (length xs) ≡ get_elem? ys 0
get_elem?-prefix [] ys = refl
get_elem?-prefix (x ∷ xs) ys = get_elem?-prefix xs ys
