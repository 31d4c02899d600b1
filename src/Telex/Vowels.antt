-- ===== src/Telex/Vowels.antt =====
-- The vowel tables of crates/zonkey-telex/src/lib.rs.
use zon_key.Prelude.{
  ℕ, zero, suc, ◌≡◌, Bool, Option, none, some, List, [], ◌∷◌, arith, ◌==◌, if◌then◌else◌, get_elem?,
  get_or,
}
use zon_key.Text.{Str}

pub data Tone : Type 0 where
  toneless grave acute hook tilde dot : Tone

unfoldable pub tone_index : Tone → ℕ
tone_index toneless = 0
tone_index grave = 1
tone_index acute = 2
tone_index hook = 3
tone_index tilde = 4
tone_index dot = 5

-- The match on the column in `decode_vowel`. A row has six columns, so that the arm which the
-- source marks as unreachable is joined with the last one.
unfoldable pub tone_at : ℕ → Tone
tone_at zero = toneless
tone_at (suc zero) = grave
tone_at (suc (suc zero)) = acute
tone_at (suc (suc (suc zero))) = hook
tone_at (suc (suc (suc (suc zero)))) = tilde
tone_at (suc (suc (suc (suc (suc n))))) = dot

pub data VowelShape : Type 0 where
  a_plain a_breve a_circ e_plain e_circ i_plain : VowelShape
  o_plain o_circ o_horn u_plain u_horn y_plain : VowelShape

-- The constants `VOWELS` and `SHAPES`.
abbrev pub vowels : List Str
vowels =
    (97 ∷ 0xe0 ∷ 0xe1 ∷ 0x1ea3 ∷ 0xe3 ∷ 0x1ea1 ∷ [])
    ∷ (0x103 ∷ 0x1eb1 ∷ 0x1eaf ∷ 0x1eb3 ∷ 0x1eb5 ∷ 0x1eb7 ∷ [])
    ∷ (0xe2 ∷ 0x1ea7 ∷ 0x1ea5 ∷ 0x1ea9 ∷ 0x1eab ∷ 0x1ead ∷ [])
    ∷ (101 ∷ 0xe8 ∷ 0xe9 ∷ 0x1ebb ∷ 0x1ebd ∷ 0x1eb9 ∷ [])
    ∷ (0xea ∷ 0x1ec1 ∷ 0x1ebf ∷ 0x1ec3 ∷ 0x1ec5 ∷ 0x1ec7 ∷ [])
    ∷ (105 ∷ 0xec ∷ 0xed ∷ 0x1ec9 ∷ 0x129 ∷ 0x1ecb ∷ [])
    ∷ (111 ∷ 0xf2 ∷ 0xf3 ∷ 0x1ecf ∷ 0xf5 ∷ 0x1ecd ∷ [])
    ∷ (0xf4 ∷ 0x1ed3 ∷ 0x1ed1 ∷ 0x1ed5 ∷ 0x1ed7 ∷ 0x1ed9 ∷ [])
    ∷ (0x1a1 ∷ 0x1edd ∷ 0x1edb ∷ 0x1edf ∷ 0x1ee1 ∷ 0x1ee3 ∷ [])
    ∷ (117 ∷ 0xf9 ∷ 0xfa ∷ 0x1ee7 ∷ 0x169 ∷ 0x1ee5 ∷ [])
    ∷ (0x1b0 ∷ 0x1eeb ∷ 0x1ee9 ∷ 0x1eed ∷ 0x1eef ∷ 0x1ef1 ∷ [])
    ∷ (121 ∷ 0x1ef3 ∷ 0xfd ∷ 0x1ef7 ∷ 0x1ef9 ∷ 0x1ef5 ∷ [])
    ∷ []

abbrev pub shapes : List VowelShape
shapes =
    a_plain ∷ a_breve ∷ a_circ ∷ e_plain ∷ e_circ ∷ i_plain ∷ o_plain ∷ o_circ ∷ o_horn ∷ u_plain
    ∷ u_horn ∷ y_plain ∷ []

-- The derived `==` of shapes, by discriminants.
unfoldable pub discriminant : VowelShape → ℕ
discriminant a_plain = 0
discriminant a_breve = 1
discriminant a_circ = 2
discriminant e_plain = 3
discriminant e_circ = 4
discriminant i_plain = 5
discriminant o_plain = 6
discriminant o_circ = 7
discriminant o_horn = 8
discriminant u_plain = 9
discriminant u_horn = 10
discriminant y_plain = 11

-- `iter().position(..)`
unfoldable pub position {ℓ} : {A : Type ℓ} → (A → Bool) → List A → Option ℕ
position p [] = none
position p (x ∷ xs) =
    if p x then some 0 else elim (position p xs) [ none ↦ none | some n ↦ some (suc n) ]

-- The loop of `decode_vowel`, from row `n` on.
unfoldable pub decode_rows : ℕ → List Str → ℕ → Option (VowelShape × Tone)
unfolding position tone_at
decode_rows n [] c = none
decode_rows n (row ∷ rows) c = elim (position (λ x. x == c) row) [
  | some t ↦ elim (get_elem? shapes n) [ none ↦ none | some s ↦ some (s, tone_at t) ]
  | none ↦ decode_rows (suc n) rows c
]

unfoldable pub decode_vowel : ℕ → Option (VowelShape × Tone)
unfolding decode_rows
decode_vowel c = decode_rows 0 vowels c

unfoldable pub row_of : VowelShape → Str
unfolding position discriminant
row_of s = elim (position (λ x. discriminant x == discriminant s) shapes) [
  | some n ↦ get_or vowels n []
  | none ↦ []
]

unfoldable pub encode_vowel : VowelShape → Tone → ℕ
unfolding row_of tone_index
encode_vowel s t = get_or (row_of s) (tone_index t) 0

-- Every vowel with its tone is read back from its character.
pub decode_vowel-encode_vowel :
    (s : VowelShape) (t : Tone) → decode_vowel (encode_vowel s t) ≡ some (s, t)
unfolding decode_vowel encode_vowel
decode_vowel-encode_vowel a_plain t = ground arith
decode_vowel-encode_vowel _ t = ground arith
