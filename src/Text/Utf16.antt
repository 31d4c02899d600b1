-- ===== src/Text/Utf16.antt =====
-- UTF-16 as the program uses it: `char::decode_utf16` and `str::encode_utf16`.
use zon_key.Prelude.{
  ℕ, ◌+◌, ◌-◌, ◌/◌, ◌%◌, Bool, true, ◌&&◌, not, List, [], ◌∷◌, ◌++◌, leb, ltb, if◌then◌else◌,
}
use zon_key.Text.{Str}

unfoldable pub is_high_surrogate : ℕ → Bool
is_high_surrogate u = leb 0xd800 u && leb u 0xdbff

unfoldable pub is_low_surrogate : ℕ → Bool
is_low_surrogate u = leb 0xdc00 u && leb u 0xdfff

-- Every low surrogate stands behind a high one, and every high one in front of a low one.
unfoldable pub is_well_formed_utf16 : List ℕ → Bool
is_well_formed_utf16 [] = true
is_well_formed_utf16 (u ∷ []) = not (is_high_surrogate u) && not (is_low_surrogate u)
is_well_formed_utf16 (u ∷ v ∷ rest) =
    let single = is_well_formed_utf16 (v ∷ rest) in
    let pair = is_well_formed_utf16 rest in
    if is_high_surrogate u then is_low_surrogate v && pair else not (is_low_surrogate u) && single

unfoldable pub encode_utf16_char : ℕ → List ℕ
encode_utf16_char c =
    if ltb c 0x10000
    then c ∷ []
    else (0xd800 + (c - 0x10000) / 0x400) ∷ (0xdc00 + (c - 0x10000) % 0x400) ∷ []

unfoldable pub encode_utf16 : Str → List ℕ
encode_utf16 [] = []
encode_utf16 (c ∷ cs) = encode_utf16_char c ++ encode_utf16 cs
