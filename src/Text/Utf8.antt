-- ===== src/Text/Utf8.antt =====
-- UTF-8: `str::as_bytes` and `str::from_utf8`.
use zon_key.Prelude.{
  ℕ, zero, suc, ◌+◌, ◌-◌, ◌*◌, ◌/◌, ◌%◌, ◌≡◌, refl, Bool, true, not, ◌&&◌, ◌||◌, Option, none, some,
  List, [], ◌∷◌, ◌++◌, arith, ltb, leb, if◌then◌else◌, length, length-append, Bool-cases, inl, inr,
}
use zon_key.Text.{Str, all, utf8_width, byte_len}

-- A `char` is a code point that is no surrogate.
unfoldable pub is_scalar : ℕ → Bool
is_scalar c = ltb c 0xd800 || (leb 0xe000 c && ltb c 0x110000)

unfoldable pub encode_char : ℕ → List ℕ
encode_char c =
    if ltb c 0x80
    then c ∷ []
    else if ltb c 0x800
    then (0xc0 + c / 64) ∷ (0x80 + c % 64) ∷ []
    else if ltb c 0x10000
    then (0xe0 + c / 4096) ∷ (0x80 + c / 64 % 64) ∷ (0x80 + c % 64) ∷ []
    else (0xf0 + c / 262144) ∷ (0x80 + c / 4096 % 64) ∷ (0x80 + c / 64 % 64) ∷ (0x80 + c % 64) ∷ []

unfoldable pub as_bytes : Str → List ℕ
as_bytes [] = []
as_bytes (c ∷ cs) = encode_char c ++ as_bytes cs

-- The bytes that a sequence still wants, the value so far, and the least value that the sequence may
-- stand for: a shorter form of the same character is refused.
pub record Pending : Type 0 where
  pub missing : ℕ
  pub value : ℕ
  pub least : ℕ

abbrev pub at_start : Pending
at_start = record { missing = 0; value = 0; least = 0 }

-- What a byte does: a finished character, or a sequence to go on with; `none` if it is out of place.
pub data Reading : Type 0 where
  finished : ℕ → Reading
  goes_on : Pending → Reading
  broken : Reading

unfoldable pub read_lead : ℕ → Reading
read_lead b =
    if ltb b 0x80
    then finished b
    else if ltb b 0xc0
    then broken
    else if ltb b 0xe0
    then goes_on (record { missing = 1; value = b - 0xc0; least = 0x80 })
    else if ltb b 0xf0
    then goes_on (record { missing = 2; value = b - 0xe0; least = 0x800 })
    else if ltb b 0xf8
    then goes_on (record { missing = 3; value = b - 0xf0; least = 0x10000 })
    else broken

unfoldable pub read_continuation : ℕ → Pending → ℕ → Reading
unfolding is_scalar
read_continuation left p b =
    let value = p.value * 64 + (b - 0x80) in
    if not (leb 0x80 b && ltb b 0xc0) then broken else elim left [
      | zero ↦ if leb p.least value && is_scalar value then finished value else broken
      | suc n ↦ goes_on (record { missing = suc n; value = value; least = p.least })
    ]

unfoldable pub read_byte : Pending → ℕ → Reading
unfolding read_lead read_continuation
read_byte p b = elim p.missing [ zero ↦ read_lead b | suc left ↦ read_continuation left p b ]

unfoldable pub decode_bytes : Pending → List ℕ → Option Str
decode_bytes p [] = elim p.missing [ zero ↦ some [] | suc n ↦ none ]
decode_bytes p (b ∷ bs) = elim (read_byte p b) [
  | finished c ↦ elim (decode_bytes at_start bs) [ none ↦ none | some cs ↦ some (c ∷ cs) ]
  | goes_on q ↦ decode_bytes q bs
  | broken ↦ none
]

unfoldable pub from_utf8 : List ℕ → Option Str
unfolding decode_bytes
from_utf8 bs = decode_bytes at_start bs

-- A list with an element in front, where there is one.
abbrev pub cons_some : ℕ → Option Str → Option Str
cons_some c none = none
cons_some c (some cs) = some (c ∷ cs)

read_byte-one : (c : ℕ) → ltb c 0x80 ≡ true → read_byte at_start c ≡ finished c
unfolding read_byte read_lead
read_byte-one c h = ground arith

-- A continuation byte, as it is read.
read_continuation-byte :
    (left v least n : ℕ)
    → read_continuation
        (suc left)
        (record { missing = suc (suc left); value = v; least = least })
        (0x80 + n % 64)
      ≡ goes_on (record { missing = suc left; value = v * 64 + n % 64; least = least })
unfolding read_continuation
read_continuation-byte left v least n = ground arith

read_continuation-last :
    (missing v least n : ℕ)
    → leb least (v * 64 + n % 64) ≡ true
    → is_scalar (v * 64 + n % 64) ≡ true
    → read_continuation 0 (record { missing = missing; value = v; least = least }) (0x80 + n % 64)
      ≡ finished (v * 64 + n % 64)
unfolding read_continuation
read_continuation-last missing v least n h k = ground arith

decode_bytes-encode_char :
    (c : ℕ) (rest : List ℕ)
    → is_scalar c ≡ true
    → decode_bytes at_start (encode_char c ++ rest) ≡ cons_some c (decode_bytes at_start rest)
unfolding decode_bytes read_byte encode_char read_lead read_continuation is_scalar
decode_bytes-encode_char c rest h = elim (Bool-cases (ltb c 0x80)) [
  | inl a ↦ ground arith
  | inr a ↦ elim (Bool-cases (ltb c 0x800)) [
    | inl b ↦ ground arith
    | inr b ↦ elim (Bool-cases (ltb c 0x10000)) [ inl d ↦ ground arith | inr d ↦ ground arith ]
  ]
]

decode_bytes-as_bytes :
    (text : Str) → all is_scalar text ≡ true → decode_bytes at_start (as_bytes text) ≡ some text
unfolding as_bytes all decode_bytes
decode_bytes-as_bytes [] h = refl
decode_bytes-as_bytes (c ∷ cs) h =
    ground (arith, decode_bytes-encode_char c (as_bytes cs), decode_bytes-as_bytes cs)

-- A text is read back from its bytes.
pub from_utf8-as_bytes :
    (text : Str) → all is_scalar text ≡ true → from_utf8 (as_bytes text) ≡ some text
unfolding from_utf8
from_utf8-as_bytes text h = decode_bytes-as_bytes text h

length-encode_char : (c : ℕ) → length (encode_char c) ≡ utf8_width c
unfolding encode_char utf8_width
length-encode_char c = ground arith

pub length-as_bytes : (text : Str) → length (as_bytes text) ≡ byte_len text
unfolding as_bytes byte_len
length-as_bytes [] = refl
length-as_bytes (c ∷ cs) =
    omega
      (arith, length-append (encode_char c) (as_bytes cs), length-encode_char c, length-as_bytes cs)
