-- ===== src/Telex/Undo.antt =====
-- A key that transforms, pressed twice (`try_shape_transform` and `try_tone`).
use zon_key.Prelude.{
  ℕ, suc, ◌≡◌, ◌≢◌, ◌⊎◌, refl, Bool, true, false, Option, none, some, List, [], ◌∷◌, ◌||◌, ◌++◌,
  arith, length, ◌==◌, Option-cases, inl, inr,
}
use zon_key.Text.{Str, all, any, concat}
use zon_key.Telex.Vowels.{
  Tone, toneless, tone_index, VowelShape, a_plain, decode_vowel, decode_rows, encode_vowel,
  position, vowels, decode_vowel-encode_vowel,
}
use zon_key.Telex.{
  ShapeTransition, replace, undo, transition_for, shape_vowel, try_shape_transform, requested_tone,
  retone, try_tone, push_key,
}

abbrev is_some {ℓ} : {A : Type ℓ} → Option A → Bool
is_some none = false
is_some (some a) = true

position-is_some :
    (c : ℕ) (row : Str) → is_some (position (λ x. x == c) row) ≡ any (λ x. x == c) row
unfolding position any
position-is_some c [] = refl
position-is_some c (x ∷ xs) = ground (arith, position-is_some c xs)

any-append : (p : ℕ → Bool) (xs ys : Str) → any p (xs ++ ys) ≡ (any p xs || any p ys)
unfolding any
any-append p [] ys = refl
any-append p (x ∷ xs) ys = ground (arith, any-append p xs ys)

decode_rows-any :
    (n c : ℕ) (rows : List Str)
    → is_some (decode_rows n rows c) ≡ true
    → any (λ x. x == c) (concat rows) ≡ true
unfolding decode_rows concat
decode_rows-any n c [] h = cc
decode_rows-any n c (row ∷ rows) h =
    rw (any-append (λ x. x == c) row (concat rows))
      (ground (arith, position-is_some c row, decode_rows-any (suc n) c rows))

all-any :
    (p : ℕ → Bool) (c : ℕ) (xs : Str) → all p xs ≡ true → any (λ x. x == c) xs ≡ true → p c ≡ true
unfolding all any
all-any p c [] h k = cc
all-any p c (x ∷ xs) h k = ground (arith, all-any p c xs)

restores : ℕ → Bool
restores c = elim (decode_vowel c) [ none ↦ false | some (s, t) ↦ encode_vowel s t == c ]

vowels-restores : all restores (concat vowels) ≡ true
unfolding all concat restores decode_vowel encode_vowel
vowels-restores = refl

decode_vowel-any :
    (c : ℕ) → is_some (decode_vowel c) ≡ true → any (λ x. x == c) (concat vowels) ≡ true
unfolding decode_vowel
decode_vowel-any c h = decode_rows-any 0 c vowels h

-- What is read as a vowel is the character of that vowel.
encode_vowel-decode_vowel :
    (c : ℕ) (s : VowelShape) (t : Tone) → decode_vowel c ≡ some (s, t) → encode_vowel s t ≡ c
unfolding restores
encode_vowel-decode_vowel c s t h =
    ground (arith, all-any restores c (concat vowels) vowels-restores, decode_vowel-any c)

-- A key that replaces a shape undoes the shape that it made.
transition_for_undo :
    (key : ℕ) (s next : VowelShape)
    → transition_for key s ≡ some (replace next)
    → (transition_for key next ≡ some (undo s)) × (key ≢ b'd') × (requested_tone key ≡ none)
unfolding transition_for requested_tone
transition_for_undo key a_plain next h = ground arith
transition_for_undo key _ next h = ground arith

transition_cases :
    (o : Option ShapeTransition)
    → (o ≡ none)
      ⊎ ((next : VowelShape) × (o ≡ some (replace next)))
      ⊎ ((next : VowelShape) × (o ≡ some (undo next)))
transition_cases none = inl refl
transition_cases (some (replace next)) = inr (inl (next, refl))
transition_cases (some (undo next)) = inr (inr (next, refl))

vowel_cases :
    (o : Option (VowelShape × Tone))
    → (o ≡ none) ⊎ ((s : VowelShape) × (t : Tone) × (o ≡ some (s, t)))
vowel_cases none = inl refl
vowel_cases (some (s, t)) = inr (s, t, refl)

-- A change of shape that adds no character is a replacement.
shape_vowel_replaces :
    (rest : Str) (last key : ℕ) (out : Str)
    → shape_vowel rest last key ≡ (out, true)
    → length out ≡ suc (length rest)
    → (s : VowelShape) × (t : Tone) × (next : VowelShape) × (decode_vowel last ≡ some (s, t))
      × (transition_for key s ≡ some (replace next))
      × (out ≡ encode_vowel next t ∷ rest)
unfolding shape_vowel
shape_vowel_replaces rest last key out h k = elim (vowel_cases (decode_vowel last)) [
  | inl d ↦ absurd (ground arith)
  | inr (s, t, d) ↦ elim (transition_cases (transition_for key s)) [
    | inl e ↦ absurd (ground arith)
    | inr (inl (next, e)) ↦ (s, t, next, d, e, ground arith)
    | inr (inr (next, e)) ↦ absurd (ground arith)
  ]
]

shape_vowel_undoes :
    (rest : Str) (last key : ℕ) (s next : VowelShape) (t : Tone)
    → decode_vowel last ≡ some (s, t)
    → transition_for key s ≡ some (replace next)
    → (key ≢ b'd') × (shape_vowel rest (encode_vowel next t) key ≡ (key ∷ last ∷ rest, true))
unfolding shape_vowel
shape_vowel_undoes rest last key s next t d e = ground (
  arith,
  transition_for_undo key s next,
  decode_vowel-encode_vowel next t,
  encode_vowel-decode_vowel last s t,
)

shape_vowel_twice :
    (rest : Str) (last key : ℕ) (out : Str)
    → shape_vowel rest last key ≡ (out, true)
    → length out ≡ suc (length rest)
    → (key ≢ b'd') × (try_shape_transform out key ≡ (key ∷ last ∷ rest, true))
unfolding try_shape_transform
shape_vowel_twice rest last key out h k =
    let (s, t, next, d, e, o) = shape_vowel_replaces rest last key out h k in
    rw o (ground (arith, shape_vowel_undoes rest last key s next t d e))

try_shape_transform-nil : (key : ℕ) → try_shape_transform [] key ≡ ([], false)
unfolding try_shape_transform
try_shape_transform-nil key = refl

try_shape_transform_twice :
    (rest : Str) (last key : ℕ) (out : Str)
    → try_shape_transform (last ∷ rest) key ≡ (out, true)
    → length out ≡ suc (length rest)
    → try_shape_transform out key ≡ (key ∷ last ∷ rest, true)
unfolding try_shape_transform
try_shape_transform_twice rest last key out h k =
    ground (arith, shape_vowel_twice rest last key out)

-- A key that changed the shape of the last character without adding one, pressed again, gives the
-- text as it was before, and then the key itself.
pub push_key-try_shape_transform :
    (out : Str) (key : ℕ) (shaped : Str)
    → try_shape_transform out key ≡ (shaped, true)
    → length shaped ≡ length out
    → push_key shaped key ≡ key ∷ out
unfolding push_key
push_key-try_shape_transform [] key shaped h k = ground (arith, try_shape_transform-nil key)
push_key-try_shape_transform (last ∷ rest) key shaped h k =
    ground (arith, try_shape_transform_twice rest last key shaped)

-- The last vowel of a text and its tone.
unfoldable pub last_vowel : Str → Option (VowelShape × Tone)
last_vowel [] = none
last_vowel (c ∷ rest) = elim (decode_vowel c) [ some v ↦ some v | none ↦ last_vowel rest ]

retone_twice_here :
    (t : Tone) (s : VowelShape) (c : ℕ) (rest : Str)
    → decode_vowel c ≡ some (s, toneless)
    → tone_index t ≢ 0
    → (toned : Str) × (retone t (c ∷ rest) ≡ some (toned, true))
      × (retone t toned ≡ some (c ∷ rest, false))
      × (last_vowel toned ≡ some (s, t))
unfolding retone tone_index last_vowel
retone_twice_here t s c rest e k =
    let d = decode_vowel-encode_vowel s t in
    let r = encode_vowel-decode_vowel c s toneless e in
    (encode_vowel s t ∷ rest, ground arith, ground arith, ground arith)

retone_twice :
    (t : Tone) (s : VowelShape) (out : Str)
    → last_vowel out ≡ some (s, toneless)
    → tone_index t ≢ 0
    → (toned : Str) × (retone t out ≡ some (toned, true))
      × (retone t toned ≡ some (out, false))
      × (last_vowel toned ≡ some (s, t))
unfolding last_vowel retone
retone_twice t s [] h k = cc
retone_twice t s (c ∷ rest) h k = elim (Option-cases (decode_vowel c)) [
  | inl e ↦
      let (toned, p, q, r) = retone_twice t s rest (rw (e, last_vowel) at h) k in
      (c ∷ toned, ground arith, ground arith, ground arith)
  | inr (v, e) ↦ retone_twice_here t s c rest (ground arith) k
]

-- No key of a tone changes a shape.
shape_vowel_tone_key :
    (rest : Str) (last key : ℕ) (t : Tone)
    → requested_tone key ≡ some t
    → (shape_vowel rest last key ≡ (last ∷ rest, false)) × (key ≢ b'd') × (tone_index t ≢ 0)
unfolding shape_vowel transition_for requested_tone tone_index
shape_vowel_tone_key rest last key t h = ground arith

try_shape_transform_tone_key :
    (out : Str) (key : ℕ) (t : Tone)
    → requested_tone key ≡ some t
    → try_shape_transform out key ≡ (out, false)
unfolding try_shape_transform
try_shape_transform_tone_key [] key t h = refl
try_shape_transform_tone_key (last ∷ rest) key t h =
    ground (arith, shape_vowel_tone_key rest last key t)

-- A tone key puts its tone on the last vowel, if that has no tone yet; pressed again, it gives the
-- text as it was before, and then the key itself.
pub push_key_tone_twice :
    (out : Str) (key : ℕ) (t : Tone) (s : VowelShape)
    → requested_tone key ≡ some t
    → last_vowel out ≡ some (s, toneless)
    → (last_vowel (push_key out key) ≡ some (s, t)) × (push_key (push_key out key) key ≡ key ∷ out)
unfolding push_key try_tone
push_key_tone_twice out key t s h k =
    let (toned, p, q, r) = retone_twice t s out k (shape_vowel_tone_key [] 0 key t h).2 in
    ground (arith, try_shape_transform_tone_key out key t, try_shape_transform_tone_key toned key t)
