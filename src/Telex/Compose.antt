-- ===== src/Telex/Compose.antt =====
-- `compose` of crates/zonkey-telex/src/lib.rs on whole key sequences.
use zon_key.Prelude.{
  ℕ, suc, ◌+◌, ◌≤◌, ◌≡◌, refl, ap, Option-cases, Bool, true, false, some, List, [], ◌∷◌, ◌++◌,
  arith, length, ok, err, ◌↔◌, inl, inr, reverse, if◌then◌else◌,
}
use mathlib.Core.List.{reverse-cons}
use zon_key.Prelude.{length-append}
use zon_key.Text.{Str, is_ascii, all}
use zon_key.Types.{non_ascii_input}
use zon_key.Telex.Vowels.{Tone, decode_vowel}
use zon_key.Telex.{
  requested_tone, shape_vowel, try_shape_transform, retone, try_tone, push_key, compose_from,
  compose,
}

-- The vector after all the keys, last element first.
pub push_keys : Str → Str → Str
push_keys out [] = out
push_keys out (c ∷ cs) = push_keys (push_key out c) cs

pub compose_from_ascii :
    (out raw : Str)
    → all is_ascii raw ≡ true
    → compose_from out raw ≡ ok (reverse (push_keys out raw))
unfolding compose_from push_keys all
compose_from_ascii out [] h = refl
compose_from_ascii out (c ∷ cs) h = ground (arith, compose_from_ascii (push_key out c) cs)

pub compose_from_non_ascii :
    (out before after : Str) (c : ℕ)
    → all is_ascii before ≡ true
    → is_ascii c ≡ false
    → compose_from out (before ++ c ∷ after) ≡ err (non_ascii_input c)
unfolding compose_from all
compose_from_non_ascii out [] after c h k = ground arith
compose_from_non_ascii out (b ∷ before) after c h k =
    ground (arith, compose_from_non_ascii (push_key out b) before after c)

compose_from-ascii : (out raw text : Str) → compose_from out raw ≡ ok text → all is_ascii raw ≡ true
unfolding compose_from all
compose_from-ascii out [] text h = refl
compose_from-ascii out (c ∷ cs) text h = ground (arith, compose_from-ascii (push_key out c) cs text)

-- Composing gives a text exactly for the sequences in ASCII.
pub compose-ok_iff :
    (raw : Str) → (all is_ascii raw ≡ true) ↔ ((text : Str) × (compose raw ≡ ok text))
unfolding compose
compose-ok_iff raw = (
  λ h. (reverse (push_keys [] raw), compose_from_ascii [] raw h),
  λ (text, h). compose_from-ascii [] raw text h,
)

-- Outside ASCII, the error of composing names the first such character.
compose-err :
    (before after : Str) (c : ℕ)
    → all is_ascii before ≡ true
    → is_ascii c ≡ false
    → compose (before ++ c ∷ after) ≡ err (non_ascii_input c)
unfolding compose
compose-err before after c h k = compose_from_non_ascii [] before after c h k

push_keys-append : (out xs ys : Str) → push_keys out (xs ++ ys) ≡ push_keys (push_keys out xs) ys
unfolding push_keys
push_keys-append out [] ys = refl
push_keys-append out (x ∷ xs) ys = push_keys-append (push_key out x) xs ys

-- No key gives more than one character.
length-shape_vowel :
    (rest : Str) (last key : ℕ)
    → length (shape_vowel rest last key).0
      ≤ (if (shape_vowel rest last key).1 then suc (suc (length rest)) else suc (length rest))
unfolding shape_vowel
length-shape_vowel rest last key = ground arith

length-try_shape_transform :
    (out : Str) (key : ℕ)
    → length (try_shape_transform out key).0
      ≤ (if (try_shape_transform out key).1 then suc (length out) else length out)
unfolding try_shape_transform
length-try_shape_transform [] key = omega arith
length-try_shape_transform (last ∷ rest) key = ground (arith, length-shape_vowel rest last key)

length-retone :
    (t : Tone) (out : Str) (r : Str × Bool) → retone t out ≡ some r → length r.0 ≡ length out
unfolding retone
length-retone t [] r h = cc
length-retone t (c ∷ rest) r h = elim (Option-cases (decode_vowel c)) [
  | inl e ↦ elim (Option-cases (retone t rest)) [
    | inl k ↦ absurd (ground arith)
    | inr (r', k) ↦ ground (arith, length-retone t rest r' k)
  ]
  | inr (v, e) ↦ ground arith
]

length-try_tone : (out : Str) (key : ℕ) → length (try_tone out key).0 ≡ length out
unfolding try_tone
length-try_tone out key = elim (Option-cases (requested_tone key)) [
  | inl e ↦ rw (e, try_tone) refl
  | inr (t, e) ↦ elim (Option-cases (retone t out)) [
    | inl k ↦ ground arith
    | inr (r, k) ↦ ground (arith, length-retone t out r k)
  ]
]

length-reverse {ℓ} : {A : Type ℓ} (xs : List A) → length (reverse xs) ≡ length xs
length-reverse [] = refl
length-reverse (x ∷ xs) =
    omega
      (arith, ap length (reverse-cons x xs), length-append (reverse xs) (x ∷ []), length-reverse xs)

length-push_key : (out : Str) (key : ℕ) → length (push_key out key) ≤ suc (length out)
unfolding push_key
length-push_key out key =
    ground (
      arith,
      length-try_shape_transform out key,
      length-try_tone (try_shape_transform out key).0 key,
    )

length-push_keys : (out raw : Str) → length (push_keys out raw) ≤ length out + length raw
unfolding push_keys
length-push_keys out [] = omega arith
length-push_keys out (c ∷ cs) =
    omega (arith, length-push_key out c, length-push_keys (push_key out c) cs)

-- The composed text never has more characters than keys were pressed.
length-compose : (raw text : Str) → compose raw ≡ ok text → length text ≤ length raw
unfolding compose
length-compose raw text h = ground (
  arith,
  compose_from_ascii [] raw (compose_from-ascii [] raw text h),
  length-reverse (push_keys [] raw),
  length-push_keys [] raw,
)
