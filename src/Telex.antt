-- ===== src/Telex.antt =====
-- crates/zonkey-telex/src/lib.rs: the composition of a raw key sequence. The vector `output` is the
-- list of its elements from the last to the first, so that the end of the vector is the head.
pub mod Vowels
pub mod Undo
pub mod Compose
pub mod Engine
use zon_key.Prelude.{
  ℕ, Bool, true, false, ◌&&◌, Option, none, some, List, [], ◌∷◌, ◌==◌, if◌then◌else◌, Result, ok,
  err, reverse,
}
use zon_key.Text.{Str, is_ascii}
use zon_key.Types.{UnsupportedBehavior, non_ascii_input}
use Vowels.{
  Tone, toneless, grave, acute, hook, tilde, dot, tone_index, VowelShape, a_plain, a_breve, a_circ,
  e_plain, e_circ, i_plain, o_plain, o_circ, o_horn, u_plain, u_horn, y_plain, decode_vowel,
  encode_vowel,
}

pub data ShapeTransition : Type 0 where
  replace undo : VowelShape → ShapeTransition

-- The match on the key and the shape in `try_shape_transform`.
unfoldable pub transition_for : ℕ → VowelShape → Option ShapeTransition
transition_for key a_plain =
    if key == b'a'
    then some (replace a_circ)
    else if key == b'w'
    then some (replace a_breve)
    else none
transition_for key a_circ = if key == b'a' then some (undo a_plain) else none
transition_for key a_breve = if key == b'w' then some (undo a_plain) else none
transition_for key e_plain = if key == b'e' then some (replace e_circ) else none
transition_for key e_circ = if key == b'e' then some (undo e_plain) else none
transition_for key o_plain =
    if key == b'o'
    then some (replace o_circ)
    else if key == b'w'
    then some (replace o_horn)
    else none
transition_for key o_circ = if key == b'o' then some (undo o_plain) else none
transition_for key o_horn = if key == b'w' then some (undo o_plain) else none
transition_for key u_plain = if key == b'w' then some (replace u_horn) else none
transition_for key u_horn = if key == b'w' then some (undo u_plain) else none
transition_for key i_plain = none
transition_for key y_plain = none

-- The last vowel is rewritten; an undo also gives the key itself.
unfoldable pub shape_vowel : Str → ℕ → ℕ → Str × Bool
shape_vowel rest last key = elim (decode_vowel last) [
  | none ↦ (last ∷ rest, false)
  | some (shape, tone) ↦ elim (transition_for key shape) [
    | none ↦ (last ∷ rest, false)
    | some (replace next) ↦ (encode_vowel next tone ∷ rest, true)
    | some (undo next) ↦ (key ∷ encode_vowel next tone ∷ rest, true)
  ]
]

-- The code of `đ`.
abbrev pub d_stroke : ℕ
d_stroke = 0x111

unfoldable pub try_shape_transform : Str → ℕ → Str × Bool
try_shape_transform [] key = ([], false)
try_shape_transform (last ∷ rest) key =
    if key == b'd' && last == b'd'
    then (d_stroke ∷ rest, true)
    else if key == b'd' && last == d_stroke
    then (b'd' ∷ b'd' ∷ rest, true)
    else shape_vowel rest last key

-- The match on the key in `try_tone`.
unfoldable pub requested_tone : ℕ → Option Tone
requested_tone key =
    if key == b'f'
    then some grave
    else if key == b's'
    then some acute
    else if key == b'r'
    then some hook
    else if key == b'x'
    then some tilde
    else if key == b'j'
    then some dot
    else none

-- The tone of the last vowel is set, or taken away if it is there; `none` if there is no vowel.
unfoldable pub retone : Tone → Str → Option (Str × Bool)
retone requested [] = none
retone requested (c ∷ rest) = elim (decode_vowel c) [
  | some (shape, current) ↦ some (
      if tone_index current == tone_index requested
      then (encode_vowel shape toneless ∷ rest, false)
      else (encode_vowel shape requested ∷ rest, true))
  | none ↦ elim (retone requested rest) [ none ↦ none | some (out, done) ↦ some (c ∷ out, done) ]
]

unfoldable pub try_tone : Str → ℕ → Str × Bool
try_tone out key = elim (requested_tone key) [
  | none ↦ (out, false)
  | some requested ↦ elim (retone requested out) [ none ↦ (out, false) | some r ↦ r ]
]

-- One round of the loop of `compose`, for a character in ASCII.
unfoldable pub push_key : Str → ℕ → Str
push_key out key =
    let (shaped, reshaped) = try_shape_transform out key in
    let (toned, retoned) = try_tone shaped key in
    if reshaped then shaped else if retoned then toned else key ∷ toned

unfoldable pub compose_from : Str → Str → Result UnsupportedBehavior Str
unfolding is_ascii
compose_from out [] = ok (reverse out)
compose_from out (c ∷ cs) =
    if is_ascii c then compose_from (push_key out c) cs else err (non_ascii_input c)

unfoldable pub compose : Str → Result UnsupportedBehavior Str
unfolding compose_from
compose raw = compose_from [] raw
