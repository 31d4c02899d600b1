-- ===== src/Text/Search.antt =====
-- The searching methods of Rust's `str` that the program calls.
use zon_key.Prelude.{
  ℕ, ◌+◌, ◌-◌, ◌*◌, ◌≡◌, refl, Bool, true, false, not, ◌&&◌, ◌||◌, Option, none, some, List, [],
  ◌∷◌, arith, leb, ◌==◌, if◌then◌else◌, reverse, map, text_eq,
}
use zon_key.Text.{Str, is_ascii_digit, is_whitespace, to_ascii_lowercase, any, is_empty}

unfoldable pub strip_prefix : Str → Str → Option Str
strip_prefix text [] = some text
strip_prefix [] (p ∷ ps) = none
strip_prefix (c ∷ cs) (p ∷ ps) = if c == p then strip_prefix cs ps else none

unfoldable pub starts_with : Str → Str → Bool
unfolding strip_prefix
starts_with text prefix = elim (strip_prefix text prefix) [ none ↦ false | some rest ↦ true ]

unfoldable pub contains : Str → Str → Bool
unfolding starts_with
contains [] needle = is_empty needle
contains (c ∷ cs) needle = starts_with (c ∷ cs) needle || contains cs needle

unfoldable pub contains_char : Str → ℕ → Bool
unfolding any
contains_char text c = any (λ x. x == c) text

unfoldable pub count_char : Str → ℕ → ℕ
count_char [] c = 0
count_char (x ∷ xs) c = (if x == c then 1 else 0) + count_char xs c

-- The text up to the first character of a set, and all after it.
unfoldable pub split_first : (ℕ → Bool) → Str → Str × Option Str
split_first p [] = ([], none)
split_first p (x ∷ xs) =
    let (head, tail) = split_first p xs in if p x then ([], some xs) else (x ∷ head, tail)

unfoldable pub split_once : Str → ℕ → Option (Str × Str)
unfolding split_first
split_once text c =
    let (head, tail) = split_first (λ x. x == c) text in
    elim tail [ none ↦ none | some rest ↦ some (head, rest) ]

-- The first part in front of the others.
abbrev extend_first : ℕ → List Str → List Str
extend_first x [] = (x ∷ []) ∷ []
extend_first x (part ∷ parts) = (x ∷ part) ∷ parts

unfoldable pub split : (ℕ → Bool) → Str → List Str
split p [] = [] ∷ []
split p (x ∷ xs) = let rest = split p xs in if p x then [] ∷ rest else extend_first x rest

unfoldable pub first_is : Str → ℕ → Bool
first_is [] c = false
first_is (x ∷ xs) c = x == c

unfoldable pub last_is : Str → ℕ → Bool
last_is [] c = false
last_is (x ∷ []) c = x == c
last_is (x ∷ y ∷ ys) c = last_is (y ∷ ys) c

unfoldable pub trim_start : Str → Str
trim_start [] = []
trim_start (c ∷ cs) = if is_whitespace c then trim_start cs else c ∷ cs

unfoldable pub trim : Str → Str
unfolding trim_start is_whitespace
trim text = reverse (trim_start (reverse (trim_start text)))

unfoldable pub lowercase : Str → Str
unfolding to_ascii_lowercase
lowercase text = map to_ascii_lowercase text

unfoldable pub eq_ignore_ascii_case : Str → Str → Bool
unfolding lowercase text_eq
eq_ignore_ascii_case a b = text_eq (lowercase a) (lowercase b)

-- The value of a sequence of decimal digits, `none` if another character occurs.
unfoldable pub decimal_value : ℕ → Str → Option ℕ
unfolding is_ascii_digit
decimal_value n [] = some n
decimal_value n (c ∷ cs) = if is_ascii_digit c then decimal_value (n * 10 + (c - b'0')) cs else none

unfoldable pub drop_plus : Str → Str
drop_plus [] = []
drop_plus (c ∷ cs) = if c == b'+' then cs else c ∷ cs

-- `parse::<u8>().is_ok()`: an optional plus sign, at least one digit, and a value up to 255.
unfoldable pub parses_as_u8 : Str → Bool
unfolding decimal_value drop_plus is_empty
parses_as_u8 text =
    not (is_empty (drop_plus text))
    && (elim (decimal_value 0 (drop_plus text)) [ none ↦ false | some n ↦ leb n 255 ])

lower-lower : (c : ℕ) → to_ascii_lowercase (to_ascii_lowercase c) ≡ to_ascii_lowercase c
unfolding to_ascii_lowercase
lower-lower c = ground arith

pub lowercase-lowercase : (text : Str) → lowercase (lowercase text) ≡ lowercase text
unfolding lowercase
lowercase-lowercase [] = refl
lowercase-lowercase (c ∷ cs) = ground (arith, lower-lower c, lowercase-lowercase cs)
