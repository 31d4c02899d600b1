-- ===== src/Detect/Patterns.antt =====
-- crates/zonkey-detect/src/patterns.rs: tokens that are never rewritten. `char::is_alphabetic` is the
-- Unicode table of the platform, the parameter `is_alphabetic`.
use zon_key.Prelude.{
  ℕ, ◌+◌, Bool, true, false, not, ◌&&◌, ◌||◌, Option, none, some, List, [], ◌∷◌, leb, ◌==◌,
  if◌then◌else◌, length, map, text_eq,
}
use zon_key.Text.{
  Str, codes, is_ascii, is_ascii_digit, is_ascii_lowercase, is_ascii_uppercase, is_ascii_alphabetic,
  is_ascii_alphanumeric, is_ascii_hexdigit, is_whitespace, all, any, is_empty, byte_len,
}
use zon_key.Text.Search.{
  strip_prefix, starts_with, contains, contains_char, count_char, split_once, split, first_is,
  last_is, lowercase, parses_as_u8,
}

pub data NeverTransformKind : Type 0 where
  url email path domain ip_address command_option identifier semantic_version uuid :
      NeverTransformKind
  hex_or_hash secret_like : NeverTransformKind

-- `last().is_some_and(..)`
unfoldable pub last_satisfies : (Str → Bool) → List Str → Bool
last_satisfies p [] = false
last_satisfies p (x ∷ []) = p x
last_satisfies p (x ∷ y ∷ ys) = last_satisfies p (y ∷ ys)

unfoldable pub is_domain_label : Str → Bool
is_domain_label label =
    not (is_empty label)
    && (not (first_is label b'-')
        && (not (last_is label b'-') && all (λ c. is_ascii_alphanumeric c || c == b'-') label))

unfoldable pub looks_like_domain : Str → Bool
unfolding is_domain_label last_satisfies
looks_like_domain token =
    let labels = split (λ c. c == b'.') token in
    leb 2 (length labels)
    && (all is_domain_label labels && last_satisfies (any is_ascii_alphabetic) labels)

unfoldable pub looks_like_email : Str → Bool
looks_like_email token = elim (split_once token b'@') [
  | none ↦ false
  | some (local, host) ↦ not (is_empty local) && looks_like_domain host
]

-- The bytes of the source are characters here: the three that are tested are ASCII, and no byte of
-- another character is.
unfoldable pub looks_like_windows_path : Str → Bool
looks_like_windows_path [] = false
looks_like_windows_path (x ∷ []) = false
looks_like_windows_path (x ∷ y ∷ []) = false
looks_like_windows_path (x ∷ y ∷ z ∷ rest) =
    is_ascii_alphabetic x && (y == b':' && (z == 92 || z == b'/'))

unfoldable pub looks_like_ipv4 : Str → Bool
looks_like_ipv4 token =
    let parts = split (λ c. c == b'.') token in
    length parts == 4 && all (λ part. not (is_empty part) && parses_as_u8 part) parts

unfoldable pub looks_like_ipv6 : Str → Bool
looks_like_ipv6 token =
    contains_char token b':'
    && (all (λ c. is_ascii_hexdigit c || c == b':') token && leb 2 (count_char token b':'))

abbrev or_else {ℓ} : {A : Type ℓ} → Option A → A → A
or_else none d = d
or_else (some a) d = a

abbrev first_part : List Str → Str
first_part [] = []
first_part (x ∷ xs) = x

unfoldable pub looks_like_semver : Str → Bool
looks_like_semver token =
    let value : Str = or_else (strip_prefix token (codes "v")) token in
    let core = first_part (split (λ c. c == b'-' || c == b'+') value) in
    let parts = split (λ c. c == b'.') core in
    length parts == 3 && all (λ part. not (is_empty part) && all is_ascii_digit part) parts

unfoldable pub looks_like_uuid : Str → Bool
looks_like_uuid token =
    let parts = split (λ c. c == b'-') token in
    text_eq (map byte_len parts) (8 ∷ 4 ∷ 4 ∷ 4 ∷ 12 ∷ []) && all (all is_ascii_hexdigit) parts

unfoldable pub looks_like_hex_or_hash : Str → Bool
looks_like_hex_or_hash token =
    let value : Str = or_else (strip_prefix token (codes "0x")) token in
    leb 8 (byte_len value)
    && (all is_ascii_hexdigit value && (starts_with token (codes "0x") || any is_ascii_digit value))

abbrev skip_one : Str → Str
skip_one [] = []
skip_one (x ∷ xs) = xs

unfoldable pub has_internal_uppercase : Str → Bool
has_internal_uppercase token =
    any is_ascii_lowercase token && any is_ascii_uppercase (skip_one token)

abbrev tally : Bool → ℕ
tally true = 1
tally false = 0

unfoldable pub looks_like_secret : Str → Bool
looks_like_secret token =
    (starts_with token (codes "AKIA") && leb 16 (byte_len token))
    || (leb 24 (byte_len token)
        && (all is_ascii token
            && (not (any is_whitespace token)
                && leb 3 (
                    tally (any is_ascii_lowercase token)
                    + tally (any is_ascii_uppercase token)
                    + tally (any is_ascii_digit token)
                    + tally (any (λ c. not (is_ascii_alphanumeric c)) token)))))

unfoldable pub looks_like_url : Str → Bool
looks_like_url token =
    let lower = lowercase token in
    contains lower (codes "://")
    || (starts_with lower (codes "mailto:") || starts_with lower (codes "urn:"))

unfoldable pub looks_like_command_option : Str → Bool
looks_like_command_option token =
    first_is token b'-'
    || (first_is token b'/'
        && (not (contains_char (skip_one token) b'/') && not (contains_char (skip_one token) 92)))

unfoldable pub looks_like_path : Str → Bool
looks_like_path token =
    looks_like_windows_path token
    || (first_is token b'/'
        || (starts_with token (codes "./")
            || (starts_with token (codes "../")
                || (starts_with token (92 ∷ 92 ∷ []) || contains_char token 92))))

module _ (is_alphabetic : ℕ → Bool) where
  unfoldable pub looks_like_identifier : Str → Bool
  looks_like_identifier token =
      contains_char token b'_'
      || ((contains_char token b'-' && any is_alphabetic token) || has_internal_uppercase token)

  -- The tests in the order of the source; the first that holds names the kind.
  unfoldable pub classify_never_transform : Str → Option NeverTransformKind
  classify_never_transform token =
      if is_empty token
      then none
      else if looks_like_url token
      then some url
      else if looks_like_email token
      then some email
      else if looks_like_command_option token
      then some command_option
      else if looks_like_path token
      then some path
      else if looks_like_ipv4 token || looks_like_ipv6 token
      then some ip_address
      else if looks_like_semver token
      then some semantic_version
      else if looks_like_uuid token
      then some uuid
      else if looks_like_hex_or_hash token
      then some hex_or_hash
      else if looks_like_secret token
      then some secret_like
      else if looks_like_domain token
      then some domain
      else if looks_like_identifier token
      then some identifier
      else none
