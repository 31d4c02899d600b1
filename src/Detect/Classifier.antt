-- ===== src/Detect/Classifier.antt =====
-- crates/zonkey-detect/src/classifier.rs.
use zon_key.Prelude.{ℕ, Bool, true, false, not, ◌||◌, none, some, if◌then◌else◌, text_eq}
use zon_key.Text.{Str, is_ascii, all, is_empty}
use zon_key.Types.{TokenBoundary, unknown, InputContext}
use zon_key.Detect.Evidence.{LexicalEvidence, candidate, never_transform, vietnamese, unsupported}
use zon_key.Detect.Patterns.{classify_never_transform}
use zon_key.Detect.Dictionary.{DictionaryProvider, exact_confidence, reason_of}
use zon_key.Detect.Validation.{is_vietnamese_candidate}

pub record DetectionRequest : Type 0 where
  pub raw : Str
  pub rendered : Str
  pub boundary : TokenBoundary
  pub context : InputContext

unfoldable pub is_unknown_boundary : TokenBoundary → Bool
is_unknown_boundary unknown = true
is_unknown_boundary b = false

module _ (is_alphabetic : ℕ → Bool) where
  -- The dictionaries are asked only about a token that was rendered differently.
  unfoldable pub classify_word : DictionaryProvider → DetectionRequest → LexicalEvidence
  classify_word dictionaries request =
      elim (if text_eq request.raw request.rendered
        then none
        else dictionaries.classify request.raw) [
          | some class ↦ candidate request.raw (exact_confidence class) (reason_of class)
          | none ↦
              if is_vietnamese_candidate request.rendered
              then vietnamese
              else LexicalEvidence.unknown
        ]

  unfoldable pub classify : DictionaryProvider → DetectionRequest → LexicalEvidence
  classify dictionaries request =
      if is_empty request.raw
        || (not (all is_ascii request.raw) || is_unknown_boundary request.boundary)
      then unsupported
      else elim (classify_never_transform is_alphabetic request.raw) [
        | some kind ↦ never_transform
        | none ↦ classify_word dictionaries request
      ]
