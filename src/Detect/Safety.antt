-- ===== src/Detect/Safety.antt =====
-- What becomes a candidate in crates/zonkey-detect/src/classifier.rs.
use zon_key.Prelude.{
  ℕ, ◌≡◌, ◌≢◌, Bool, true, false, none, some, arith, text_eq, text_eq_refl, Option-cases, inl, inr,
}
use zon_key.Text.{Str, is_ascii, all, is_empty}
use zon_key.Types.{DecisionReason}
use zon_key.Types.Float.{Confidence}
use zon_key.Detect.Evidence.{candidate}
use zon_key.Detect.Patterns.{classify_never_transform}
use zon_key.Detect.Dictionary.{DictionaryProvider, DictionaryClass, exact_confidence, reason_of}
use zon_key.Detect.Classifier.{DetectionRequest, classify_word, classify}

module _ (is_alphabetic : ℕ → Bool) where
  classify_word-candidate :
      (dictionaries : DictionaryProvider) (r : DetectionRequest) (text : Str)
      (confidence : Confidence) (reason : DecisionReason)
      → classify_word is_alphabetic dictionaries r ≡ candidate text confidence reason
      → (class : DictionaryClass) × (dictionaries.classify r.raw ≡ some class)
        × (text ≡ r.raw)
        × (confidence ≡ exact_confidence class)
        × (reason ≡ reason_of class)
        × (text_eq r.raw r.rendered ≡ false)
  unfolding classify_word
  classify_word-candidate dictionaries r text confidence reason h =
      elim (Option-cases (dictionaries.classify r.raw)) [
        | inl n ↦ absurd (ground arith)
        | inr (class, s) ↦ (class, s, ground arith, ground arith, ground arith, ground arith)
      ]

  -- Only a word that was typed in ASCII, that no pattern protects, that was rendered differently,
  -- and that the dictionaries know, becomes a candidate: for the text as it was typed, with the
  -- confidence and the reason of its class.
  pub classify-candidate :
      (dictionaries : DictionaryProvider) (r : DetectionRequest) (text : Str)
      (confidence : Confidence) (reason : DecisionReason)
      → classify is_alphabetic dictionaries r ≡ candidate text confidence reason
      → (text ≡ r.raw)
        × (is_empty r.raw ≡ false)
        × (all is_ascii r.raw ≡ true)
        × (classify_never_transform is_alphabetic r.raw ≡ none)
        × (r.raw ≢ r.rendered)
        × ((class : DictionaryClass) × (dictionaries.classify r.raw ≡ some class)
            × (confidence ≡ exact_confidence class)
            × (reason ≡ reason_of class))
  unfolding classify
  classify-candidate dictionaries r text confidence reason h =
      let (class, d, t, c, e, differ) =
        classify_word-candidate dictionaries r text confidence reason (ground arith) in
      (
        t,
        ground arith,
        ground arith,
        ground arith,
        λ same. ground (arith, text_eq_refl r.raw),
        (class, d, c, e),
      )
