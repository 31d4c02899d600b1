-- ===== src/Tests/Lexical.antt =====
-- Witnesses and tests of the text, the composition, the classification and the policy.
use zon_key.Prelude.{
  ℕ, ◌≡◌, ◌≢◌, refl, Bool, true, false, Option, none, some, List, [], ◌∷◌, ◌++◌, ◌↔◌, ◌⊎◌, inl, inr,
  ok, err, ◌≤◌, length, arith,
}
use zon_key.Text.{Str, codes, is_ascii, is_ascii_alphabetic, is_empty, all, concat}
use zon_key.Types.{
  EditPlan, DecisionReason, non_ascii_input, exact_product_dictionary, writing, technical_editor,
  space, restore_english, keep_vietnamese, insufficient_confidence,
}
use zon_key.Types.Float.{Confidence, new_confidence, one, technical_exact, zero_confidence}
use zon_key.Token.{edit_plan_between, apply_edit_plan}
use zon_key.Token.Edits.{apply_edit_plan-edit_plan_between}
use zon_key.Telex.{compose, push_key, try_shape_transform}
use zon_key.Telex.Vowels.{
  Tone, acute, toneless, VowelShape, a_plain, a_circ, decode_vowel, encode_vowel,
}
use zon_key.Telex.Undo.{push_key-try_shape_transform, push_key_tone_twice, last_vowel}
use zon_key.Detect.Evidence.{candidate}
use zon_key.Detect.Patterns.{classify_never_transform}
use zon_key.Detect.Dictionary.{
  DictionaryClass, product, built_in_dictionaries, exact_confidence, reason_of,
}
use zon_key.Detect.Classifier.{DetectionRequest, classify}
use zon_key.Detect.Safety.{classify-candidate}
use zon_key.Policy.{decide}
use zon_key.Policy.Safety.{MayRestore, decide-edit_plan}
use zon_key.Tests.{each, join_each}

compose_aws : compose (codes "aws") ≡ ok (codes "ắ")
unfolding compose push_key try_shape_transform zon_key.Telex.try_tone zon_key.Telex.requested_tone
    zon_key.Telex.shape_vowel decode_vowel zon_key.Telex.transition_for encode_vowel
    zon_key.Telex.retone
compose_aws = refl

compose_ddd : compose (codes "ddd") ≡ ok (codes "dd")
unfolding compose push_key try_shape_transform zon_key.Telex.try_tone zon_key.Telex.requested_tone
compose_ddd = refl

compose_redis : compose (codes "redis") ≡ ok (codes "redí")
unfolding compose push_key try_shape_transform zon_key.Telex.try_tone zon_key.Telex.requested_tone
    zon_key.Telex.retone zon_key.Telex.shape_vowel decode_vowel zon_key.Telex.transition_for
    zon_key.Telex.Vowels.tone_index encode_vowel
compose_redis = refl

apply_edit_plan-edit_plan_between_example :
    apply_edit_plan each (codes "redi") (edit_plan_between each (codes "redi") (codes "redí"))
    ≡ codes "redí"
apply_edit_plan-edit_plan_between_example =
    apply_edit_plan-edit_plan_between each join_each (codes "redi") (codes "redí")

push_key-try_shape_transform_example : push_key (codes "ât") b'a' ≡ codes "aat"
unfolding try_shape_transform zon_key.Telex.shape_vowel decode_vowel zon_key.Telex.transition_for
    encode_vowel
push_key-try_shape_transform_example =
    push_key-try_shape_transform (codes "at") b'a' (codes "ât") refl refl

push_key_tone_twice_example :
    (last_vowel (push_key (codes "ta") b's') ≡ some (a_plain, acute))
    × (push_key (push_key (codes "ta") b's') b's' ≡ codes "sta")
unfolding last_vowel zon_key.Telex.requested_tone decode_vowel
push_key_tone_twice_example = push_key_tone_twice (codes "ta") b's' acute a_plain refl refl

abbrev half : ℕ
half = 0x3f000000

abbrev redis : DetectionRequest
redis = record { raw = codes "redis"; rendered = codes "redí"; boundary = space; context = writing }

classify_redis :
    classify is_ascii_alphabetic built_in_dictionaries redis
    ≡ candidate (codes "redis") technical_exact exact_product_dictionary
unfolding zon_key.Text.is_ascii zon_key.Text.is_ascii_digit zon_key.Text.is_ascii_lowercase
    zon_key.Text.is_ascii_uppercase zon_key.Text.is_ascii_alphabetic
    zon_key.Text.is_ascii_alphanumeric zon_key.Text.is_ascii_hexdigit
    zon_key.Text.is_ascii_punctuation zon_key.Text.is_whitespace zon_key.Text.to_ascii_lowercase
    zon_key.Text.all zon_key.Text.any zon_key.Text.is_empty zon_key.Text.concat
    zon_key.Text.utf8_width zon_key.Text.byte_len zon_key.Text.Search.strip_prefix
    zon_key.Text.Search.starts_with zon_key.Text.Search.contains zon_key.Text.Search.contains_char
    zon_key.Text.Search.count_char zon_key.Text.Search.split_first zon_key.Text.Search.split_once
    zon_key.Text.Search.split zon_key.Text.Search.first_is zon_key.Text.Search.last_is
    zon_key.Text.Search.trim_start zon_key.Text.Search.trim zon_key.Text.Search.lowercase
    zon_key.Text.Search.eq_ignore_ascii_case zon_key.Text.Search.decimal_value
    zon_key.Text.Search.drop_plus zon_key.Text.Search.parses_as_u8 zon_key.Types.boundary_from_char
    zon_key.Detect.Patterns.last_satisfies zon_key.Detect.Patterns.is_domain_label
    zon_key.Detect.Patterns.looks_like_domain zon_key.Detect.Patterns.looks_like_email
    zon_key.Detect.Patterns.looks_like_windows_path zon_key.Detect.Patterns.looks_like_ipv4
    zon_key.Detect.Patterns.looks_like_ipv6 zon_key.Detect.Patterns.looks_like_semver
    zon_key.Detect.Patterns.looks_like_uuid zon_key.Detect.Patterns.looks_like_hex_or_hash
    zon_key.Detect.Patterns.has_internal_uppercase zon_key.Detect.Patterns.looks_like_secret
    zon_key.Detect.Patterns.looks_like_url zon_key.Detect.Patterns.looks_like_command_option
    zon_key.Detect.Patterns.looks_like_path zon_key.Detect.Patterns.looks_like_identifier
    zon_key.Detect.Patterns.classify_never_transform zon_key.Detect.Dictionary.reason_of
    zon_key.Detect.Dictionary.exact_confidence zon_key.Detect.Dictionary.line_matches
    zon_key.Detect.Dictionary.contains zon_key.Detect.Dictionary.built_in_classify
    zon_key.Detect.Dictionary.in_set zon_key.Detect.Dictionary.insert_set
    zon_key.Detect.Dictionary.insert zon_key.Detect.Dictionary.extend_entries
    zon_key.Detect.Dictionary.with_entries zon_key.Detect.Dictionary.in_memory_classify
    zon_key.Detect.Validation.is_vietnamese_letter zon_key.Detect.Validation.is_vietnamese_candidate
    zon_key.Detect.Classifier.is_unknown_boundary zon_key.Detect.Classifier.classify_word
    zon_key.Detect.Classifier.classify zon_key.Types.Float.is_finite zon_key.Types.Float.is_negative
    zon_key.Types.Float.float_le zon_key.Types.Float.new_confidence
    zon_key.Types.Float.confidence_ge
classify_redis = refl

classify-candidate_example :
    (codes "redis" ≡ codes "redis")
    × (is_empty (codes "redis") ≡ false)
    × (all is_ascii (codes "redis") ≡ true)
    × (classify_never_transform is_ascii_alphabetic (codes "redis") ≡ none)
    × (codes "redis" ≢ codes "redí")
    × ((class : DictionaryClass) × (built_in_dictionaries.classify (codes "redis") ≡ some class)
        × (technical_exact ≡ exact_confidence class)
        × (exact_product_dictionary ≡ reason_of class))
classify-candidate_example =
    classify-candidate is_ascii_alphabetic built_in_dictionaries redis (codes "redis")
      technical_exact exact_product_dictionary classify_redis

abbrev redis_plan : EditPlan
redis_plan = record { delete_graphemes = 1; insert_text = codes "is" }

decide_redis :
    (decide each
      (candidate (codes "redis") technical_exact exact_product_dictionary)
      writing
      (codes "redí")).edit_plan
    ≡ some redis_plan
unfolding decide zon_key.Policy.permits_candidate zon_key.Types.Float.confidence_ge
    edit_plan_between each concat zon_key.Token.common_prefix zon_key.Prelude.text_eq
decide_redis = refl

decide-edit_plan_example :
    (text : Str) × (confidence : Confidence) × (reason : DecisionReason) × (candidate
        (codes "redis")
        technical_exact
        exact_product_dictionary
      ≡ candidate text confidence reason)
    × MayRestore writing confidence reason
    × ((decide each
          (candidate (codes "redis") technical_exact exact_product_dictionary)
          writing
          (codes "redí")).decision
        ≡ restore_english text confidence reason)
    × (apply_edit_plan each (codes "redí") redis_plan ≡ text)
decide-edit_plan_example =
    decide-edit_plan each join_each
      (candidate (codes "redis") technical_exact exact_product_dictionary) writing (codes "redí")
      redis_plan decide_redis
