-- ===== src/Windows/Messages.antt =====
-- The messages of crates/zonkey-win/src/pipe_transport.rs: what server and client make of a payload.
pub mod RoundTrip
use zon_key.Prelude.{
  ℕ, zero, suc, Bool, true, false, not, ◌||◌, Option, none, some, List, [], ◌∷◌, ◌++◌, Result, ok,
  err, ltb, ◌==◌, if◌then◌else◌, text_eq, u64_max,
}
use zon_key.Prelude.Partial.{◌>>=◌, ◌>>◌, stop_if}
use zon_key.Text.{Str, codes, is_empty}
use zon_key.Text.Search.{split_first, decimal_value, drop_plus, strip_prefix}
use zon_key.Transport.Frame.{FrameError}
use zon_key.Transport.Ledger.{LedgerOutcome, definite, ambiguous}
use zon_key.Transport.Request.{HandoffRequest, decimal}
use zon_key.Recovery.Target.{RecoveryDescriptor}

pub data PipeError : Type 0 where
  connect_timeout protocol_mismatch session_mismatch timeout connection_lost : PipeError
  pipe_security handshake_refused invalid_payload : Str → PipeError
  frame_error : FrameError → PipeError

-- `splitn(n, '|')`
unfoldable pub splitn : ℕ → Str → List Str
splitn zero text = []
splitn (suc zero) text = text ∷ []
splitn (suc (suc n)) text =
    let (head, tail) = split_first (λ c. c == b'|') text in
    elim tail [ none ↦ head ∷ [] | some rest ↦ head ∷ splitn (suc n) rest ]

-- `parse::<u64>()`, and `parse::<usize>()` on 64 bits: an optional plus sign and at least one digit.
unfoldable pub parse_u64 : Str → Option ℕ
unfolding decimal_value drop_plus
parse_u64 text = do
  stop_if (is_empty (drop_plus text))
  n ← decimal_value 0 (drop_plus text)
  stop_if (ltb u64_max n)
  some n

-- The parts of a request, once it is split.
unfoldable pub request_of_parts : List Str → Option (Str × Str × Str × Str)
request_of_parts (session ∷ request_id ∷ composition ∷ canonical ∷ []) = do
  stop_if (is_empty session || (is_empty request_id || is_empty canonical))
  some (session, request_id, composition, canonical)
request_of_parts parts = none

unfoldable pub parse_request : Str → Option (Str × Str × Str × Str)
unfolding splitn request_of_parts
parse_request payload = request_of_parts (splitn 4 payload)

-- The same of a request that carries a descriptor.
unfoldable pub descriptor_of_parts : List Str → Option (Str × RecoveryDescriptor × Str × Str)
descriptor_of_parts
      (session ∷ request_id ∷ composition ∷ uri ∷ start ∷ end ∷ expected ∷ replacement ∷ generation
        ∷ document_epoch ∷ canonical ∷ []) =
    do
      range_start ← parse_u64 start
      range_end ← parse_u64 end
      plan_generation ← parse_u64 generation
      epoch ← parse_u64 document_epoch
      stop_if (
          is_empty session
          || (is_empty request_id
              || (is_empty composition
                  || (is_empty uri
                      || (is_empty expected
                          || (is_empty replacement
                              || (is_empty canonical || ltb range_end range_start)))))))
      some (
        session,
        record {
          request_id = request_id;
          uri = uri;
          range_start = range_start;
          range_end = range_end;
          expected = expected;
          replacement = replacement;
          generation = plan_generation;
          document_epoch = epoch;
        },
        composition,
        canonical,
      )
descriptor_of_parts parts = none

unfoldable pub parse_descriptor_request : Str → Option (Str × RecoveryDescriptor × Str × Str)
unfolding splitn descriptor_of_parts
parse_descriptor_request payload = descriptor_of_parts (splitn 11 payload)

-- `join("|")`, with a bar before each part.
unfoldable pub rejoin : List Str → Str
rejoin [] = []
rejoin (part ∷ parts) = b'|' ∷ (part ++ rejoin parts)

-- On the parts of the command after its name.
unfoldable pub parse_reconcile : List Str → Option (Str × Str × ℕ × Str)
unfolding rejoin
parse_reconcile (uri ∷ expected ∷ epoch ∷ live ∷ tail) = do
  document_epoch ← parse_u64 epoch
  stop_if (is_empty uri || (is_empty expected || is_empty live))
  some (uri, expected, document_epoch, live ++ rejoin tail)
parse_reconcile parts = none

unfoldable pub outcome_payload : LedgerOutcome → Str
outcome_payload (definite text) = codes "RESULT|DEFINITE|" ++ text
outcome_payload (ambiguous text) = codes "RESULT|AMBIGUOUS|" ++ text

abbrev pub malformed_result : PipeError
malformed_result = invalid_payload (codes "malformed result")

unfoldable pub outcome_of_parts : List Str → Result PipeError LedgerOutcome
outcome_of_parts (result ∷ kind ∷ text ∷ []) =
    if not (text_eq result (codes "RESULT"))
    then err malformed_result
    else if text_eq kind (codes "DEFINITE")
    then ok (definite text)
    else if text_eq kind (codes "AMBIGUOUS")
    then ok (ambiguous text)
    else err malformed_result
outcome_of_parts parts = err malformed_result

unfoldable pub parse_outcome : Str → Result PipeError LedgerOutcome
unfolding splitn outcome_of_parts
parse_outcome payload = outcome_of_parts (splitn 3 payload)

-- A number of 64 bits in decimal.
abbrev number : ℕ → Str
number n = decimal 20 n

unfoldable pub handoff_payload : HandoffRequest → Str
handoff_payload r =
    codes "handoff:"
    ++ (r.request_id
        ++ rejoin (
            r.rendered_token
            ∷ r.replacement_token
            ∷ number r.rendered_units
            ∷ number r.replacement_units
            ∷ number r.generation
            ∷ []))

-- What the client sends.
unfoldable pub request_payload : Str → Str → Str → Str → Str
request_payload session request_id composition canonical =
    codes "REQ|" ++ (session ++ rejoin (request_id ∷ composition ∷ canonical ∷ []))

unfoldable pub descriptor_payload : Str → RecoveryDescriptor → Str → Str → Str
descriptor_payload session d composition canonical =
    codes "REQX|"
    ++ (session
        ++ rejoin (
            d.request_id
            ∷ composition
            ∷ d.uri
            ∷ number d.range_start
            ∷ number d.range_end
            ∷ d.expected
            ∷ d.replacement
            ∷ number d.generation
            ∷ number d.document_epoch
            ∷ canonical
            ∷ []))
