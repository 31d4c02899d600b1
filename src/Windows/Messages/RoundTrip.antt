-- ===== src/Windows/Messages/RoundTrip.antt =====
-- What server and client of crates/zonkey-win/src/pipe_transport.rs read of what the other sends.
use zon_key.Prelude.{
  ℕ, suc, ◌≡◌, refl, ap, false, ◌||◌, some, [], ◌∷◌, ◌++◌, ok, append-nil, arith, ◌==◌, text_eq,
}
use zon_key.Prelude.Partial.{◌>>◌, stop_if}
use zon_key.Text.{Str, codes, is_empty}
use zon_key.Text.Search.{split_first, strip_prefix, contains_char}
use zon_key.Transport.Ledger.{LedgerOutcome, definite, ambiguous}
use zon_key.Windows.Messages.{
  splitn, request_of_parts, parse_request, rejoin, outcome_payload, outcome_of_parts, parse_outcome,
  request_payload,
}

split_first-append :
    (head rest : Str)
    → contains_char head b'|' ≡ false
    → split_first (λ c. c == b'|') (head ++ b'|' ∷ rest) ≡ (head, some rest)
unfolding split_first contains_char
split_first-append [] rest h = refl
split_first-append (x ∷ head) rest h = ground (arith, split_first-append head rest)

splitn-append :
    (n : ℕ) (head rest : Str)
    → contains_char head b'|' ≡ false
    → splitn (suc (suc n)) (head ++ b'|' ∷ rest) ≡ head ∷ splitn (suc n) rest
unfolding splitn
splitn-append n head rest h = ground (arith, split_first-append head rest h)

-- An outcome is read by the client as the server had it, whatever its text.
parse_outcome-outcome_payload : (o : LedgerOutcome) → parse_outcome (outcome_payload o) ≡ ok o
unfolding parse_outcome outcome_payload splitn split_first outcome_of_parts text_eq
parse_outcome-outcome_payload (definite text) = refl
parse_outcome-outcome_payload (ambiguous text) = refl

request_of_parts-some :
    (session request_id composition canonical : Str)
    → (is_empty session || (is_empty request_id || is_empty canonical)) ≡ false
    → request_of_parts (session ∷ request_id ∷ composition ∷ canonical ∷ [])
      ≡ some (session, request_id, composition, canonical)
unfolding request_of_parts
request_of_parts-some session request_id composition canonical h =
    ap (λ b. stop_if b >> some (session, request_id, composition, canonical)) h

-- A request is read by the server as the client sent it, if none of its parts but the last has a
-- bar, and none but the composition is empty.
pub parse_request-request_payload :
    (session request_id composition canonical : Str)
    → contains_char session b'|' ≡ false
    → contains_char request_id b'|' ≡ false
    → contains_char composition b'|' ≡ false
    → (is_empty session || (is_empty request_id || is_empty canonical)) ≡ false
    → (payload : Str) × (strip_prefix
          (request_payload session request_id composition canonical)
          (codes "REQ|")
        ≡ some payload)
      × (parse_request payload ≡ some (session, request_id, composition, canonical))
unfolding request_payload strip_prefix parse_request rejoin splitn
parse_request-request_payload session request_id composition canonical a b c h = (
  session ++ (b'|' ∷ (request_id ++ (b'|' ∷ (composition ++ (b'|' ∷ (canonical ++ [])))))),
  refl,
  rw
      (
        splitn-append 2 session (request_id ++ (b'|' ∷ (composition ++ (b'|' ∷ (canonical ++ [])))))
            a,
        splitn-append 1 request_id (composition ++ (b'|' ∷ (canonical ++ []))) b,
        splitn-append 0 composition (canonical ++ []) c,
        append-nil canonical,
      )
      (request_of_parts-some session request_id composition canonical h),
)
