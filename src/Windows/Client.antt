-- ===== src/Windows/Client.antt =====
-- `PipeClient` of crates/zonkey-win/src/pipe_transport.rs, as far as it does not call Windows. Whether a
-- payload could be written, and the payload or the error that was read, are parameters. A result comes
-- with the flag `broken`.
use zon_key.Prelude.{
  Bool, true, false, not, ◌||◌, none, some, ◌∷◌, ◌++◌, Result, ok, err, if◌then◌else◌, text_eq,
}
use zon_key.Text.{Str, codes}
use zon_key.Text.Search.{strip_prefix}
use zon_key.Transport.Ledger.{LedgerOutcome}
use zon_key.Transport.Endpoint.{transport_protocol_id}
use zon_key.Windows.Messages.{
  PipeError, handshake_refused, protocol_mismatch, session_mismatch, timeout, connection_lost,
  invalid_payload, parse_outcome,
}

abbrev pub hello_payload : Str
hello_payload = codes "HELLO|" ++ transport_protocol_id

unfoldable pub handoff_query_payload : Str → Str
handoff_query_payload session = codes "HANDOFF|" ++ session

unfoldable pub recovery_command_payload : Str → Str → Str
recovery_command_payload session command = codes "RECOVERY|" ++ (session ++ (b'|' ∷ command))

-- The reply to a hello: the session.
unfoldable pub read_welcome : Str → Result PipeError Str
read_welcome payload = elim (strip_prefix payload (codes "ERROR|")) [
  | some reason ↦
      if text_eq reason (codes "protocol_mismatch")
      then err protocol_mismatch
      else err (handshake_refused reason)
  | none ↦ elim (strip_prefix payload (codes "WELCOME|")) [
    | some session ↦ ok session
    | none ↦ err (invalid_payload (codes "expected welcome"))
  ]
]

-- The match on the reason of an error that the server sent.
unfoldable pub error_of_reason : Str → PipeError
error_of_reason reason =
    if text_eq reason (codes "session_mismatch") then session_mismatch else handshake_refused reason

-- What the client makes of an answer; with whether the connection is broken from now on.
unfoldable pub read_outcome : Result PipeError LedgerOutcome → Bool × Result PipeError LedgerOutcome
read_outcome (ok outcome) = (false, ok outcome)
read_outcome (err e) = (true, err e)

unfoldable pub read_answer : Result PipeError Str → Bool × Result PipeError LedgerOutcome
unfolding read_outcome
read_answer (ok payload) = elim (strip_prefix payload (codes "ERROR|")) [
  | some reason ↦ (false, err (error_of_reason reason))
  | none ↦ read_outcome (parse_outcome payload)
]
read_answer (err timeout) = (true, err timeout)
read_answer (err connection_lost) = (true, err timeout)
read_answer (err e) = (true, err e)

-- `request_on` and `descriptor_request_on`: whether the payload could be written, and what was read.
unfoldable pub request_on : Bool → Result PipeError Str → Bool × Result PipeError LedgerOutcome
unfolding read_answer
request_on written answer = if written then read_answer answer else (true, err connection_lost)

-- `request` and `request_with_descriptor`: on a client that is broken or has no handle, nothing is sent.
unfoldable pub request :
    Bool → Bool → Bool → Result PipeError Str → Bool × Result PipeError LedgerOutcome
unfolding request_on
request broken has_handle written answer =
    if broken || not has_handle then (broken, err connection_lost) else request_on written answer

-- The text of a definite result; `expected` is the error for another payload.
unfoldable pub read_definite : Str → Str → Bool × Result PipeError Str
read_definite expected payload = elim (strip_prefix payload (codes "ERROR|")) [
  | some reason ↦ (false, err (error_of_reason reason))
  | none ↦ elim (strip_prefix payload (codes "RESULT|DEFINITE|")) [
    | some text ↦ (false, ok text)
    | none ↦ (true, err (invalid_payload expected))
  ]
]

unfoldable pub read_text : Str → Result PipeError Str → Bool × Result PipeError Str
unfolding read_definite
read_text expected (ok payload) = read_definite expected payload
read_text expected (err timeout) = (true, err timeout)
read_text expected (err connection_lost) = (true, err timeout)
read_text expected (err e) = (true, err e)

unfoldable pub text_query :
    Str → Bool → Bool → Bool → Result PipeError Str → Bool × Result PipeError Str
unfolding read_text
text_query expected broken has_handle written answer =
    if broken || not has_handle
    then (broken, err connection_lost)
    else if written
    then read_text expected answer
    else (true, err connection_lost)

abbrev pub handoff_query : Bool → Bool → Bool → Result PipeError Str → Bool × Result PipeError Str
handoff_query = text_query (codes "expected handoff result")

abbrev pub recovery_query : Bool → Bool → Bool → Result PipeError Str → Bool × Result PipeError Str
recovery_query = text_query (codes "expected recovery result")
