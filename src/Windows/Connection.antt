-- ===== src/Windows/Connection.antt =====
-- One round of `serve_connection` of crates/zonkey-win/src/pipe_transport.rs.
pub mod Sessions
use zon_key.Prelude.{
  ℕ, suc, ◌+◌, Bool, true, false, not, ◌||◌, Option, none, some, List, [], ◌∷◌, ◌++◌, Result, ok,
  err, ◌==◌, if◌then◌else◌, text_eq,
}
use zon_key.Prelude.Partial.{◌>>=◌}
use zon_key.Text.{Str, codes}
use zon_key.Text.Search.{strip_prefix, split}
use zon_key.Transport.Ledger.{LedgerOutcome, RequestDisposition, fresh, duplicate, conflict}
use zon_key.Transport.Endpoint.{
  HostTransportEndpoint, accept_hello, check_session, classify_request, record_result,
}
use zon_key.Transport.Request.{HandoffRequest, decimal}
use zon_key.Recovery.Target.{
  BlockedTarget, RecoveryVerdict, applied_acknowledged, not_applied, conflict_human_review,
}
use zon_key.Recovery.Codec.{
  RecoveryCodecError, truncated, bad_magic, unknown_version, too_many_entries, oversized_file,
  oversized_record, malformed, checksum_mismatch, encode_overflow,
}
use zon_key.Recovery.Registry.{
  RecoveryError, unknown_target, session_mismatch, ack_before_reconcile, registry_full,
  epoch_mismatch,
}
use zon_key.Recovery.Files.{Files, WriteResults}
use zon_key.Recovery.Store.{
  RecoveryStoreError, state_unreadable, unavailable, write_failed, registry_error,
  DurableRecoveryStore, Outcome,
}
use zon_key.Recovery.Store.Calls.{store_list, store_block, store_reconcile, store_acknowledge}
use zon_key.Windows.Messages.{
  parse_u64, parse_request, parse_reconcile, outcome_payload, handoff_payload,
}
use zon_key.Windows.Requests.{
  Recovery, RequestHandler, Server, with_store, Served, id_reuse, mismatch,
  serve_descriptor_request,
}
use zon_key.Windows.Commands.{handle_recovery_command}

-- What the provider of handoffs answers, where there is one.
unfoldable pub handoff_text : Option (Result Str HandoffRequest) → Str
handoff_text none = codes "handoff-unavailable"
handoff_text (some (ok request)) = handoff_payload request
handoff_text (some (err reason)) = codes "handoff-rejected:" ++ reason

abbrev pub definite_answer : Str → Option Str
definite_answer text = some (codes "RESULT|DEFINITE|" ++ text)

unfoldable pub serve_hello : Bool → Server → Str → Str → Served
serve_hello delivered s protocol session_id =
    let (endpoint, result) = accept_hello s.endpoint protocol session_id in
    elim result [
      | ok restart ↦
          (record s { endpoint = endpoint }, some (codes "WELCOME|" ++ session_id), delivered)
      | err e ↦ (record s { endpoint = endpoint }, some (codes "ERROR|protocol_mismatch"), false)
    ]

unfoldable pub serve_handoff : Bool → Option (Result Str HandoffRequest) → Server → Str → Served
unfolding handoff_text
serve_handoff delivered handoff s session = elim (check_session s.endpoint session) [
  | err e ↦ (s, some mismatch, delivered)
  | ok valid ↦ (s, definite_answer (handoff_text handoff), delivered)
]

unfoldable pub serve_plain :
    RequestHandler → Bool → Server → Str → Str → Str → RequestDisposition → Served
serve_plain handler delivered s request_id composition canonical (duplicate recorded) =
    (s, some (outcome_payload recorded), delivered)
serve_plain handler delivered s request_id composition canonical conflict =
    (s, some (outcome_payload id_reuse), delivered)
serve_plain handler delivered s request_id composition canonical fresh =
    let outcome = handler request_id composition canonical in
    (
      record s { endpoint = (record_result s.endpoint request_id canonical outcome).0 },
      some (outcome_payload outcome),
      delivered,
    )

unfoldable pub serve_request :
    RequestHandler → Bool → Server → Option (Str × Str × Str × Str) → Served
unfolding serve_plain
serve_request handler delivered s none = (s, none, false)
serve_request handler delivered s (some (session, request_id, composition, canonical)) =
    elim (check_session s.endpoint session) [
      | err e ↦ (s, some mismatch, delivered)
      | ok valid ↦
          serve_plain handler delivered s request_id composition canonical
            (classify_request s.endpoint request_id canonical)
    ]

-- The kinds of payload, by their prefixes, which are tried in this order.
pub data Payload : Type 0 where
  hello recovery_command handoff_query plain_request descriptor_request : Str → Payload
  unknown_payload : Payload

unfoldable pub payload_of : Str → Payload
payload_of payload = elim (strip_prefix payload (codes "HELLO|")) [
  | some protocol ↦ hello protocol
  | none ↦ elim (strip_prefix payload (codes "RECOVERY|")) [
    | some command ↦ recovery_command command
    | none ↦ elim (strip_prefix payload (codes "HANDOFF|")) [
      | some session ↦ handoff_query session
      | none ↦ elim (strip_prefix payload (codes "REQ|")) [
        | some request ↦ plain_request request
        | none ↦ elim (strip_prefix payload (codes "REQX|")) [
          | some request ↦ descriptor_request request
          | none ↦ unknown_payload
        ]
      ]
    ]
  ]
]

-- What is given for a round: the handler, the handoffs, the answers of Windows to the writes before and
-- after the answer, and whether the answer is delivered.
pub record Round : Type 0 where
  pub handler : RequestHandler
  pub handoff : Option (Result Str HandoffRequest)
  pub before : WriteResults
  pub after : WriteResults
  pub delivered : Bool

unfoldable pub serve_payload : Round → Server → Str → Payload → Served
unfolding serve_hello handle_recovery_command serve_handoff serve_request serve_descriptor_request
serve_payload r s session_id (hello protocol) = serve_hello r.delivered s protocol session_id
serve_payload r s session_id (recovery_command command) =
    let (s', text) = handle_recovery_command r.before s command in
    (s', definite_answer text, r.delivered)
serve_payload r s session_id (handoff_query session) = serve_handoff r.delivered r.handoff s session
serve_payload r s session_id (plain_request request) =
    serve_request r.handler r.delivered s (parse_request request)
serve_payload r s session_id (descriptor_request request) =
    serve_descriptor_request r.handler r.before r.after r.delivered s request
serve_payload r s session_id unknown_payload = (s, none, false)

-- The body of the loop of `serve_connection`, on the payload of a frame.
unfoldable pub serve_frame : Round → Server → Str → Str → Served
unfolding payload_of serve_payload
serve_frame r s session_id payload = serve_payload r s session_id (payload_of payload)
