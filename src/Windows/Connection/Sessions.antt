-- ===== src/Windows/Connection/Sessions.antt =====
-- Which payloads can change the server of crates/zonkey-win/src/pipe_transport.rs.
use zon_key.Prelude.{
  ◌≡◌, ◌⊎◌, inl, inr, refl, Bool, Option, none, some, List, [], ◌∷◌, Result, ok, Result-cases, ◌==◌,
  arith,
}
use zon_key.Text.{Str}
use zon_key.Text.Search.{split}
use zon_key.Transport.Endpoint.{check_session}
use zon_key.Transport.Request.{HandoffRequest}
use zon_key.Recovery.Target.{RecoveryDescriptor}
use zon_key.Recovery.Files.{WriteResults}
use zon_key.Windows.Messages.{parse_request, parse_descriptor_request}
use zon_key.Windows.Requests.{RequestHandler, Server, serve_descriptor, serve_descriptor_request}
use zon_key.Windows.Connection.{
  serve_handoff, serve_request, Payload, hello, recovery_command, handoff_query, plain_request,
  descriptor_request, unknown_payload, Round, serve_payload,
}
use zon_key.Windows.Commands.{handle_recovery_parts, handle_recovery_command}

-- The payload establishes a session, or names the one that is established.
pub data IsAdmitted (s : Server) : Payload → Type 0 where
  by_hello : (protocol : Str) → IsAdmitted s (hello protocol)
  by_command :
      (command session : Str) (parts : List Str)
      → split (λ c. c == b'|') command ≡ session ∷ parts
      → check_session s.endpoint session ≡ ok tt
      → IsAdmitted s (recovery_command command)
  by_request :
      (request session request_id composition canonical : Str)
      → parse_request request ≡ some (session, request_id, composition, canonical)
      → check_session s.endpoint session ≡ ok tt
      → IsAdmitted s (plain_request request)
  by_descriptor :
      (request session : Str) (d : RecoveryDescriptor) (composition canonical : Str)
      → parse_descriptor_request request ≡ some (session, d, composition, canonical)
      → check_session s.endpoint session ≡ ok tt
      → IsAdmitted s (descriptor_request request)

parts_lem :
    (w : WriteResults) (s : Server) (command : Str) (parts : List Str)
    → split (λ c. c == b'|') command ≡ parts
    → ((handle_recovery_parts w s parts).0 ≡ s) ⊎ IsAdmitted s (recovery_command command)
unfolding handle_recovery_parts
parts_lem w s command [] e = inl refl
parts_lem w s command (session ∷ parts) e = elim (Result-cases (check_session s.endpoint session)) [
  | inl (u, h) ↦ inr (by_command command session parts e h)
  | inr (x, h) ↦ inl (ground (arith, h))
]

handoff_lem :
    (delivered : Bool) (handoff : Option (Result Str HandoffRequest)) (s : Server) (session : Str)
    → (serve_handoff delivered handoff s session).0 ≡ s
unfolding serve_handoff
handoff_lem delivered handoff s session = elim (Result-cases (check_session s.endpoint session)) [
  | inl (u, h) ↦ ground (arith, h)
  | inr (x, h) ↦ ground (arith, h)
]

request_lem :
    (handler : RequestHandler) (delivered : Bool) (s : Server) (request : Str)
    (o : Option (Str × Str × Str × Str))
    → parse_request request ≡ o
    → ((serve_request handler delivered s o).0 ≡ s) ⊎ IsAdmitted s (plain_request request)
unfolding serve_request
request_lem handler delivered s request none e = inl refl
request_lem handler delivered s request (some (session, request_id, composition, canonical)) e =
    elim (Result-cases (check_session s.endpoint session)) [
      | inl (u, h) ↦ inr (by_request request session request_id composition canonical e h)
      | inr (x, h) ↦ inl (ground (arith, h))
    ]

descriptor_lem :
    (handler : RequestHandler) (w w' : WriteResults) (delivered : Bool) (s : Server) (request : Str)
    (o : Option (Str × RecoveryDescriptor × Str × Str))
    → parse_descriptor_request request ≡ o
    → ((serve_descriptor handler w w' delivered s o).0 ≡ s)
      ⊎ IsAdmitted s (descriptor_request request)
unfolding serve_descriptor
descriptor_lem handler w w' delivered s request none e = inl refl
descriptor_lem handler w w' delivered s request (some (session, d, composition, canonical)) e =
    elim (Result-cases (check_session s.endpoint session)) [
      | inl (u, h) ↦ inr (by_descriptor request session d composition canonical e h)
      | inr (x, h) ↦ inl (ground (arith, h))
    ]

-- A payload that is no hello and does not name the session that is established leaves the server as
-- it was; so does each query for a handoff.
pub serve_payload-IsAdmitted :
    (r : Round) (s : Server) (session_id : Str) (p : Payload)
    → ((serve_payload r s session_id p).0 ≡ s) ⊎ IsAdmitted s p
unfolding serve_payload handle_recovery_command serve_descriptor_request
serve_payload-IsAdmitted r s session_id (hello protocol) = inr (by_hello protocol)
serve_payload-IsAdmitted r s session_id (recovery_command command) =
    parts_lem r.before s command _ refl
serve_payload-IsAdmitted r s session_id (handoff_query session) =
    inl (handoff_lem r.delivered r.handoff s session)
serve_payload-IsAdmitted r s session_id (plain_request request) =
    request_lem r.handler r.delivered s request _ refl
serve_payload-IsAdmitted r s session_id (descriptor_request request) =
    descriptor_lem r.handler r.before r.after r.delivered s request _ refl
serve_payload-IsAdmitted r s session_id unknown_payload = inl refl
