-- ===== src/Tests/Pipe.antt =====
-- Witnesses of the adapter to Windows: keys, messages and requests.
use zon_key.Prelude.{ℕ, ◌≡◌, ◌⊎◌, refl, true, false, ◌||◌, none, some, List, [], ◌∷◌}
use zon_key.Text.{Str, codes}
use zon_key.Text.Search.{strip_prefix}
use zon_key.Types.Observe.{KeyEventKind, key_down, key_up}
use zon_key.Transport.Ledger.{ambiguous}
use zon_key.Transport.Endpoint.{transport_protocol_id}
use zon_key.Windows.Keys.{no_keys, modifier_state}
use zon_key.Windows.Keys.Held.{observe_all, held, modifier_state-observe_all}
use zon_key.Windows.Messages.{parse_request, request_payload}
use zon_key.Windows.Messages.RoundTrip.{parse_request-request_payload}
use zon_key.Windows.Frames.{PipeEvent, idle, chunk, read_frame_stop_aware}
use zon_key.Windows.Frames.Chunks.{HasRead, read_frame_stop_aware-HasRead}
use zon_key.Windows.Requests.{RequestHandler, Server, execute_descriptor_request}
use zon_key.Windows.Requests.Preflight.{IsRejected, IsExecuted, execute_descriptor_request-outcome}
use zon_key.Windows.Connection.{Round, plain_request, serve_payload}
use zon_key.Windows.Connection.Sessions.{IsAdmitted, serve_payload-IsAdmitted}
use zon_key.Tests.Durable.{intent, new_store, holding, writes}

-- The left shift key is pressed, then the right one, and the left one is released.
abbrev shifts : List (ℕ × KeyEventKind)
shifts = (0xa0, key_down) ∷ (0xa1, key_down) ∷ (0xa0, key_up) ∷ []

modifier_state-observe_all_example : modifier_state (observe_all no_keys shifts) ≡ record {
  shift_down = held false 0x10 shifts || (held false 0xa0 shifts || held false 0xa1 shifts);
  control_down = held false 0x11 shifts || (held false 0xa2 shifts || held false 0xa3 shifts);
  alt_down = held false 0x12 shifts || (held false 0xa4 shifts || held false 0xa5 shifts);
  meta_down = held false 0x5b shifts || held false 0x5c shifts;
}
modifier_state-observe_all_example = modifier_state-observe_all shifts

parse_request-request_payload_example :
    (payload : Str) × (strip_prefix
        (request_payload (codes "s") (codes "r-1") [] (codes "a|b"))
        (codes "REQ|")
      ≡ some payload)
    × (parse_request payload ≡ some (codes "s", codes "r-1", [], codes "a|b"))
unfolding zon_key.Text.Search.contains_char zon_key.Text.is_empty
parse_request-request_payload_example =
    parse_request-request_payload (codes "s") (codes "r-1") [] (codes "a|b") refl refl refl refl

abbrev loses : RequestHandler
loses = λ request_id composition canonical. ambiguous (codes "lost")

abbrev server : Server
server = record {
  endpoint = record {
    protocol_id = transport_protocol_id;
    session_id = some (codes "s");
    ledger = record { capacity = 2; order = []; entries = [] };
  };
  recovery = some (record { store = new_store; files = holding; lock_poisoned = false });
}

execute_descriptor_request-outcome_example :
    IsRejected writes server intent
      (execute_descriptor_request loses writes server intent (codes "Inactive") (codes "c"))
    ⊎ IsExecuted loses server intent
        (codes "Inactive")
        (codes "c")
        (execute_descriptor_request loses writes server intent (codes "Inactive") (codes "c"))
execute_descriptor_request-outcome_example =
    execute_descriptor_request-outcome loses writes server intent (codes "Inactive") (codes "c")

abbrev round : Round
round = record {
  handler = loses;
  handoff = none;
  before = writes;
  after = writes;
  delivered = true;
}

serve_payload-IsAdmitted_example :
    ((serve_payload round server (codes "s") (plain_request (codes "t|r-1|Inactive|c"))).0 ≡ server)
    ⊎ IsAdmitted server (plain_request (codes "t|r-1|Inactive|c"))
serve_payload-IsAdmitted_example =
    serve_payload-IsAdmitted round server (codes "s") (plain_request (codes "t|r-1|Inactive|c"))

-- The frame of "hi", after whose first byte the pipe is idle, and with one more byte behind it.
abbrev arrivals : List PipeEvent
arrivals = chunk (2 ∷ []) ∷ idle false ∷ chunk (0 ∷ 0 ∷ 0 ∷ b'h' ∷ []) ∷ chunk (b'i' ∷ 9 ∷ []) ∷ []

read_frame_stop_aware-HasRead_example :
    HasRead (codes "hi") (9 ∷ []) (read_frame_stop_aware arrivals [])
unfolding zon_key.Transport.Frame.encode_frame zon_key.Text.is_empty zon_key.Text.byte_len
    zon_key.Text.utf8_width zon_key.Transport.Frame.to_le_bytes zon_key.Text.Utf8.as_bytes
    zon_key.Text.Utf8.encode_char zon_key.Text.all zon_key.Text.Utf8.is_scalar
    zon_key.Windows.Frames.Chunks.arriving
read_frame_stop_aware-HasRead_example =
    read_frame_stop_aware-HasRead (codes "hi") (2 ∷ 0 ∷ 0 ∷ 0 ∷ b'h' ∷ b'i' ∷ []) refl refl arrivals
      [] (2 ∷ 0 ∷ 0 ∷ 0 ∷ b'h' ∷ b'i' ∷ 9 ∷ []) (9 ∷ []) refl refl
