-- ===== src/Tests/Wire.antt =====
-- Witnesses of the transport: frames, the ledger, the endpoint and the requests.
use zon_key.Prelude.{
  ℕ, ◌≡◌, ◌≢◌, ◌↔◌, ◌⊎◌, refl, true, false, none, some, List, [], ◌∷◌, ◌++◌, ok, err, text_eq,
  arith,
}
use zon_key.Keyed.{
  lookup, contains_key, remove_entry, insert_entry, keys, has_id, remove_id, all_distinct,
}
use zon_key.Text.{Str, codes, is_empty}
use zon_key.Types.{exact_product_dictionary}
use zon_key.Service.Plan.{RestorePlanHandoff}
use zon_key.Service.Handoff.{current_restore_handoff}
use zon_key.Transport.Frame.{encode_frame, decode_frame, decode_frame-encode_frame}
use zon_key.Transport.Ledger.{
  LedgerEntry, definite, ambiguous, fresh, duplicate, conflict, evicted, already_present,
  rejected_ledger_full, BoundedRequestLedger, classify_id, is_evictable, record_inner,
}
use zon_key.Transport.Ledger.Kept.{IsSound, records, invalidates, run, Call, run-IsSound}
use zon_key.Transport.Ledger.Replay.{
  FoundPresent, FoundFull, Recorded, record_inner-classify_id, run-classify_id,
}
use zon_key.Transport.Ledger.Eviction.{record_inner-evicted, IsSettled}
use zon_key.Transport.Endpoint.{
  HostTransportEndpoint, transport_protocol_id, accept_hello, check_session, classify_request,
  session_mismatch, accept_hello-ok,
}
use zon_key.Transport.Request.{build_host_request, request_of}
use zon_key.Transport.Request.Identity.{build_host_request-ok_iff}
use zon_key.Tests.{after_redis}

abbrev frame : List ℕ
frame = 3 ∷ 0 ∷ 0 ∷ 0 ∷ 0x61 ∷ 0xc3 ∷ 0xad ∷ []

frame_lem : encode_frame (codes "aí") ≡ ok frame
unfolding encode_frame is_empty zon_key.Text.byte_len zon_key.Text.utf8_width
    zon_key.Transport.Frame.to_le_bytes zon_key.Text.Utf8.as_bytes zon_key.Text.Utf8.encode_char
frame_lem = refl

decode_frame-encode_frame_example :
    decode_frame (frame ++ 7 ∷ []) ≡ (7 ∷ [], ok (some (record { payload = codes "aí" })))
unfolding zon_key.Text.all zon_key.Text.Utf8.is_scalar
decode_frame-encode_frame_example =
    decode_frame-encode_frame (codes "aí") frame (7 ∷ []) refl frame_lem

abbrev lost : LedgerEntry
lost = record { canonical = codes "c"; outcome = ambiguous (codes "lost"); recovery_backed = false }

abbrev done : LedgerEntry
done = record {
  canonical = codes "d";
  outcome = definite (codes "applied");
  recovery_backed = false;
}

abbrev ledger : BoundedRequestLedger
ledger = record {
  capacity = 2;
  order = codes "1" ∷ codes "2" ∷ [];
  entries = (codes "1", lost) ∷ (codes "2", done) ∷ [];
}

abbrev stuck_ledger : BoundedRequestLedger
stuck_ledger = record { capacity = 1; order = codes "1" ∷ []; entries = (codes "1", lost) ∷ [] }

ledger-IsSound : IsSound ledger
unfolding zon_key.Keyed.keys zon_key.Keyed.all_distinct zon_key.Keyed.has_id text_eq
ledger-IsSound = record {
  same_ids = refl;
  distinct = refl;
  bounded = omega arith;
  room = omega arith;
}

abbrev calls : List Call
calls = records (codes "3") (codes "e") (definite (codes "applied")) false ∷ invalidates ∷ []

run-IsSound_example : IsSound (run ledger calls)
run-IsSound_example = run-IsSound ledger calls ledger-IsSound

record_inner-classify_id_example :
    let out = record_inner ledger (codes "3") (codes "e") (definite (codes "applied")) false in
    FoundPresent ledger (codes "3") out
    ⊎ FoundFull ledger (codes "3") (codes "1") out
    ⊎ Recorded ledger (codes "3") (codes "e") (definite (codes "applied")) (codes "f") out
record_inner-classify_id_example =
    record_inner-classify_id ledger (codes "3") (codes "e") (codes "f") (codes "1")
      (definite (codes "applied")) false

run-classify_id_example :
    classify_id
      (run ledger (records (codes "3") (codes "e") (definite (codes "applied")) false ∷ []))
      (codes "1")
      (codes "c")
    ≡ duplicate (ambiguous (codes "lost"))
unfolding zon_key.Transport.Ledger.Replay.one_session lookup text_eq is_evictable
    zon_key.Transport.Ledger.is_ambiguous
run-classify_id_example =
    run-classify_id ledger (records (codes "3") (codes "e") (definite (codes "applied")) false ∷ [])
      (codes "1") (codes "c") lost refl refl ((codes "lost", refl), refl)

record_inner-evicted_example :
    let l' = (record_inner ledger (codes "3") (codes "e") (definite (codes "applied")) false).0 in
    ((entry : LedgerEntry) × (lookup ledger.entries (codes "2") ≡ some entry) × IsSettled entry)
    × (lookup l'.entries (codes "2") ≡ none)
    × (lookup l'.entries (codes "1") ≡ lookup ledger.entries (codes "1"))
unfolding record_inner zon_key.Keyed.contains_key text_eq zon_key.Transport.Ledger.record_full
    zon_key.Transport.Ledger.take_evictable is_evictable lookup
    zon_key.Transport.Ledger.is_ambiguous
record_inner-evicted_example =
    record_inner-evicted ledger (codes "3") (codes "e") (codes "2") (codes "1")
      (definite (codes "applied")) false ledger-IsSound refl refl refl

abbrev endpoint : HostTransportEndpoint
endpoint = record {
  protocol_id = transport_protocol_id;
  session_id = some (codes "s");
  ledger = ledger;
}

accept_hello-ok_example :
    let e' = (accept_hello endpoint transport_protocol_id (codes "t")).0 in
    (transport_protocol_id ≡ endpoint.protocol_id)
    × (transport_protocol_id ≢ [])
    × (codes "t" ≢ [])
    × (check_session e' (codes "t") ≡ ok tt)
    × (check_session e' (codes "s") ≡ err session_mismatch)
    × ((true ≡ true)
        ↔ ((current : Str) × (endpoint.session_id ≡ some current) × (current ≢ codes "t")))
    × (classify_request e' (codes "1") (codes "c") ≡ fresh)
unfolding accept_hello is_empty text_eq
accept_hello-ok_example =
    accept_hello-ok endpoint transport_protocol_id (codes "t") (codes "s") (codes "1") (codes "c")
      true refl refl

abbrev redis_handoff : RestorePlanHandoff
redis_handoff = record {
  rendered_token = codes "redí";
  replacement_token = codes "redis";
  rendered_units_to_replace = 4;
  replacement_units = 5;
  reason = exact_product_dictionary;
  generation = 1;
  simulation_only = true;
}

build_host_request-ok_iff_example :
    (build_host_request after_redis redis_handoff ≡ ok (request_of redis_handoff)) ↔ (
      (current_restore_handoff after_redis ≡ some redis_handoff)
      × (is_empty redis_handoff.rendered_token ≡ false)
      × (request_of redis_handoff ≡ request_of redis_handoff))
build_host_request-ok_iff_example =
    build_host_request-ok_iff after_redis redis_handoff (request_of redis_handoff)
