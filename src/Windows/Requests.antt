-- ===== src/Windows/Requests.antt =====
-- How the server of crates/zonkey-win/src/pipe_transport.rs serves a payload. The handler of requests is
-- a function; what Windows answers to the writes of the store, and whether an answer could be delivered,
-- are parameters of each call.
pub mod Preflight
use zon_key.Prelude.{
  ℕ, suc, ◌+◌, Bool, true, false, not, ◌||◌, Option, none, some, List, [], ◌∷◌, ◌++◌, Result, ok,
  err, if◌then◌else◌, text_eq, length,
}
use zon_key.Prelude.Partial.{◌>>=◌}
use zon_key.Text.{Str, codes}
use zon_key.Text.Search.{strip_prefix, starts_with, split}
use zon_key.Transport.Ledger.{
  LedgerOutcome, definite, ambiguous, RequestDisposition, fresh, duplicate, conflict, RecordOutcome,
}
use zon_key.Transport.Endpoint.{
  HostTransportEndpoint, TransportError, accept_hello, check_session, classify_request,
  record_result, record_result_with_recovery,
}
use zon_key.Transport.Request.{composition_gate_outcome, HandoffRequest, decimal}
use zon_key.Recovery.Target.{
  RecoveryDescriptor, BlockedTarget, RecoveryVerdict, applied_acknowledged, not_applied,
  conflict_human_review,
}
use zon_key.Recovery.Codec.{
  RecoveryCodecError, truncated, bad_magic, unknown_version, too_many_entries, oversized_file,
  oversized_record, malformed, checksum_mismatch, encode_overflow,
}
use zon_key.Recovery.Registry.{
  RecoveryError, unknown_target, session_mismatch, ack_before_reconcile, registry_full,
  epoch_mismatch,
}
use zon_key.Recovery.Files.{Files, WriteResults}
use zon_key.Recovery.Store.{
  RecoveryStoreError, state_unreadable, unavailable, write_failed, registry_error,
  DurableRecoveryStore, Outcome,
}
use zon_key.Recovery.Store.Calls.{
  store_list, target_blocked, begin_pending, clear_pending, promote_pending, store_block,
  store_reconcile, store_acknowledge,
}
use zon_key.Windows.Messages.{
  parse_u64, parse_request, parse_descriptor_request, parse_reconcile, outcome_payload,
  handoff_payload,
}

-- The shared store with its file; whether its lock is poisoned.
pub record Recovery : Type 0 where
  pub store : DurableRecoveryStore
  pub files : Files
  pub lock_poisoned : Bool

abbrev pub RequestHandler : Type 0
RequestHandler = Str → Str → Str → LedgerOutcome

-- The handler that only validates.
abbrev pub composition_gate_handler : RequestHandler
composition_gate_handler = λ request_id composition canonical. composition_gate_outcome composition

pub record Server : Type 0 where
  pub endpoint : HostTransportEndpoint
  pub recovery : Option Recovery

abbrev pub recovery_unavailable : LedgerOutcome
recovery_unavailable = definite (codes "rejected:RecoveryUnavailable")

abbrev pub target_is_blocked : LedgerOutcome
target_is_blocked = definite (codes "rejected:TargetBlocked")

abbrev pub preflight_failed : LedgerOutcome
preflight_failed = definite (codes "rejected:RecoveryPreflightFailed")

unfoldable pub with_store : Recovery → DurableRecoveryStore × Files → Recovery
with_store r (s, files) = record r { store = s; files = files }

-- The run of the handler, once the intent was written.
unfoldable pub run_handler :
    RequestHandler
    → HostTransportEndpoint
    → Recovery
    → RecoveryDescriptor
    → Str
    → Str
    → Server × LedgerOutcome
run_handler handler e r d composition canonical =
    let outcome = handler d.request_id composition canonical in
    (
      record {
        endpoint = (record_result_with_recovery e d.request_id canonical outcome).0;
        recovery = some r;
      },
      outcome,
    )

-- The part of `execute_descriptor_request` after `begin_pending`.
unfoldable pub after_preflight :
    RequestHandler
    → HostTransportEndpoint
    → Recovery
    → RecoveryDescriptor
    → Str
    → Str
    → Outcome (Unit {0})
    → Server × LedgerOutcome
unfolding run_handler with_store
after_preflight handler e r d composition canonical (next, ok done) =
    run_handler handler e (with_store r next) d composition canonical
after_preflight handler e r d composition canonical (next, err reason) =
    (record { endpoint = e; recovery = some (with_store r next) }, preflight_failed)

unfoldable pub execute_with_store :
    RequestHandler
    → WriteResults
    → HostTransportEndpoint
    → Option Recovery
    → RecoveryDescriptor
    → Str
    → Str
    → Server × LedgerOutcome
execute_with_store handler w e none d composition canonical =
    (record { endpoint = e; recovery = none }, recovery_unavailable)
execute_with_store handler w e (some r) d composition canonical =
    if r.lock_poisoned
    then (record { endpoint = e; recovery = some r }, recovery_unavailable)
    else if target_blocked r.store d.uri d.expected
    then (record { endpoint = e; recovery = some r }, target_is_blocked)
    else after_preflight handler e r d composition canonical (begin_pending w r.store r.files d)

unfoldable pub execute_descriptor_request :
    RequestHandler → WriteResults → Server → RecoveryDescriptor → Str → Str → Server × LedgerOutcome
unfolding execute_with_store after_preflight
execute_descriptor_request handler w s d composition canonical =
    execute_with_store handler w s.endpoint s.recovery d composition canonical

unfoldable pub is_uncertain : LedgerOutcome → Bool
is_uncertain (ambiguous text) = true
is_uncertain (definite text) = not (starts_with text (codes "rejected:"))

-- A call of the store under its lock, whose result is not looked at.
unfoldable pub on_store :
    (DurableRecoveryStore → Files → DurableRecoveryStore × Files)
    → Option Recovery
    → Option Recovery
unfolding with_store
on_store f none = none
on_store f (some r) = if r.lock_poisoned then some r else some (with_store r (f r.store r.files))

unfoldable pub promote_after_loss : WriteResults → Server → Str → Str → Server
unfolding on_store
promote_after_loss w s session request_id = record s {
  recovery =
      on_store (λ store files. (promote_pending w store files session request_id).0) s.recovery;
}

unfoldable pub resolve_pending : WriteResults → Server → Str → Str → LedgerOutcome → Server
unfolding is_uncertain on_store
resolve_pending w s session request_id outcome = record s {
  recovery =
      on_store
        (λ store files.
          if is_uncertain outcome
          then (promote_pending w store files session request_id).0
          else (clear_pending w store files request_id).0)
        s.recovery;
}

-- What a payload leads to: the server, the answer that is written, if any, and whether the connection
-- goes on once it is delivered.
abbrev pub Served : Type 0
Served = Server × Option Str × Bool

-- The end of a request with a descriptor that is not known yet, by whether its answer is delivered.
unfoldable pub deliver : WriteResults → Bool → Str → Str → Server × LedgerOutcome → Served
unfolding resolve_pending promote_after_loss
deliver w delivered session request_id (s, outcome) = (
  if delivered
      then resolve_pending w s session request_id outcome
      else promote_after_loss w s session request_id,
  some (outcome_payload outcome),
  delivered,
)

abbrev pub id_reuse : LedgerOutcome
id_reuse = definite (codes "request_id_reuse")

-- The match on the disposition; `w` is about the writes before the answer, `w'` about those after it.
unfoldable pub serve_disposition :
    RequestHandler
    → WriteResults
    → WriteResults
    → Bool
    → Server
    → Str
    → RecoveryDescriptor
    → Str
    → Str
    → RequestDisposition
    → Served
unfolding deliver execute_descriptor_request
serve_disposition handler w w' delivered s session d composition canonical (duplicate recorded) =
    (s, some (outcome_payload recorded), delivered)
serve_disposition handler w w' delivered s session d composition canonical conflict =
    (s, some (outcome_payload id_reuse), delivered)
serve_disposition handler w w' delivered s session d composition canonical fresh =
    deliver w' delivered session d.request_id
      (execute_descriptor_request handler w s d composition canonical)

abbrev pub mismatch : Str
mismatch = codes "ERROR|session_mismatch"

unfoldable pub serve_descriptor :
    RequestHandler
    → WriteResults
    → WriteResults
    → Bool
    → Server
    → Option (Str × RecoveryDescriptor × Str × Str)
    → Served
unfolding serve_disposition
serve_descriptor handler w w' delivered s none = (s, none, false)
serve_descriptor handler w w' delivered s (some (session, d, composition, canonical)) =
    elim (check_session s.endpoint session) [
      | err e ↦ (s, some mismatch, delivered)
      | ok valid ↦
          serve_disposition handler w w' delivered s session d composition canonical
            (classify_request s.endpoint d.request_id canonical)
    ]

unfoldable pub serve_descriptor_request :
    RequestHandler → WriteResults → WriteResults → Bool → Server → Str → Served
unfolding serve_descriptor
serve_descriptor_request handler w w' delivered s request =
    serve_descriptor handler w w' delivered s (parse_descriptor_request request)
