-- ===== src/Windows/Requests/Preflight.antt =====
-- What must be on file before a request is executed, in crates/zonkey-win/src/pipe_transport.rs.
use zon_key.Prelude.{
  ℕ, ◌≡◌, ◌⊎◌, inl, inr, refl, sym, ap, ◌∙◌, subst, true, false, Option, none, some, List, ok, err,
  Bool-cases, arith,
}
use zon_key.Text.{Str}
use zon_key.Transport.Ledger.{LedgerOutcome}
use zon_key.Transport.Endpoint.{record_result_with_recovery}
use zon_key.Recovery.Target.{RecoveryDescriptor}
use zon_key.Recovery.Codec.{encode}
use zon_key.Recovery.Files.{Files, WriteResults}
use zon_key.Recovery.Store.{RecoveryStoreError, DurableRecoveryStore, Outcome, snapshot_records}
use zon_key.Recovery.Store.Calls.{begin_pending, target_blocked}
use zon_key.Recovery.Store.Intents.{
  IsBegun, begun_store, IsKnown, IsBegun-IsKnown, begin_request-IsBegun, begin_pending-IsCommitted,
  begin_pending-IsRefused,
}
use zon_key.Windows.Requests.{
  Recovery, Server, RequestHandler, recovery_unavailable, target_is_blocked, preflight_failed,
  with_store, run_handler, after_preflight, execute_with_store, execute_descriptor_request,
}

-- The intent is pending, and the state file is the encoding of the state that holds it.
pub record IsPreflighted (r : Recovery) (d : RecoveryDescriptor) : Type 0 where
  pub bytes : List ℕ
  pub pending : IsKnown r.store.pending d.request_id
  pub encoded :
      encode r.store.salt (snapshot_records (r.store.registry, r.store.pending) r.store.salt)
      ≡ ok bytes
  pub written : r.files.state ≡ some bytes

-- The request was refused, and why: the store cannot be used, or it blocks the target, and the server
-- is as before; or the intent could not be written, and the store and its state file are as before.
pub data IsRejected (w : WriteResults) (s : Server) (d : RecoveryDescriptor)
    (out : Server × LedgerOutcome) : Type 0 where
  has_no_store : s.recovery ≡ none → out ≡ (s, recovery_unavailable) → IsRejected w s d out
  is_poisoned :
      (r : Recovery)
      → s.recovery ≡ some r
      → r.lock_poisoned ≡ true
      → out ≡ (s, recovery_unavailable)
      → IsRejected w s d out
  is_target_blocked :
      (r : Recovery)
      → s.recovery ≡ some r
      → r.lock_poisoned ≡ false
      → target_blocked r.store d.uri d.expected ≡ true
      → out ≡ (s, target_is_blocked)
      → IsRejected w s d out
  is_not_written :
      (before after : Recovery) (reason : RecoveryStoreError)
      → s.recovery ≡ some before
      → before.lock_poisoned ≡ false
      → target_blocked before.store d.uri d.expected ≡ false
      → (begin_pending w before.store before.files d).1 ≡ err reason
      → out ≡ (record s { recovery = some after }, preflight_failed)
      → after.store ≡ before.store
      → after.files.state ≡ before.files.state
      → after.lock_poisoned ≡ false
      → IsRejected w s d out

-- The handler's outcome on a target that was not blocked, with its intent on file.
pub record IsExecuted (handler : RequestHandler) (s : Server) (d : RecoveryDescriptor)
    (composition canonical : Str) (out : Server × LedgerOutcome) : Type 0 where
  pub before : Recovery
  pub after : Recovery
  pub recovery : s.recovery ≡ some before
  pub usable : before.lock_poisoned ≡ false
  pub unblocked : target_blocked before.store d.uri d.expected ≡ false
  pub result : out.0.recovery ≡ some after
  pub preflighted : IsPreflighted after d
  pub begun : IsBegun before.store.pending d after.store.pending
  pub same_registry : after.store.registry ≡ before.store.registry
  pub outcome : out.1 ≡ handler d.request_id composition canonical
  pub endpoint :
      out.0.endpoint ≡ (record_result_with_recovery s.endpoint d.request_id canonical out.1).0

begin_pending-IsExecuted :
    (handler : RequestHandler) (w : WriteResults) (s : Server) (r : Recovery)
    (d : RecoveryDescriptor) (composition canonical : Str) (store : DurableRecoveryStore)
    (files : Files) (u : Unit {0})
    → s.recovery ≡ some r
    → r.lock_poisoned ≡ false
    → target_blocked r.store d.uri d.expected ≡ false
    → begin_pending w r.store r.files d ≡ ((store, files), ok u)
    → IsExecuted handler s d composition canonical
        (run_handler handler s.endpoint (with_store r (store, files)) d composition canonical)
unfolding run_handler with_store
begin_pending-IsExecuted handler w s r d composition canonical store files u e p b h =
    let c = begin_pending-IsCommitted w r.store r.files d (store, files) u h in
    let same : store ≡ begun_store r.store d = ap (λ o. o.0.0) (sym h) ∙ c.store in
    let begun = begin_request-IsBegun d (r.store.registry, r.store.pending) c.value c.operation in
    let is_begun : IsBegun r.store.pending d store.pending =
      subst (λ x. IsBegun r.store.pending d x.pending) (sym same) begun.0 in
    record {
      before = r;
      after = record r { store = store; files = files };
      recovery = e;
      usable = p;
      unblocked = b;
      result = refl;
      preflighted = record {
        bytes = c.bytes;
        pending = IsBegun-IsKnown r.store.pending d store.pending is_begun;
        encoded =
            ap (λ x. encode x.salt (snapshot_records (x.registry, x.pending) x.salt)) same
            ∙ c.encoded;
        written = ap (λ o. o.0.1.state) (sym h) ∙ c.written;
      };
      begun = is_begun;
      same_registry = ap (λ x. x.registry) same ∙ begun.1;
      outcome = refl;
      endpoint = refl;
    }

with_store-store :
    (r : Recovery) (next : DurableRecoveryStore × Files) → (with_store r next).store ≡ next.0
unfolding with_store
with_store-store r (store, files) = refl

with_store-state :
    (r : Recovery) (next : DurableRecoveryStore × Files)
    → (with_store r next).files.state ≡ next.1.state
unfolding with_store
with_store-state r (store, files) = refl

with_store-lock :
    (r : Recovery) (next : DurableRecoveryStore × Files)
    → (with_store r next).lock_poisoned ≡ r.lock_poisoned
unfolding with_store
with_store-lock r (store, files) = refl

after_preflight_lem :
    (handler : RequestHandler) (w : WriteResults) (s : Server) (r : Recovery)
    (d : RecoveryDescriptor) (composition canonical : Str) (o : Outcome (Unit {0}))
    → s.recovery ≡ some r
    → r.lock_poisoned ≡ false
    → target_blocked r.store d.uri d.expected ≡ false
    → begin_pending w r.store r.files d ≡ o
    → let out = after_preflight handler s.endpoint r d composition canonical o in
      IsRejected w s d out ⊎ IsExecuted handler s d composition canonical out
unfolding after_preflight
after_preflight_lem handler w s r d composition canonical ((store, files), ok u) e p b h =
    inr (begin_pending-IsExecuted handler w s r d composition canonical store files u e p b h)
after_preflight_lem handler w s r d composition canonical (next, err x) e p b h =
    let same = begin_pending-IsRefused w r.store r.files d next x h in
    inl (
      is_not_written r (with_store r next) x e p b (ap (λ o. o.1) h) refl
        (with_store-store r next ∙ same.0) (with_store-state r next ∙ same.1)
        (with_store-lock r next ∙ p))

execute_with_store_lem :
    (handler : RequestHandler) (w : WriteResults) (s : Server) (o : Option Recovery)
    (d : RecoveryDescriptor) (composition canonical : Str)
    → s.recovery ≡ o
    → let out = execute_with_store handler w s.endpoint o d composition canonical in
      IsRejected w s d out ⊎ IsExecuted handler s d composition canonical out
unfolding execute_with_store
execute_with_store_lem handler w s none d composition canonical e =
    inl (has_no_store e (ap (λ o. (record s { recovery = o }, recovery_unavailable)) (sym e)))
execute_with_store_lem handler w s (some r) d composition canonical e =
    let ends : Server × LedgerOutcome → Type 0 =
      λ out. IsRejected w s d out ⊎ IsExecuted handler s d composition canonical out in
    let stays : (outcome : LedgerOutcome)
        → ◌≡◌ {A = Server × LedgerOutcome} (record s { recovery = some r }, outcome) (s, outcome) =
      λ outcome. ap (λ o. (record s { recovery = o }, outcome)) (sym e) in
    let out = execute_with_store handler w s.endpoint (some r) d composition canonical in
    elim (Bool-cases r.lock_poisoned) [
      | inl p ↦
          let e' : out ≡ (record s { recovery = some r }, recovery_unavailable) =
            ground (arith, p) in
          inl (is_poisoned r e p (e' ∙ stays recovery_unavailable))
      | inr p ↦ elim (Bool-cases (target_blocked r.store d.uri d.expected)) [
        | inl b ↦
            let e' : out ≡ (record s { recovery = some r }, target_is_blocked) =
              ground (arith, p, b) in
            inl (is_target_blocked r e p b (e' ∙ stays target_is_blocked))
        | inr b ↦
            let rest = begin_pending w r.store r.files d in
            let e' : out ≡ after_preflight handler s.endpoint r d composition canonical rest =
              ground (arith, p, b) in
            subst ends (sym e')
              (after_preflight_lem handler w s r d composition canonical rest e p b refl)
      ]
    ]

-- A request with a descriptor is refused, whatever the handler, or it is executed. It is refused
-- with the server as before, if there is no store, its lock is poisoned, or it blocks the target;
-- or because the intent could not be recorded, and then endpoint, store and state file are as
-- before. It is executed if the lock is fine and the target is not blocked: an intent of its id is
-- pending, this one at the end of the others if there was none, the registry is as before, the
-- state file is the encoding of the state that holds the intent, and the outcome is that of the
-- handler, which the ledger was given.
pub execute_descriptor_request-outcome :
    (handler : RequestHandler) (w : WriteResults) (s : Server) (d : RecoveryDescriptor)
    (composition canonical : Str)
    → IsRejected w s d (execute_descriptor_request handler w s d composition canonical)
      ⊎ IsExecuted handler s d composition canonical
          (execute_descriptor_request handler w s d composition canonical)
unfolding execute_descriptor_request
execute_descriptor_request-outcome handler w s d composition canonical =
    execute_with_store_lem handler w s s.recovery d composition canonical refl
