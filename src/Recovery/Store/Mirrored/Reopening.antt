-- ===== src/Recovery/Store/Mirrored/Reopening.antt =====
-- The store of crates/zonkey-win/src/recovery_store.rs over calls and a crash.
use zon_key.Prelude.{ℕ, ◌≡◌, true, some, List, [], ◌∷◌}
use zon_key.Text.{Str}
use zon_key.Recovery.Target.{RecoveryDescriptor}
use zon_key.Recovery.Files.{Files, WriteResults}
use zon_key.Recovery.Store.{DurableRecoveryStore, OpenResults, open_in}
use zon_key.Recovery.Store.Calls.{
  target_blocked, begin_pending, clear_pending, promote_pending, store_block, store_reconcile,
  store_acknowledge,
}
use zon_key.Recovery.Store.Mirrored.{Keeps, IsTypedStore, IsMirrored, mutate_state-IsMirrored}
use zon_key.Recovery.Store.Mirrored.Opening.{open_in-IsMirrored, open_in-target_blocked}

-- A call of the store that may change it, with what Windows answers to it.
pub data StoreCall : Type 0 where
  begins : WriteResults → RecoveryDescriptor → StoreCall
  clears : WriteResults → Str → StoreCall
  promotes : WriteResults → Str → Str → StoreCall
  blocks : WriteResults → Str → Str → Str → Str → ℕ → ℕ → StoreCall
  reconciles : WriteResults → Str → Str → Str → ℕ → Str → StoreCall
  acknowledges : WriteResults → Str → Str → Str → ℕ → StoreCall

unfoldable pub store_step : DurableRecoveryStore × Files → StoreCall → DurableRecoveryStore × Files
store_step (s, files) (begins w d) = (begin_pending w s files d).0
store_step (s, files) (clears w request_id) = (clear_pending w s files request_id).0
store_step (s, files) (promotes w session_id request_id) =
    (promote_pending w s files session_id request_id).0
store_step (s, files) (blocks w session_id uri expected replacement from to) =
    (store_block w s files session_id uri expected replacement from to).0
store_step (s, files) (reconciles w session_id uri expected epoch live) =
    (store_reconcile w s files session_id uri expected epoch live).0
store_step (s, files) (acknowledges w session_id uri expected epoch) =
    (store_acknowledge w s files session_id uri expected epoch).0

unfoldable pub store_run :
    DurableRecoveryStore × Files → List StoreCall → DurableRecoveryStore × Files
unfolding store_step
store_run p [] = p
store_run p (c ∷ cs) = store_run (store_step p c) cs

step-IsMirrored :
    (s : DurableRecoveryStore) (files : Files) (c : StoreCall)
    → IsMirrored s files
    → let p = store_step (s, files) c in IsMirrored p.0 p.1
unfolding store_step begin_pending clear_pending promote_pending store_block store_reconcile
    store_acknowledge
step-IsMirrored s files (begins w d) h = mutate_state-IsMirrored w s files _ h
step-IsMirrored s files (clears w request_id) h = mutate_state-IsMirrored w s files _ h
step-IsMirrored s files (promotes w session_id request_id) h = mutate_state-IsMirrored w s files _ h
step-IsMirrored s files (blocks w session_id uri expected replacement from to) h =
    mutate_state-IsMirrored w s files _ h
step-IsMirrored s files (reconciles w session_id uri expected epoch live) h =
    mutate_state-IsMirrored w s files _ h
step-IsMirrored s files (acknowledges w session_id uri expected epoch) h =
    mutate_state-IsMirrored w s files _ h

run-IsMirrored :
    (p : DurableRecoveryStore × Files) (cs : List StoreCall)
    → IsMirrored p.0 p.1
    → let q = store_run p cs in IsMirrored q.0 q.1
unfolding store_run
run-IsMirrored p [] h = h
run-IsMirrored p (c ∷ cs) h = run-IsMirrored (store_step p c) cs (step-IsMirrored p.0 p.1 c h)

-- No target is forgotten: whatever calls a store was given after it was opened on what was read of
-- the state file, and whatever of its writes failed, once it is opened again on what is read of the
-- file that it left, each target that was blocked and each target with a pending intent is blocked;
-- if the values to be written have the types that the source gives them.
pub reopening-target_blocked :
    (o : OpenResults) (w : WriteResults) (files : Files) (capacity : ℕ) (s : DurableRecoveryStore)
    (opened : Files) (cs : List StoreCall) (o' : OpenResults) (w' : WriteResults) (capacity' : ℕ)
    (s' : DurableRecoveryStore) (reopened : Files) (uri expected : Str)
    → open_in o w files capacity ≡ some (s, opened)
    → o.read ≡ files.state
    → IsTypedStore (store_run (s, opened) cs).0
    → Keeps (store_run (s, opened) cs).0 uri expected
    → open_in o' w' (store_run (s, opened) cs).1 capacity' ≡ some (s', reopened)
    → o'.read ≡ (store_run (s, opened) cs).1.state
    → target_blocked s' uri expected ≡ true
reopening-target_blocked o w files capacity s opened cs o' w' capacity' s' reopened uri expected
      opens reads typed keeps reopens rereads =
    open_in-target_blocked o' w' (store_run (s, opened) cs).1 capacity' s' reopened reopens rereads
      uri expected
      (run-IsMirrored (s, opened) cs (open_in-IsMirrored o w files capacity s opened opens reads)
        uri expected typed keeps)
