-- ===== src/Recovery/Store/Calls.antt =====
-- The calls of `DurableRecoveryStore` of crates/zonkey-win/src/recovery_store.rs.
use zon_key.Prelude.{
  ℕ, ◌+◌, Bool, true, false, not, ◌||◌, Option, none, some, List, [], ◌∷◌, ◌++◌, length, leb,
  Result, ok, err, ◌==◌, if◌then◌else◌, text_eq,
}
use zon_key.Text.{Str}
use zon_key.Recovery.Target.{RecoveryVerdict, BlockedTarget, RecoveryDescriptor}
use zon_key.Recovery.Registry.{
  RecoveryError, registry_full, RecoveryRegistry, is_blocked, block, list, reconcile, acknowledge,
}
use zon_key.Recovery.Files.{Files, WriteResults}
use zon_key.Recovery.Store.{RecoveryStoreError, DurableRecoveryStore, State, Outcome, mutate_state}

unfoldable pub store_list : DurableRecoveryStore → Result RecoveryStoreError (List BlockedTarget)
store_list s = elim s.poison [ some reason ↦ err reason | none ↦ ok (list s.registry) ]

unfoldable pub pending_len : DurableRecoveryStore → ℕ
pending_len s = length s.pending

unfoldable pub target_blocked : DurableRecoveryStore → Str → Str → Bool
target_blocked s uri expected = elim s.poison [
  | some reason ↦ true
  | none ↦ is_blocked s.registry uri expected
]

-- `pending.iter().any(…)`
unfoldable pub has_request : List RecoveryDescriptor → Str → Bool
has_request [] id = false
has_request (d ∷ ds) id = text_eq d.request_id id || has_request ds id

-- `retain(|existing| existing.request_id != request_id)`
unfoldable pub retain_requests : List RecoveryDescriptor → Str → List RecoveryDescriptor
retain_requests [] id = []
retain_requests (d ∷ ds) id =
    if text_eq d.request_id id then retain_requests ds id else d ∷ retain_requests ds id

-- `position`, with the descriptor there and the others.
unfoldable pub take_request :
    List RecoveryDescriptor → Str → Option (RecoveryDescriptor × List RecoveryDescriptor)
take_request [] id = none
take_request (d ∷ ds) id =
    let rest = take_request ds id in
    if text_eq d.request_id id
    then some (d, ds)
    else elim rest [ none ↦ none | some (found, others) ↦ some (found, d ∷ others) ]

unfoldable pub with_registry {ℓ} :
    {A : Type ℓ} → List RecoveryDescriptor → RecoveryRegistry × A → State × A
with_registry ds (g, result) = ((g, ds), result)

unfoldable pub begin_request : RecoveryDescriptor → State → State × Result RecoveryError (Unit {0})
begin_request d (g, ds) =
    if has_request ds d.request_id
    then ((g, ds), ok tt)
    else if leb g.capacity (length ds + length (list g))
    then ((g, ds), err registry_full)
    else ((g, ds ++ d ∷ []), ok tt)

unfoldable pub begin_pending :
    WriteResults → DurableRecoveryStore → Files → RecoveryDescriptor → Outcome (Unit {0})
unfolding begin_request
begin_pending w s files d = mutate_state w s files (begin_request d)

unfoldable pub clear_request : Str → State → State × Result RecoveryError Bool
clear_request request_id (g, ds) =
    let kept = retain_requests ds request_id in ((g, kept), ok (not (length ds == length kept)))

unfoldable pub clear_pending : WriteResults → DurableRecoveryStore → Files → Str → Outcome Bool
unfolding clear_request
clear_pending w s files request_id = mutate_state w s files (clear_request request_id)

-- `.is_ok()` of the result of `block`
unfoldable pub blocked_ok :
    List RecoveryDescriptor
    → RecoveryRegistry × Result RecoveryError (Option Str)
    → State × Result RecoveryError Bool
blocked_ok ds (g, ok key) = ((g, ds), ok true)
blocked_ok ds (g, err e) = ((g, ds), ok false)

-- The part of `promote_pending` after the position.
unfoldable pub promote_found :
    Str
    → State
    → Option (RecoveryDescriptor × List RecoveryDescriptor)
    → State × Result RecoveryError Bool
unfolding blocked_ok
promote_found session_id next none = (next, ok false)
promote_found session_id (g, ds) (some (d, others)) =
    blocked_ok others
      (block g session_id d.uri d.expected d.replacement d.range_start d.range_end d.document_epoch)

unfoldable pub promote_request : Str → Str → State → State × Result RecoveryError Bool
unfolding promote_found
promote_request session_id request_id (g, ds) =
    promote_found session_id (g, ds) (take_request ds request_id)

unfoldable pub promote_pending :
    WriteResults → DurableRecoveryStore → Files → Str → Str → Outcome Bool
unfolding promote_request
promote_pending w s files session_id request_id =
    mutate_state w s files (promote_request session_id request_id)

unfoldable pub store_block :
    WriteResults
    → DurableRecoveryStore
    → Files
    → Str
    → Str
    → Str
    → Str
    → ℕ
    → ℕ
    → Outcome (Option Str)
unfolding with_registry
store_block w s files session_id uri expected replacement range_start range_end =
    mutate_state w s files (λ (g, ds).
      with_registry ds (block g session_id uri expected replacement range_start range_end 0))

unfoldable pub store_reconcile :
    WriteResults
    → DurableRecoveryStore
    → Files
    → Str
    → Str
    → Str
    → ℕ
    → Str
    → Outcome RecoveryVerdict
unfolding with_registry
store_reconcile w s files session_id uri expected document_epoch live =
    mutate_state w s files
      (λ (g, ds). with_registry ds (reconcile g session_id uri expected document_epoch live))

unfoldable pub store_acknowledge :
    WriteResults → DurableRecoveryStore → Files → Str → Str → Str → ℕ → Outcome (Unit {0})
unfolding with_registry
store_acknowledge w s files session_id uri expected document_epoch =
    mutate_state w s files
      (λ (g, ds). with_registry ds (acknowledge g session_id uri expected document_epoch))
