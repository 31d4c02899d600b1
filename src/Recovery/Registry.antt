-- ===== src/Recovery/Registry.antt =====
-- `RecoveryRegistry` of crates/zonkey-service/src/transport.rs.
pub mod Blocking
pub mod Lifecycle
use zon_key.Prelude.{
  ℕ, Bool, true, false, not, ◌||◌, ◌&&◌, Option, none, some, List, [], ◌∷◌, ◌++◌, length, Result,
  ok, err, ltb, ◌==◌, if◌then◌else◌, text_eq,
}
use zon_key.Text.{Str, is_empty}
use zon_key.Keyed.{Keyed, lookup, contains_key, remove_entry, insert_entry}
use zon_key.Transport.Ledger.{LedgerCapacityError, ledger_capacity_error}
use zon_key.Recovery.Target.{
  RecoveryVerdict, applied_acknowledged, not_applied, conflict_human_review, PersistedKind, blocked,
  pending, PersistedTarget, salted_hash, plain, hashed, matches, BlockedTarget, hex,
}

pub data RecoveryError : Type 0 where
  unknown_target session_mismatch ack_before_reconcile registry_full epoch_mismatch : RecoveryError

pub record RecoveryRegistry : Type 0 where
  pub capacity : ℕ
  pub order : List Str
  pub entries : Keyed BlockedTarget
  pub salt : Option (List ℕ)

unfoldable pub new_registry : ℕ → Result LedgerCapacityError RecoveryRegistry
new_registry n =
    if n == 0
    then err ledger_capacity_error
    else ok (record { capacity = n; order = []; entries = []; salt = none })

-- The URI and the token, with a NUL between them.
unfoldable pub key : Str → Str → Str
key uri expected = uri ++ 0 ∷ expected

-- The verdict of a record; a pending one has none.
unfoldable pub verdict_of_kind : PersistedKind → Option RecoveryVerdict
verdict_of_kind (blocked verdict) = verdict
verdict_of_kind pending = none

unfoldable pub restored_state : Option RecoveryVerdict → Option (RecoveryVerdict × Bool)
restored_state none = none
restored_state (some verdict) = some (verdict, false)

unfoldable pub restored_target : PersistedTarget → BlockedTarget
unfolding verdict_of_kind restored_state
restored_target r = record {
  session_id = [];
  uri = r.uri;
  expected = hashed r.expected_hash;
  replacement = hashed r.replacement_hash;
  range_start = r.range_start;
  range_end = r.range_end;
  state = restored_state (verdict_of_kind r.kind);
  generation = r.generation;
  document_epoch = r.document_epoch;
}

-- The body of the loop of `restore`.
unfoldable pub restore_record : RecoveryRegistry → PersistedTarget → RecoveryRegistry
restore_record g r =
    let k = key r.uri (hex r.expected_hash) in
    record g { order = g.order ++ k ∷ []; entries = insert_entry g.entries k (restored_target r) }

unfoldable pub restore_records : RecoveryRegistry → List PersistedTarget → RecoveryRegistry
restore_records g [] = g
restore_records g (r ∷ rs) = restore_records (restore_record g r) rs

unfoldable pub restore :
    ℕ → List ℕ → List PersistedTarget → Result LedgerCapacityError RecoveryRegistry
restore capacity salt records =
    if capacity == 0 || ltb capacity (length records)
    then err ledger_capacity_error
    else ok (
        restore_records (record { capacity = capacity; order = []; entries = []; salt = some salt })
          records)

-- The match on the salt.
unfoldable pub hash_key : Option (List ℕ) → Str → Str → Str
hash_key none uri expected = key uri expected
hash_key (some salt) uri expected = key uri (hex (salted_hash salt expected))

unfoldable pub resolve_key : RecoveryRegistry → Str → Str → Str
resolve_key g uri expected =
    if contains_key g.entries (key uri expected)
    then key uri expected
    else hash_key g.salt uri expected

unfoldable pub is_blocked : RecoveryRegistry → Str → Str → Bool
is_blocked g uri expected = contains_key g.entries (resolve_key g uri expected)

unfoldable pub put : RecoveryRegistry → Str → BlockedTarget → RecoveryRegistry
put g k t = record g { entries = insert_entry g.entries k t }

unfoldable pub fresh_target : Str → Str → Str → Str → ℕ → ℕ → ℕ → BlockedTarget
fresh_target session uri expected replacement range_start range_end epoch = record {
  session_id = session;
  uri = uri;
  expected = plain expected;
  replacement = plain replacement;
  range_start = range_start;
  range_end = range_end;
  state = none;
  generation = 0;
  document_epoch = epoch;
}

-- The part of `block` after the key: one new target under it.
unfoldable pub block_key :
    RecoveryRegistry → Str → BlockedTarget → RecoveryRegistry × Result RecoveryError (Option Str)
unfolding put
block_key g k t =
    if contains_key g.entries k
    then (put g k t, ok none)
    else if length g.order == g.capacity
    then (g, err registry_full)
    else (put (record g { order = g.order ++ k ∷ [] }) k t, ok none)

unfoldable pub block :
    RecoveryRegistry
    → Str
    → Str
    → Str
    → Str
    → ℕ
    → ℕ
    → ℕ
    → RecoveryRegistry × Result RecoveryError (Option Str)
block g session uri expected replacement range_start range_end epoch =
    block_key g (resolve_key g uri expected)
      (fresh_target session uri expected replacement range_start range_end epoch)

-- The targets in the order of their keys.
unfoldable pub targets_of : List Str → Keyed BlockedTarget → List BlockedTarget
targets_of [] es = []
targets_of (k ∷ ks) es = elim (lookup es k) [
  | none ↦ targets_of ks es
  | some t ↦ t ∷ targets_of ks es
]

unfoldable pub list : RecoveryRegistry → List BlockedTarget
list g = targets_of g.order g.entries

unfoldable pub rebind_allowed : BlockedTarget → ℕ → Bool
rebind_allowed t epoch = t.document_epoch == 0 || t.document_epoch == epoch

-- The test of the session, which binds a target that has none yet.
unfoldable pub bind_session : BlockedTarget → Str → ℕ → Result RecoveryError BlockedTarget
unfolding rebind_allowed
bind_session t session epoch =
    if is_empty t.session_id
    then (if rebind_allowed t epoch
        then ok (record t { session_id = session })
        else err epoch_mismatch)
    else (if text_eq t.session_id session then ok t else err session_mismatch)

unfoldable pub verdict_for : BlockedTarget → Option (List ℕ) → Str → RecoveryVerdict
verdict_for t salt live =
    if matches t.replacement salt live
    then applied_acknowledged
    else if matches t.expected salt live
    then not_applied
    else conflict_human_review

-- The last part of `reconcile`, by the state of the target.
unfoldable pub reconcile_state :
    RecoveryRegistry
    → Str
    → Str
    → BlockedTarget
    → Option (RecoveryVerdict × Bool)
    → RecoveryRegistry × Result RecoveryError RecoveryVerdict
reconcile_state g k live t (some (verdict, acknowledged)) = (put g k t, ok verdict)
reconcile_state g k live t none = (
  put g k (record t { state = some (verdict_for t g.salt live, false) }),
  ok (verdict_for t g.salt live),
)

unfoldable pub reconcile_bound :
    RecoveryRegistry
    → Str
    → Str
    → Result RecoveryError BlockedTarget
    → RecoveryRegistry × Result RecoveryError RecoveryVerdict
unfolding reconcile_state
reconcile_bound g k live (err e) = (g, err e)
reconcile_bound g k live (ok t) = reconcile_state g k live t t.state

unfoldable pub reconcile_found :
    RecoveryRegistry
    → Str
    → Str
    → ℕ
    → Str
    → Option BlockedTarget
    → RecoveryRegistry × Result RecoveryError RecoveryVerdict
unfolding reconcile_bound
reconcile_found g k session epoch live none = (g, err unknown_target)
reconcile_found g k session epoch live (some t) =
    reconcile_bound g k live (bind_session t session epoch)

unfoldable pub reconcile :
    RecoveryRegistry
    → Str
    → Str
    → Str
    → ℕ
    → Str
    → RecoveryRegistry × Result RecoveryError RecoveryVerdict
unfolding reconcile_found
reconcile g session uri expected epoch live =
    let k = resolve_key g uri expected in
    reconcile_found g k session epoch live (lookup g.entries k)

-- `retain(|entry| entry != key)`
unfoldable pub retain_others : List Str → Str → List Str
retain_others [] k = []
retain_others (x ∷ xs) k = if text_eq x k then retain_others xs k else x ∷ retain_others xs k

unfoldable pub unblock : RecoveryRegistry → Str → RecoveryRegistry
unblock g k = record g { entries = remove_entry g.entries k; order = retain_others g.order k }

-- The last part of `acknowledge`, by the state of the target.
unfoldable pub acknowledge_state :
    RecoveryRegistry
    → Str
    → BlockedTarget
    → Option (RecoveryVerdict × Bool)
    → RecoveryRegistry × Result RecoveryError (Unit {0})
acknowledge_state g k t none = (put g k t, err ack_before_reconcile)
acknowledge_state g k t (some s) = (unblock g k, ok tt)

unfoldable pub acknowledge_bound :
    RecoveryRegistry
    → Str
    → Result RecoveryError BlockedTarget
    → RecoveryRegistry × Result RecoveryError (Unit {0})
unfolding acknowledge_state
acknowledge_bound g k (err e) = (g, err e)
acknowledge_bound g k (ok t) = acknowledge_state g k t t.state

unfoldable pub acknowledge_found :
    RecoveryRegistry
    → Str
    → Str
    → ℕ
    → Option BlockedTarget
    → RecoveryRegistry × Result RecoveryError (Unit {0})
unfolding acknowledge_bound
acknowledge_found g k session epoch none = (g, err unknown_target)
acknowledge_found g k session epoch (some t) = acknowledge_bound g k (bind_session t session epoch)

unfoldable pub acknowledge :
    RecoveryRegistry → Str → Str → Str → ℕ → RecoveryRegistry × Result RecoveryError (Unit {0})
unfolding acknowledge_found
acknowledge g session uri expected epoch =
    let k = resolve_key g uri expected in acknowledge_found g k session epoch (lookup g.entries k)
