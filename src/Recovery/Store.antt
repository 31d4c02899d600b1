-- ===== src/Recovery/Store.antt =====
-- `DurableRecoveryStore` of crates/zonkey-win/src/recovery_store.rs. The store's directory and salt do
-- not change once it is open, so that its one state file is passed along, as `Files`.
pub mod Restored
pub mod Calls
pub mod Mirrored
pub mod Outcomes
pub mod Intents
pub mod Panics
use zon_key.Prelude.{
  ℕ, ◌+◌, Bool, true, false, not, ◌||◌, ◌&&◌, Option, none, some, List, [], ◌∷◌, ◌++◌, length, map,
  ltb, leb, Result, ok, err, ◌==◌, if◌then◌else◌, text_eq, replicate, max,
}
use zon_key.Prelude.Partial.{◌>>=◌}
use zon_key.Text.{Str, codes}
use zon_key.Transport.Ledger.{LedgerCapacityError}
use zon_key.Recovery.Target.{
  RecoveryVerdict, PersistedKind, blocked, pending, PersistedTarget, salted_hash, RecoveryText,
  plain, hashed, BlockedTarget, RecoveryDescriptor,
}
use zon_key.Recovery.Codec.{
  RecoveryCodecError, oversized_file, too_many_entries, max_recovery_entries,
  max_recovery_state_bytes, salt_bytes, encode, decode,
}
use zon_key.Recovery.Registry.{
  RecoveryError, registry_full, RecoveryRegistry, new_registry, restore, is_blocked, block, list,
  reconcile, acknowledge,
}
use zon_key.Recovery.Files.{Files, WriteResults, durable_write_user_only}

pub data RecoveryStoreError : Type 0 where
  state_unreadable : RecoveryCodecError → RecoveryStoreError
  unavailable write_failed : RecoveryStoreError
  registry_error : RecoveryError → RecoveryStoreError

pub record DurableRecoveryStore : Type 0 where
  pub registry : RecoveryRegistry
  pub pending : List RecoveryDescriptor
  pub salt : List ℕ
  pub poison : Option RecoveryStoreError

-- What a store writes, and what decides whether it may be used at all.
abbrev pub State : Type 0
State = RecoveryRegistry × List RecoveryDescriptor

abbrev pub operator_request_id : Str
operator_request_id = codes "operator"

-- The match on a text of a target.
unfoldable pub text_hash : List ℕ → RecoveryText → List ℕ
text_hash salt (plain text) = salted_hash salt text
text_hash salt (hashed hash) = hash

unfoldable pub recorded_verdict : Option (RecoveryVerdict × Bool) → Option RecoveryVerdict
recorded_verdict none = none
recorded_verdict (some (verdict, acknowledged)) = some verdict

unfoldable pub into_persisted : List ℕ → Str → BlockedTarget → PersistedTarget
unfolding text_hash recorded_verdict
into_persisted salt request_id t = record {
  uri = t.uri;
  range_start = t.range_start;
  range_end = t.range_end;
  expected_hash = text_hash salt t.expected;
  replacement_hash = text_hash salt t.replacement;
  kind = blocked (recorded_verdict t.state);
  generation = t.generation;
  document_epoch = t.document_epoch;
  request_id = request_id;
}

unfoldable pub persisted_intent : List ℕ → RecoveryDescriptor → PersistedTarget
persisted_intent salt d = record {
  uri = d.uri;
  range_start = d.range_start;
  range_end = d.range_end;
  expected_hash = salted_hash salt d.expected;
  replacement_hash = salted_hash salt d.replacement;
  kind = pending;
  generation = d.generation;
  document_epoch = d.document_epoch;
  request_id = d.request_id;
}

unfoldable pub snapshot_records : State → List ℕ → List PersistedTarget
unfolding into_persisted persisted_intent
snapshot_records (g, ds) salt =
    map (into_persisted salt operator_request_id) (list g) ++ map (persisted_intent salt) ds

-- What the system answers while a store is opened: whether the directory is there, or can be made, the
-- bytes read, where the file can be read, and the random ones.
pub record OpenResults : Type 0 where
  pub exists : Bool
  pub security : Bool
  pub created : Bool
  pub exists_after : Bool
  pub read : Option (List ℕ)
  pub random : Option (List ℕ)

unfoldable pub ensure_directory : OpenResults → Bool
ensure_directory o = o.exists || o.security && (o.created || o.exists_after)

-- `.expect("non-zero capacity")`; none where the source panics.
unfoldable pub expect_registry :
    Result LedgerCapacityError RecoveryRegistry → Option RecoveryRegistry
expect_registry (ok g) = some g
expect_registry (err e) = none

unfoldable pub poisoned : ℕ → RecoveryStoreError → Option DurableRecoveryStore
unfolding expect_registry new_registry
poisoned capacity reason = do
  registry ← expect_registry (new_registry (max capacity 1))
  some (record { registry = registry; pending = []; salt = replicate 16 0; poison = some reason })

-- `random_bytes(SALT_BYTES)` as an array of that length
unfoldable pub fresh_salt : Option (List ℕ) → Option (List ℕ)
fresh_salt none = none
fresh_salt (some bytes) = if length bytes == salt_bytes then some bytes else none

unfoldable pub fresh_store : ℕ → List ℕ → Option DurableRecoveryStore
unfolding expect_registry new_registry
fresh_store capacity salt = do
  registry ← expect_registry (new_registry capacity)
  some (record { registry = registry; pending = []; salt = salt; poison = none })

unfoldable pub write_empty :
    WriteResults → Files → List ℕ → Result RecoveryCodecError (List ℕ) → Files × Bool
write_empty w files salt (err e) = (files, false)
write_empty w files salt (ok bytes) = durable_write_user_only w files bytes

unfoldable pub with_files :
    Files → Option DurableRecoveryStore → Option (DurableRecoveryStore × Files)
with_files files none = none
with_files files (some s) = some (s, files)

-- A fresh store once its file was written, or could not be.
unfoldable pub written_store : DurableRecoveryStore → Files × Bool → DurableRecoveryStore × Files
written_store s (files, written) =
    (record s { poison = if written then none else some unavailable }, files)

-- The store where no file is read.
unfoldable pub create_store :
    WriteResults → Files → ℕ → Option (List ℕ) → Option (DurableRecoveryStore × Files)
unfolding poisoned fresh_store with_files written_store write_empty
create_store w files capacity none = with_files files (poisoned capacity unavailable)
create_store w files capacity (some salt) = do
  s ← fresh_store capacity salt
  some (written_store s (write_empty w files salt (encode salt [])))

-- The store on the records of a file.
unfoldable pub restored_store :
    ℕ → List ℕ → Result LedgerCapacityError RecoveryRegistry → Option DurableRecoveryStore
unfolding poisoned
restored_store capacity salt (err e) = poisoned capacity (state_unreadable too_many_entries)
restored_store capacity salt (ok g) =
    some (record { registry = g; pending = []; salt = salt; poison = none })

unfoldable pub decoded_store :
    ℕ → Result RecoveryCodecError (List ℕ × List PersistedTarget) → Option DurableRecoveryStore
unfolding poisoned restored_store
decoded_store capacity (err e) = poisoned capacity (state_unreadable e)
decoded_store capacity (ok (salt, records)) =
    restored_store capacity salt (restore capacity salt records)

-- The store on the bytes of a file.
unfoldable pub load_store : ℕ → List ℕ → Option DurableRecoveryStore
unfolding poisoned decoded_store
load_store capacity bytes =
    if ltb max_recovery_state_bytes (length bytes)
    then poisoned capacity (state_unreadable oversized_file)
    else decoded_store capacity (decode bytes)

-- The store in a directory, by what is read of the file; none where the source panics.
unfoldable pub read_store :
    OpenResults → WriteResults → Files → ℕ → Option (List ℕ) → Option (DurableRecoveryStore × Files)
unfolding create_store load_store with_files
read_store o w files capacity none = create_store w files capacity (fresh_salt o.random)
read_store o w files capacity (some bytes) = with_files files (load_store capacity bytes)

unfoldable pub open_in :
    OpenResults → WriteResults → Files → ℕ → Option (DurableRecoveryStore × Files)
unfolding poisoned read_store with_files
open_in o w files capacity =
    if not (ensure_directory o)
    then with_files files (poisoned capacity unavailable)
    else read_store o w files capacity o.read

abbrev pub Outcome : Type 0 → Type 0
Outcome T = (DurableRecoveryStore × Files) × Result RecoveryStoreError T

module _ {T : Type 0} where
  -- The end of a change: the state is taken over where it was written.
  unfoldable pub commit : DurableRecoveryStore → State → T → Files × Bool → Outcome T
  commit s (g, ds) result (files, written) =
      if written
      then ((record s { registry = g; pending = ds }, files), ok result)
      else ((s, files), err write_failed)

  unfoldable pub write_state :
      WriteResults
      → DurableRecoveryStore
      → Files
      → State
      → T
      → Result RecoveryCodecError (List ℕ)
      → Outcome T
  unfolding commit
  write_state w s files next result (err e) = ((s, files), err write_failed)
  write_state w s files next result (ok bytes) =
      commit s next result (durable_write_user_only w files bytes)

  unfoldable pub changed_state :
      WriteResults → DurableRecoveryStore → Files → State × Result RecoveryError T → Outcome T
  unfolding write_state
  changed_state w s files (next, err e) = ((s, files), err (registry_error e))
  changed_state w s files (next, ok result) =
      write_state w s files next result (encode s.salt (snapshot_records next s.salt))

  unfoldable pub gated_state :
      WriteResults
      → DurableRecoveryStore
      → Files
      → (State → State × Result RecoveryError T)
      → Option RecoveryStoreError
      → Outcome T
  unfolding changed_state
  gated_state w s files operation (some reason) = ((s, files), err reason)
  gated_state w s files operation none = changed_state w s files (operation (s.registry, s.pending))

  unfoldable pub mutate_state :
      WriteResults
      → DurableRecoveryStore
      → Files
      → (State → State × Result RecoveryError T)
      → Outcome T
  unfolding gated_state
  mutate_state w s files operation = gated_state w s files operation s.poison
