-- ===== src/Tests/Durable.antt =====
-- Witnesses of what is kept of uncertain requests: the format, the registry and the store.
use mathlib.Core.List.{Memᴰ}
use zon_key.Prelude.{
  ℕ, zero, suc, ◌≡◌, ◌≢◌, ◌↔◌, ◌⊎◌, ◌≤◌, ◌%◌, refl, inl, inr, Bool, true, false, Option, none, some,
  List, [], ◌∷◌, ◌++◌, Result, ok, err, arith, length, replicate, All,
}
use zon_key.Text.{Str, codes}
use zon_key.Keyed.{contains_key}
use zon_key.Recovery.Sha256.{sha256, pad}
use zon_key.Recovery.Sha256.Padding.{length-pad}
use zon_key.Recovery.Target.{
  RecoveryDescriptor, PersistedTarget, BlockedTarget, plain, hashed, salted_hash, not_applied,
}
use zon_key.Recovery.Codec.{crc32, encode, decode, max_recovery_entries}
use zon_key.Recovery.Codec.RoundTrip.{IsTyped, IsInBounds}
use zon_key.Recovery.Codec.File.{decode-encode}
use zon_key.Recovery.Codec.Bounds.{encode-ok_iff}
use zon_key.Recovery.Registry.{RecoveryRegistry, key}
use zon_key.Recovery.Registry.Blocking.{
  Call, blocks, reconciles, acknowledges, run, IsOrdered, run-IsOrdered,
}
use zon_key.Recovery.Registry.Lifecycle.{Unblocks, run-Unblocks}
use zon_key.Recovery.Files.{Files, WriteResults, durable_write_user_only}
use zon_key.Recovery.Files.Replacement.{durable_write_user_only-succeeds}
use zon_key.Recovery.Store.{
  DurableRecoveryStore, State, OpenResults, load_store, ensure_directory, fresh_salt, open_in,
  persisted_intent, mutate_state,
}
use zon_key.Recovery.Store.Calls.{promote_pending, promote_request, target_blocked}
use zon_key.Recovery.Store.Mirrored.{Keeps, intended, IsTypedStore}
use zon_key.Recovery.Store.Mirrored.Reopening.{
  StoreCall, begins, promotes, store_run, reopening-target_blocked,
}
use zon_key.Recovery.Store.Outcomes.{
  IsRefused, IsCommitted, mutate_state-outcome, PromotionOutcome, promote_pending-outcome,
}
use zon_key.Recovery.Store.Panics.{open_in-none_iff}

-- The vector of FIPS 180-4.
sha256_abc :
    sha256 (codes "abc")
    ≡ 0xba ∷ 0x78 ∷ 0x16 ∷ 0xbf ∷ 0x8f ∷ 0x01 ∷ 0xcf ∷ 0xea ∷ 0x41 ∷ 0x41 ∷ 0x40 ∷ 0xde ∷ 0x5d
      ∷ 0xae ∷ 0x22 ∷ 0x23 ∷ 0xb0 ∷ 0x03 ∷ 0x61 ∷ 0xa3 ∷ 0x96 ∷ 0x17 ∷ 0x7a ∷ 0x9c ∷ 0xb4 ∷ 0x10
      ∷ 0xff ∷ 0x61 ∷ 0xf2 ∷ 0x00 ∷ 0x15 ∷ 0xad ∷ []
unfolding sha256
sha256_abc = refl

crc32_check : crc32 (codes "123456789") ≡ 0xcbf43926
unfolding crc32
crc32_check = refl

length-pad_example : length (pad (codes "abc")) % 64 ≡ 0
length-pad_example = length-pad (codes "abc")

abbrev salt : List ℕ
salt = replicate 16 7

abbrev pub intent : RecoveryDescriptor
intent = record {
  request_id = codes "r-1";
  uri = codes "file:///a";
  range_start = 2;
  range_end = 5;
  expected = codes "rè";
  replacement = codes "red";
  generation = 1;
  document_epoch = 3;
}

abbrev target : PersistedTarget
target = persisted_intent salt intent

target-IsTyped : IsTyped target
unfolding persisted_intent zon_key.Text.all zon_key.Text.Utf8.is_scalar salted_hash sha256
target-IsTyped = record {
  uri = refl;
  request_id = refl;
  expected_hash = refl;
  replacement_hash = refl;
  range_start = omega arith;
  range_end = omega arith;
  generation = omega arith;
  document_epoch = omega arith;
}

abbrev bytes_of {ℓ} : {E : Type ℓ} → Result E (List ℕ) → List ℕ
bytes_of (ok bytes) = bytes
bytes_of (err e) = []

decode-encode_example : decode (bytes_of (encode salt (target ∷ []))) ≡ ok (salt, target ∷ [])
unfolding encode persisted_intent zon_key.Recovery.Codec.encode_records
    zon_key.Recovery.Codec.encode_record zon_key.Text.is_empty zon_key.Text.Utf8.as_bytes
    zon_key.Text.Utf8.encode_char zon_key.Recovery.Codec.narrow zon_key.Recovery.Codec.record_bytes
    zon_key.Bytes.le_bytes salted_hash sha256 zon_key.Recovery.Codec.kind_bytes
    zon_key.Recovery.Codec.file_bytes
decode-encode_example =
    decode-encode salt (target ∷ []) (bytes_of (encode salt (target ∷ []))) refl
      (target-IsTyped, tt) refl

encode-ok_iff_example :
    ((bytes : List ℕ) × (encode salt (target ∷ []) ≡ ok bytes))
    ↔ ((1 ≤ max_recovery_entries) × All IsInBounds (target ∷ []))
encode-ok_iff_example = encode-ok_iff salt (target ∷ []) refl (target-IsTyped, tt)

-- One target, that is acknowledged too early, reconciled, and acknowledged.
abbrev blocked_once : RecoveryRegistry
blocked_once =
    run (record { capacity = 2; order = []; entries = []; salt = none })
      (blocks (codes "s") (codes "u") (codes "e") (codes "r") 0 1 0 ∷ [])

abbrev operator_calls : List Call
operator_calls =
    acknowledges (codes "s") (codes "u") (codes "e") 0
    ∷ reconciles (codes "s") (codes "u") (codes "e") 0 (codes "e")
    ∷ acknowledges (codes "s") (codes "u") (codes "e") 0
    ∷ []

run-Unblocks_example :
    (before after : List Call) × (c : Call) × (operator_calls ≡ before ++ c ∷ after)
    × Unblocks (run blocked_once before) (key (codes "u") (codes "e")) c
unfolding contains_key run zon_key.Recovery.Registry.Blocking.step zon_key.Keyed.insert_entry
    zon_key.Keyed.lookup zon_key.Keyed.remove_entry zon_key.Prelude.text_eq zon_key.Text.is_empty
    zon_key.Recovery.Target.matches key zon_key.Recovery.Registry.block
    zon_key.Recovery.Registry.block_key zon_key.Recovery.Registry.resolve_key
    zon_key.Recovery.Registry.hash_key zon_key.Recovery.Registry.acknowledge
    zon_key.Recovery.Registry.reconcile zon_key.Recovery.Registry.bind_session
    zon_key.Recovery.Registry.fresh_target zon_key.Recovery.Registry.unblock
    zon_key.Recovery.Registry.acknowledge_bound zon_key.Recovery.Registry.acknowledge_found
    zon_key.Recovery.Registry.acknowledge_state zon_key.Recovery.Registry.put
    zon_key.Recovery.Registry.rebind_allowed zon_key.Recovery.Registry.reconcile_bound
    zon_key.Recovery.Registry.reconcile_found zon_key.Recovery.Registry.reconcile_state
    zon_key.Recovery.Registry.retain_others zon_key.Recovery.Registry.verdict_for
run-Unblocks_example =
    run-Unblocks blocked_once operator_calls (key (codes "u") (codes "e")) refl refl

blocked_once-IsOrdered : IsOrdered blocked_once
unfolding zon_key.Keyed.all_distinct zon_key.Keyed.keys run zon_key.Recovery.Registry.Blocking.step
    zon_key.Recovery.Registry.block zon_key.Recovery.Registry.block_key contains_key
    zon_key.Keyed.insert_entry zon_key.Keyed.has_id
blocked_once-IsOrdered = record { agrees = λ id. refl; distinct = refl; bounded = omega arith }

run-IsOrdered_example : IsOrdered (run blocked_once operator_calls)
run-IsOrdered_example = run-IsOrdered blocked_once operator_calls blocked_once-IsOrdered

-- A disk that takes each write whole, and one on which the replacement fails in the end.
abbrev pub writes : WriteResults
writes = record {
  security = true;
  create = true;
  transferred = λ i. some 4096;
  flush = true;
  close = true;
  move = true;
}

abbrev fails : WriteResults
fails = record {
  security = true;
  create = true;
  transferred = λ i. some 4096;
  flush = true;
  close = true;
  move = false;
}

-- A disk that takes one byte at a time.
abbrev trickles : WriteResults
trickles = record {
  security = true;
  create = true;
  transferred = λ i. some 1;
  flush = true;
  close = true;
  move = true;
}

abbrev no_files : Files
no_files = record { state = none; temp = none }

durable_write_user_only-succeeds_example :
    durable_write_user_only trickles no_files (codes "abc")
    ≡ (record { state = some (codes "abc"); temp = none }, true)
unfolding zon_key.Recovery.Files.Replacement.is_progress
durable_write_user_only-succeeds_example =
    durable_write_user_only-succeeds trickles no_files (codes "abc") refl refl (λ i. refl) refl refl
      refl

abbrev answers : Option (List ℕ) → OpenResults
answers read = record {
  exists = true;
  security = true;
  created = true;
  exists_after = true;
  read = read;
  random = some salt;
}

abbrev new_registry_of_four : RecoveryRegistry
new_registry_of_four = record { capacity = 4; order = []; entries = []; salt = none }

abbrev pub new_store : DurableRecoveryStore
new_store = record { registry = new_registry_of_four; pending = []; salt = salt; poison = none }

abbrev pub holding : Files
holding = record { state = some (bytes_of (encode salt [])); temp = none }

-- The intent is written; then its promotion fails at the disk.
abbrev calls : List StoreCall
calls = begins writes intent ∷ promotes fails (codes "s") (codes "r-1") ∷ []

abbrev store_of : Option DurableRecoveryStore → DurableRecoveryStore
store_of none = new_store
store_of (some s) = s

abbrev left : List ℕ
left = bytes_of (encode salt (target ∷ []))

reopening-target_blocked_example :
    target_blocked (store_of (load_store 4 left)) (codes "file:///a") (codes "rè") ≡ true
unfolding zon_key.Recovery.Store.text_hash zon_key.Recovery.Store.recorded_verdict
    zon_key.Recovery.Store.into_persisted zon_key.Recovery.Store.persisted_intent
    zon_key.Recovery.Store.snapshot_records zon_key.Recovery.Store.ensure_directory
    zon_key.Recovery.Store.fresh_salt zon_key.Recovery.Store.expect_registry
    zon_key.Recovery.Store.with_files zon_key.Recovery.Store.written_store
    zon_key.Recovery.Store.read_store zon_key.Recovery.Store.poisoned
    zon_key.Recovery.Registry.new_registry zon_key.Recovery.Store.fresh_store
    zon_key.Recovery.Store.write_empty zon_key.Recovery.Store.create_store
    zon_key.Recovery.Store.open_in zon_key.Recovery.Store.commit zon_key.Recovery.Store.write_state
    zon_key.Recovery.Store.changed_state zon_key.Recovery.Store.gated_state
    zon_key.Recovery.Store.mutate_state zon_key.Recovery.Store.Calls.has_request
    zon_key.Recovery.Store.Calls.take_request zon_key.Recovery.Store.Calls.begin_request
    zon_key.Recovery.Store.Calls.begin_pending zon_key.Recovery.Store.Calls.blocked_ok
    zon_key.Recovery.Store.Calls.promote_found zon_key.Recovery.Store.Calls.promote_request
    zon_key.Recovery.Store.Calls.promote_pending zon_key.Recovery.Files.write_all
    zon_key.Recovery.Files.replace zon_key.Recovery.Files.durable_write_user_only
    zon_key.Recovery.Codec.crc_round zon_key.Recovery.Codec.crc_rounds
    zon_key.Recovery.Codec.crc_bytes zon_key.Recovery.Codec.crc32 zon_key.Recovery.Codec.narrow
    zon_key.Recovery.Codec.verdict_byte zon_key.Recovery.Codec.kind_bytes
    zon_key.Recovery.Codec.record_bytes zon_key.Recovery.Codec.out_of_bounds
    zon_key.Recovery.Codec.encode_record zon_key.Recovery.Codec.encode_records
    zon_key.Recovery.Codec.file_bytes zon_key.Recovery.Codec.encode
    zon_key.Recovery.Store.Mirrored.Reopening.store_run
    zon_key.Recovery.Store.Mirrored.Reopening.store_step zon_key.Recovery.Registry.list
    zon_key.Recovery.Registry.targets_of zon_key.Prelude.text_eq zon_key.Text.is_empty
    zon_key.Text.Utf8.as_bytes zon_key.Text.Utf8.encode_char zon_key.Bytes.le_bytes
    zon_key.Recovery.Target.salted_hash zon_key.Recovery.Sha256.sha256
    zon_key.Recovery.Registry.block zon_key.Recovery.Registry.block_key
    zon_key.Recovery.Registry.resolve_key zon_key.Recovery.Registry.hash_key
    zon_key.Recovery.Registry.key zon_key.Recovery.Registry.put
    zon_key.Recovery.Registry.fresh_target zon_key.Keyed.contains_key zon_key.Keyed.lookup
    zon_key.Keyed.insert_entry decode zon_key.Recovery.Codec.read_fixed
    zon_key.Recovery.Codec.read_le zon_key.Bytes.le_value zon_key.Recovery.Codec.decode_records
    zon_key.Recovery.Codec.decode_record zon_key.Recovery.Codec.read_text
    zon_key.Text.Utf8.from_utf8 zon_key.Text.Utf8.read_byte zon_key.Recovery.Codec.read_kind
    zon_key.Recovery.Registry.restore load_store zon_key.Recovery.Store.decoded_store
    zon_key.Recovery.Store.restored_store
reopening-target_blocked_example =
    reopening-target_blocked (answers none) writes no_files 4 new_store holding calls
      (answers (some left)) writes 4 (store_of (load_store 4 left))
      (store_run (new_store, holding) calls).1 (codes "file:///a") (codes "rè") refl refl
      (record { salt = refl; records = (target-IsTyped, tt) })
      (intended intent (Memᴰ.head refl) refl refl) refl refl

mutate_state-outcome_example :
    IsRefused new_store holding
      (mutate_state fails new_store holding (promote_request (codes "s") (codes "r-1")))
    ⊎ IsCommitted new_store
        (promote_request (codes "s") (codes "r-1") (new_registry_of_four, []))
        (mutate_state fails new_store holding (promote_request (codes "s") (codes "r-1")))
mutate_state-outcome_example =
    mutate_state-outcome fails new_store holding (promote_request (codes "s") (codes "r-1"))

-- A store with an intent, whose registry was filled since by a block.
abbrev full_store : DurableRecoveryStore
full_store = record {
  registry = record blocked_once { capacity = 1 };
  pending = intent ∷ [];
  salt = salt;
  poison = none;
}

promote_pending-outcome_example :
    PromotionOutcome full_store
      (promote_pending writes full_store holding (codes "s") (codes "r-1")).0.0
      intent
      []
      false
unfolding zon_key.Recovery.Store.text_hash zon_key.Recovery.Store.recorded_verdict
    zon_key.Recovery.Store.into_persisted zon_key.Recovery.Store.persisted_intent
    zon_key.Recovery.Store.snapshot_records zon_key.Recovery.Store.ensure_directory
    zon_key.Recovery.Store.fresh_salt zon_key.Recovery.Store.expect_registry
    zon_key.Recovery.Store.with_files zon_key.Recovery.Store.written_store
    zon_key.Recovery.Store.read_store zon_key.Recovery.Store.poisoned
    zon_key.Recovery.Registry.new_registry zon_key.Recovery.Store.fresh_store
    zon_key.Recovery.Store.write_empty zon_key.Recovery.Store.create_store
    zon_key.Recovery.Store.open_in zon_key.Recovery.Store.commit zon_key.Recovery.Store.write_state
    zon_key.Recovery.Store.changed_state zon_key.Recovery.Store.gated_state
    zon_key.Recovery.Store.mutate_state zon_key.Recovery.Store.Calls.has_request
    zon_key.Recovery.Store.Calls.take_request zon_key.Recovery.Store.Calls.begin_request
    zon_key.Recovery.Store.Calls.begin_pending zon_key.Recovery.Store.Calls.blocked_ok
    zon_key.Recovery.Store.Calls.promote_found zon_key.Recovery.Store.Calls.promote_request
    zon_key.Recovery.Store.Calls.promote_pending zon_key.Recovery.Files.write_all
    zon_key.Recovery.Files.replace zon_key.Recovery.Files.durable_write_user_only
    zon_key.Recovery.Codec.crc_round zon_key.Recovery.Codec.crc_rounds
    zon_key.Recovery.Codec.crc_bytes zon_key.Recovery.Codec.crc32 zon_key.Recovery.Codec.narrow
    zon_key.Recovery.Codec.verdict_byte zon_key.Recovery.Codec.kind_bytes
    zon_key.Recovery.Codec.record_bytes zon_key.Recovery.Codec.out_of_bounds
    zon_key.Recovery.Codec.encode_record zon_key.Recovery.Codec.encode_records
    zon_key.Recovery.Codec.file_bytes zon_key.Recovery.Codec.encode
    zon_key.Recovery.Store.Mirrored.Reopening.store_run
    zon_key.Recovery.Store.Mirrored.Reopening.store_step zon_key.Recovery.Registry.list
    zon_key.Recovery.Registry.targets_of zon_key.Prelude.text_eq zon_key.Text.is_empty
    zon_key.Text.Utf8.as_bytes zon_key.Text.Utf8.encode_char zon_key.Bytes.le_bytes
    zon_key.Recovery.Target.salted_hash zon_key.Recovery.Sha256.sha256
    zon_key.Recovery.Registry.block zon_key.Recovery.Registry.block_key
    zon_key.Recovery.Registry.resolve_key zon_key.Recovery.Registry.hash_key
    zon_key.Recovery.Registry.key zon_key.Recovery.Registry.put
    zon_key.Recovery.Registry.fresh_target zon_key.Recovery.Registry.Blocking.run
    zon_key.Recovery.Registry.Blocking.step zon_key.Keyed.contains_key zon_key.Keyed.lookup
    zon_key.Keyed.insert_entry
promote_pending-outcome_example =
    promote_pending-outcome writes full_store holding (codes "s") (codes "r-1") intent [] false refl
      refl

open_in-none_iff_example : (open_in (answers none) writes no_files 0 ≡ none) ↔ (
    (ensure_directory (answers none) ≡ true)
    × ((answers none).read ≡ none)
    × (fresh_salt (answers none).random ≢ none)
    × (◌≡◌ {A = ℕ} 0 0))
open_in-none_iff_example = open_in-none_iff (answers none) writes no_files 0
