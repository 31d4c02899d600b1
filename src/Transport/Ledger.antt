-- ===== src/Transport/Ledger.antt =====
-- `BoundedRequestLedger` of crates/zonkey-service/src/transport.rs. The map of entries is an
-- association list; a new key comes last.
pub mod Entries
pub mod Kept
pub mod Replay
pub mod Eviction
use zon_key.Prelude.{
  ℕ, Bool, true, false, not, ◌||◌, Option, none, some, List, [], ◌∷◌, ◌++◌, length, Result, ok, err,
  ltb, ◌==◌, if◌then◌else◌, text_eq,
}
use zon_key.Text.{Str}
use zon_key.Keyed.{Keyed, lookup, contains_key, remove_entry, insert_entry}

abbrev pub default_ledger_capacity : ℕ
default_ledger_capacity = 256

pub data LedgerOutcome : Type 0 where
  definite : Str → LedgerOutcome
  ambiguous : Str → LedgerOutcome

pub data RequestDisposition : Type 0 where
  fresh : RequestDisposition
  duplicate : LedgerOutcome → RequestDisposition
  conflict : RequestDisposition

pub data LedgerCapacityError : Type 0 where
  ledger_capacity_error : LedgerCapacityError

pub data RecordOutcome : Type 0 where
  inserted : RecordOutcome
  evicted : Str → RecordOutcome
  already_present : RecordOutcome
  rejected_ledger_full : RecordOutcome

pub record LedgerEntry : Type 0 where
  pub canonical : Str
  pub outcome : LedgerOutcome
  pub recovery_backed : Bool

abbrev pub EntryList : Type 0
EntryList = Keyed LedgerEntry

pub record BoundedRequestLedger : Type 0 where
  pub capacity : ℕ
  pub order : List Str
  pub entries : EntryList

unfoldable pub new_ledger : ℕ → Result LedgerCapacityError BoundedRequestLedger
new_ledger n =
    if n == 0
    then err ledger_capacity_error
    else ok (record { capacity = n; order = []; entries = [] })

-- The match on the entry in `classify`.
unfoldable pub disposition : Option LedgerEntry → Str → RequestDisposition
disposition none canonical = fresh
disposition (some entry) canonical =
    if text_eq entry.canonical canonical then duplicate entry.outcome else conflict

unfoldable pub classify_id : BoundedRequestLedger → Str → Str → RequestDisposition
unfolding disposition
classify_id l id canonical = disposition (lookup l.entries id) canonical

-- `matches!(.., LedgerOutcome::Ambiguous(_))`
unfoldable pub is_ambiguous : LedgerOutcome → Bool
is_ambiguous (definite s) = false
is_ambiguous (ambiguous s) = true

unfoldable pub is_evictable : Option LedgerEntry → Bool
is_evictable none = true
is_evictable (some entry) = not (is_ambiguous entry.outcome) || entry.recovery_backed

-- `position` and `VecDeque::remove`: the oldest evictable id, and the other ids.
unfoldable pub take_evictable : EntryList → List Str → Option (Str × List Str)
take_evictable es [] = none
take_evictable es (id ∷ ids) =
    let later = take_evictable es ids in
    if is_evictable (lookup es id)
    then some (id, ids)
    else elim later [ none ↦ none | some (found, rest) ↦ some (found, id ∷ rest) ]

unfoldable pub push_entry : BoundedRequestLedger → Str → LedgerEntry → BoundedRequestLedger
push_entry l id entry = record l {
  order = l.order ++ id ∷ [];
  entries = insert_entry l.entries id entry;
}

-- The part of `record_inner` for a full ledger.
unfoldable pub record_full :
    BoundedRequestLedger
    → Str
    → LedgerEntry
    → Option (Str × List Str)
    → BoundedRequestLedger × RecordOutcome
record_full l id entry none = (l, rejected_ledger_full)
record_full l id entry (some (oldest, rest)) = (
  push_entry (record l { order = rest; entries = remove_entry l.entries oldest }) id entry,
  evicted oldest,
)

unfoldable pub record_inner :
    BoundedRequestLedger → Str → Str → LedgerOutcome → Bool → BoundedRequestLedger × RecordOutcome
record_inner l id canonical outcome backed =
    let entry : LedgerEntry = record {
      canonical = canonical;
      outcome = outcome;
      recovery_backed = backed;
    } in
    if contains_key l.entries id
    then (l, already_present)
    else if ltb (length l.order) l.capacity
    then (push_entry l id entry, inserted)
    else record_full l id entry (take_evictable l.entries l.order)

unfoldable pub record_outcome :
    BoundedRequestLedger → Str → Str → LedgerOutcome → BoundedRequestLedger × RecordOutcome
record_outcome l id canonical outcome = record_inner l id canonical outcome false

unfoldable pub record_with_recovery :
    BoundedRequestLedger → Str → Str → LedgerOutcome → BoundedRequestLedger × RecordOutcome
record_with_recovery l id canonical outcome = record_inner l id canonical outcome true

unfoldable pub invalidate_all : BoundedRequestLedger → BoundedRequestLedger
invalidate_all l = record l { order = []; entries = [] }
