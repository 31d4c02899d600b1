-- ===== src/Transport/Ledger/Replay.antt =====
-- What the ledger of crates/zonkey-service/src/transport.rs answers after it recorded, and what it
-- forgets.
use zon_key.Prelude.{
  ◌≡◌, ◌≤◌, ◌<◌, ◌⊎◌, refl, sym, ◌∙◌, Bool, Bool-cases, length, true, false, none, some, List, [],
  ◌∷◌, arith, text_eq, text_eq→eq, inl, inr, if◌then◌else◌,
}
use zon_key.Keyed.{lookup, contains_key, has_id}
use zon_key.Keyed.Laws.{
  contains_key-keys, lookup-none, lookup-some, lookup-insert_entry, lookup-insert_entry_other,
  lookup-remove_entry_other,
}
use zon_key.Text.{Str}
use zon_key.Transport.Ledger.{
  LedgerOutcome, is_ambiguous, RequestDisposition, duplicate, conflict, RecordOutcome, inserted,
  evicted, already_present, rejected_ledger_full, LedgerEntry, EntryList, BoundedRequestLedger,
  is_evictable, classify_id, push_entry, record_inner,
}
use zon_key.Transport.Ledger.Entries.{IsPinned, lookup-IsPinned, take_evictable-none}
use zon_key.Transport.Ledger.Kept.{
  entry_of, without, Recording, is_present, fits, is_full, evicts, record_inner-Recording, Call,
  records, invalidates, step, run,
}

-- The answer to a request with a canonical form, where this one is on record.
abbrev pub replayed : Str → LedgerOutcome → Str → RequestDisposition
replayed canonical outcome asked = if text_eq canonical asked then duplicate outcome else conflict

push_entry-classify_id :
    (l : BoundedRequestLedger) (id asked : Str) (entry : LedgerEntry)
    → classify_id (push_entry l id entry) id asked ≡ replayed entry.canonical entry.outcome asked
unfolding push_entry classify_id
push_entry-classify_id l id asked entry = rw (lookup-insert_entry l.entries id entry) refl

-- What an id on record, or one that is not, is looked up as.
present :
    (es : EntryList) (id : Str)
    → contains_key es id ≡ true
    → (entry : LedgerEntry) × (lookup es id ≡ some entry)
present es id h = lookup-some es id (sym (contains_key-keys es id) ∙ h)

missing : (es : EntryList) (id : Str) → contains_key es id ≡ false → lookup es id ≡ none
missing es id h = lookup-none es id (sym (contains_key-keys es id) ∙ h)

-- The call that found the id on record.
abbrev pub FoundPresent : BoundedRequestLedger → Str → BoundedRequestLedger × RecordOutcome → Type 0
FoundPresent l id (l', o) =
    ((entry : LedgerEntry) × (lookup l.entries id ≡ some entry)) × (o ≡ already_present) × (l' ≡ l)

-- The call that found a new id and no room for it: this other id, if it is kept, must stay.
abbrev pub FoundFull :
    BoundedRequestLedger → Str → Str → BoundedRequestLedger × RecordOutcome → Type 0
FoundFull l id other (l', o) =
    (lookup l.entries id ≡ none)
    × (l.capacity ≤ length l.order)
    × ((has_id l.order other ≡ false)
        ⊎ ((entry : LedgerEntry) × (lookup l.entries other ≡ some entry) × IsPinned entry))
    × (o ≡ rejected_ledger_full)
    × (l' ≡ l)

-- The call that recorded a new id, in free room or in that of another one.
abbrev pub Recorded :
    BoundedRequestLedger
    → Str
    → Str
    → LedgerOutcome
    → Str
    → BoundedRequestLedger × RecordOutcome
    → Type 0
Recorded l id canonical outcome asked (l', o) =
    (lookup l.entries id ≡ none)
    × (((o ≡ inserted) × (length l.order < l.capacity))
        ⊎ ((old : Str) × (o ≡ evicted old)
            × (has_id l.order old ≡ true)
            × (l.capacity ≤ length l.order)))
    × (classify_id l' id asked ≡ replayed canonical outcome asked)

-- Recording a result has one of three outcomes. The id is on record, and nothing changes. Or the id
-- is new, the ledger is full and each other id that it keeps is on record with an ambiguous result
-- that no recovery record backs, and nothing changes. Or the id is new, there is room or a kept id
-- is evicted, and afterwards the same request is a duplicate with this outcome, and another under
-- the same id is in conflict.
pub record_inner-classify_id :
    (l : BoundedRequestLedger) (id canonical asked other : Str) (outcome : LedgerOutcome)
    (backed : Bool)
    → FoundPresent l id (record_inner l id canonical outcome backed)
      ⊎ FoundFull l id other (record_inner l id canonical outcome backed)
      ⊎ Recorded l id canonical outcome asked (record_inner l id canonical outcome backed)
record_inner-classify_id l id canonical asked other outcome backed =
    elim (record_inner-Recording l id canonical outcome backed) [
      | is_present p e ↦ rw e (inl (present l.entries id p, refl, refl))
      | fits p q e ↦ rw e (
          inr (
            inr (
              missing l.entries id p,
              inl (refl, q),
              push_entry-classify_id l id asked (entry_of canonical outcome backed),
            )))
      | is_full p n q e ↦ rw e (
          inr (
            inl (
              missing l.entries id p,
              q,
              elim (Bool-cases (has_id l.order other)) [
                | inl k ↦ inr (
                    lookup-IsPinned l.entries other
                      (take_evictable-none l.entries l.order other n k))
                | inr k ↦ inl k
              ],
              refl,
              refl,
            )))
      | evicts oldest rest p o q e ↦ rw e (
          inr (
            inr (
              missing l.entries id p,
              inr (oldest, refl, o.present, q),
              push_entry-classify_id (without l rest oldest) id asked
                  (entry_of canonical outcome backed),
            )))
    ]

differ :
    (es : EntryList) (id other : Str) (entry : LedgerEntry)
    → contains_key es id ≡ false
    → lookup es other ≡ some entry
    → text_eq id other ≡ false
differ es id other entry h k =
    ground (arith, text_eq→eq id other, lookup-none es id, contains_key-keys es id)

oldest_differs :
    (es : EntryList) (oldest other : Str) (entry : LedgerEntry)
    → is_evictable (lookup es oldest) ≡ true
    → lookup es other ≡ some entry
    → is_evictable (some entry) ≡ false
    → text_eq oldest other ≡ false
oldest_differs es oldest other entry h k e = ground (arith, text_eq→eq oldest other)

Recording-pinned :
    (l : BoundedRequestLedger) (id other : Str) (new entry : LedgerEntry)
    (r : BoundedRequestLedger × RecordOutcome)
    → lookup l.entries other ≡ some entry
    → is_evictable (some entry) ≡ false
    → Recording l id new r
    → lookup (r.0.entries) other ≡ some entry
unfolding push_entry
Recording-pinned l id other new entry r h k (is_present p e) = rw e h
Recording-pinned l id other new entry r h k (fits p q e) =
    rw e
      (lookup-insert_entry_other l.entries id other new (differ l.entries id other entry p h) ∙ h)
Recording-pinned l id other new entry r h k (is_full p n q e) = rw e h
Recording-pinned l id other new entry r h k (evicts oldest rest p o q e) = rw e (
    lookup-insert_entry_other _ id other new (differ l.entries id other entry p h)
    ∙ lookup-remove_entry_other l.entries oldest other
        (oldest_differs l.entries oldest other entry o.evictable h k)
    ∙ h)

-- The calls of one session: none of them is the loss of it.
unfoldable pub one_session : List Call → Bool
one_session [] = true
one_session (records id canonical outcome backed ∷ cs) = one_session cs
one_session (invalidates ∷ cs) = false

run-pinned :
    (l : BoundedRequestLedger) (cs : List Call) (id : Str) (entry : LedgerEntry)
    → one_session cs ≡ true
    → lookup l.entries id ≡ some entry
    → is_evictable (some entry) ≡ false
    → lookup (run l cs).entries id ≡ some entry
unfolding run step one_session
run-pinned l [] id entry s h k = h
run-pinned l (records other canonical outcome backed ∷ cs) id entry s h k =
    run-pinned (record_inner l other canonical outcome backed).0 cs id entry s
      (Recording-pinned l other id _ entry _ h k
        (record_inner-Recording l other canonical outcome backed))
      k
run-pinned l (invalidates ∷ cs) id entry s h k = absurd (cc)

pinned_stays : (entry : LedgerEntry) → IsPinned entry → is_evictable (some entry) ≡ false
unfolding is_evictable is_ambiguous
pinned_stays entry ((reason, e), b) = ground arith

-- An ambiguous result without a recovery record that is on record is never forgotten within a
-- session: whatever is recorded after it, the same request stays a duplicate with this result, and
-- another under its id stays in conflict.
pub run-classify_id :
    (l : BoundedRequestLedger) (cs : List Call) (id asked : Str) (entry : LedgerEntry)
    → one_session cs ≡ true
    → lookup l.entries id ≡ some entry
    → IsPinned entry
    → classify_id (run l cs) id asked ≡ replayed entry.canonical entry.outcome asked
unfolding classify_id
run-classify_id l cs id asked entry s h k =
    rw (run-pinned l cs id entry s h (pinned_stays entry k)) refl
