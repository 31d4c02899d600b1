-- ===== src/Transport/Ledger/Kept.antt =====
-- What the ledger of crates/zonkey-service/src/transport.rs keeps over its calls.
use zon_key.Prelude.{
  ◌≤◌, ◌<◌, ◌≡◌, refl, sym, ap, ◌∙◌, Bool, true, false, none, List, [], ◌∷◌, ◌++◌, length,
  length-append, arith, Bool-cases, Option-cases, inl, inr, ltb,
}
use zon_key.Keyed.{contains_key, remove_entry, keys, has_id, remove_id, all_distinct}
use zon_key.Keyed.Laws.{
  contains_key-keys, keys-insert_entry, keys-remove_entry, has_id-remove_id, all_distinct-remove_id,
  all_distinct-snoc,
}
use zon_key.Text.{Str}
use zon_key.Transport.Ledger.{
  LedgerOutcome, RecordOutcome, inserted, evicted, already_present, rejected_ledger_full,
  LedgerEntry, BoundedRequestLedger, take_evictable, push_entry, record_full, record_inner,
  invalidate_all,
}
use zon_key.Transport.Ledger.Entries.{IsOldest, take_evictable-IsOldest}

-- The map and the order hold the same ids, each once, and no more than the capacity.
pub record IsSound (l : BoundedRequestLedger) : Type 0 where
  pub same_ids : keys l.entries ≡ l.order
  pub distinct : all_distinct l.order ≡ true
  pub bounded : length l.order ≤ l.capacity
  pub room : 0 < l.capacity

abbrev pub entry_of : Str → LedgerOutcome → Bool → LedgerEntry
entry_of canonical outcome backed = record {
  canonical = canonical;
  outcome = outcome;
  recovery_backed = backed;
}

-- The ledger without one id.
abbrev pub without : BoundedRequestLedger → List Str → Str → BoundedRequestLedger
without l rest oldest = record l { order = rest; entries = remove_entry l.entries oldest }

-- What a call of `record_inner` does.
pub data Recording (l : BoundedRequestLedger) (id : Str) (entry : LedgerEntry)
    (r : BoundedRequestLedger × RecordOutcome) : Type 0 where
  is_present : contains_key l.entries id ≡ true → r ≡ (l, already_present) → Recording l id entry r
  fits :
      contains_key l.entries id ≡ false
      → length l.order < l.capacity
      → r ≡ (push_entry l id entry, inserted)
      → Recording l id entry r
  is_full :
      contains_key l.entries id ≡ false
      → take_evictable l.entries l.order ≡ none
      → l.capacity ≤ length l.order
      → r ≡ (l, rejected_ledger_full)
      → Recording l id entry r
  evicts :
      (oldest : Str) (rest : List Str)
      → contains_key l.entries id ≡ false
      → IsOldest l.entries l.order oldest rest
      → l.capacity ≤ length l.order
      → r ≡ (push_entry (without l rest oldest) id entry, evicted oldest)
      → Recording l id entry r

pub record_inner-Recording :
    (l : BoundedRequestLedger) (id canonical : Str) (outcome : LedgerOutcome) (backed : Bool)
    → Recording l id
        (entry_of canonical outcome backed)
        (record_inner l id canonical outcome backed)
unfolding record_inner record_full
record_inner-Recording l id canonical outcome backed =
    elim (Bool-cases (contains_key l.entries id)) [
      | inl p ↦ is_present p (ground arith)
      | inr p ↦ elim (Bool-cases (ltb (length l.order) l.capacity)) [
        | inl q ↦ fits p (ground arith) (ground arith)
        | inr q ↦ elim (Option-cases (take_evictable l.entries l.order)) [
          | inl n ↦ is_full p n (ground arith) (ground arith)
          | inr ((oldest, rest), s) ↦
              evicts oldest rest p (take_evictable-IsOldest l.entries l.order oldest rest s)
                (ground arith) (rw (p, q, s, record_full) refl)
        ]
      ]
    ]

push_entry-IsSound :
    (l : BoundedRequestLedger) (id : Str) (entry : LedgerEntry)
    → IsSound l
    → has_id l.order id ≡ false
    → length l.order < l.capacity
    → IsSound (push_entry l id entry)
unfolding push_entry
push_entry-IsSound l id entry v h k = record {
  same_ids =
      keys-insert_entry l.entries id entry (ap (λ ks. has_id ks id) v.same_ids ∙ h)
      ∙ ap (λ ks. ks ++ id ∷ []) v.same_ids;
  distinct = all_distinct-snoc l.order id v.distinct h;
  bounded = omega (arith, length-append l.order (id ∷ []));
  room = v.room;
}

without-IsSound :
    (l : BoundedRequestLedger) (rest : List Str) (oldest : Str)
    → IsSound l
    → IsOldest l.entries l.order oldest rest
    → IsSound (without l rest oldest)
without-IsSound l rest oldest v o = record {
  same_ids =
      keys-remove_entry l.entries oldest
      ∙ ap (λ ks. remove_id ks oldest) v.same_ids
      ∙ sym o.removed;
  distinct = ap all_distinct o.removed ∙ all_distinct-remove_id l.order oldest v.distinct;
  bounded = omega (arith, o.one_less, v.bounded);
  room = v.room;
}

pub absent :
    (l : BoundedRequestLedger) (id : Str)
    → IsSound l
    → contains_key l.entries id ≡ false
    → has_id l.order id ≡ false
absent l id v h =
    ap (λ ks. has_id ks id) (sym v.same_ids) ∙ sym (contains_key-keys l.entries id) ∙ h

Recording-IsSound :
    (l : BoundedRequestLedger) (id : Str) (entry : LedgerEntry)
    (r : BoundedRequestLedger × RecordOutcome)
    → IsSound l
    → Recording l id entry r
    → IsSound r.0
Recording-IsSound l id entry r v (is_present p e) = rw e v
Recording-IsSound l id entry r v (fits p q e) =
    rw e (push_entry-IsSound l id entry v (absent l id v p) q)
Recording-IsSound l id entry r v (is_full p n q e) = rw e v
Recording-IsSound l id entry r v (evicts oldest rest p o q e) = rw e (
    push_entry-IsSound (without l rest oldest) id entry (without-IsSound l rest oldest v o)
      (ap (λ ks. has_id ks id) o.removed ∙ has_id-remove_id l.order oldest id (absent l id v p))
      (omega (arith, o.one_less, v.bounded)))

-- A call of the ledger that records, with or without a recovery record, or the loss of the session.
pub data Call : Type 0 where
  records : Str → Str → LedgerOutcome → Bool → Call
  invalidates : Call

unfoldable pub step : BoundedRequestLedger → Call → BoundedRequestLedger
step l (records id canonical outcome backed) = (record_inner l id canonical outcome backed).0
step l invalidates = invalidate_all l

unfoldable pub run : BoundedRequestLedger → List Call → BoundedRequestLedger
run l [] = l
run l (c ∷ cs) = run (step l c) cs

step-IsSound : (l : BoundedRequestLedger) (c : Call) → IsSound l → IsSound (step l c)
unfolding step invalidate_all keys all_distinct
step-IsSound l (records id canonical outcome backed) v =
    Recording-IsSound l id _ _ v (record_inner-Recording l id canonical outcome backed)
step-IsSound l invalidates v = record {
  same_ids = refl;
  distinct = refl;
  bounded = omega arith;
  room = v.room;
}

-- Whatever the calls, the map and the order of the ledger hold the same ids, each once, and never
-- more than the capacity, if this was so at the start.
pub run-IsSound : (l : BoundedRequestLedger) (cs : List Call) → IsSound l → IsSound (run l cs)
unfolding run
run-IsSound l [] v = v
run-IsSound l (c ∷ cs) v = run-IsSound (step l c) cs (step-IsSound l c v)
