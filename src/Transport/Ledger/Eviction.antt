-- ===== src/Transport/Ledger/Eviction.antt =====
-- What the ledger of crates/zonkey-service/src/transport.rs forgets, and when it refuses.
use zon_key.Prelude.{
  ◌≡◌, ◌⊎◌, subst, ap, ◌∙◌, Bool, true, false, none, some, List, arith, text_eq, text_eq→eq, inl,
  inr,
}
use zon_key.Keyed.{lookup, contains_key, keys, has_id, remove_id}
use zon_key.Keyed.Laws.{
  lookup-none, lookup-some, keys-remove_entry, lookup-insert_entry_other, lookup-remove_entry_other,
  has_id-remove_id_same,
}
use zon_key.Text.{Str}
use zon_key.Transport.Ledger.{
  LedgerOutcome, definite, is_ambiguous, evicted, LedgerEntry, EntryList, BoundedRequestLedger,
  is_evictable, push_entry, record_inner,
}
use zon_key.Transport.Ledger.Entries.{IsOldest, is_ambiguous-cases}
use zon_key.Transport.Ledger.Kept.{
  IsSound, absent, entry_of, without, is_present, fits, is_full, evicts, record_inner-Recording,
}

-- What an entry that may go is.
abbrev pub IsSettled : LedgerEntry → Type 0
IsSettled entry = ((text : Str) × (entry.outcome ≡ definite text)) ⊎ (entry.recovery_backed ≡ true)

lookup-IsSettled :
    (es : EntryList) (id : Str)
    → has_id (keys es) id ≡ true
    → is_evictable (lookup es id) ≡ true
    → (entry : LedgerEntry) × (lookup es id ≡ some entry) × IsSettled entry
unfolding is_evictable is_ambiguous
lookup-IsSettled es id k h =
    let (entry, s) = lookup-some es id k in
    elim (is_ambiguous-cases entry.outcome) [
      | inl (text, d) ↦ (entry, s, inl (text, d))
      | inr (reason, a) ↦ (entry, s, inr (ground arith))
    ]

ids_differ :
    (ids : List Str) (id old : Str)
    → has_id ids id ≡ false
    → has_id ids old ≡ true
    → text_eq id old ≡ false
ids_differ ids id old h k = ground (arith, text_eq→eq id old)

evicted_is_gone :
    (l : BoundedRequestLedger) (id old : Str) (rest : List Str) (entry : LedgerEntry)
    → IsSound l
    → contains_key l.entries id ≡ false
    → IsOldest l.entries l.order old rest
    → lookup (push_entry (without l rest old) id entry).entries old ≡ none
unfolding push_entry
evicted_is_gone l id old rest entry v p o =
    lookup-insert_entry_other _ id old entry (ids_differ l.order id old (absent l id v p) o.present)
    ∙ lookup-none _ old (
        ap (λ ks. has_id ks old)
          (keys-remove_entry l.entries old ∙ ap (λ ks. remove_id ks old) v.same_ids)
        ∙ has_id-remove_id_same l.order old v.distinct)

-- An eviction of a ledger in which the map and the order agree forgets one id only, whose result is
-- definite or backed by a recovery record, and leaves what is on record under each other id but the
-- new one.
pub record_inner-evicted :
    (l : BoundedRequestLedger) (id canonical old other : Str) (outcome : LedgerOutcome)
    (backed : Bool)
    → IsSound l
    → (record_inner l id canonical outcome backed).1 ≡ evicted old
    → text_eq id other ≡ false
    → text_eq old other ≡ false
    → let l' = (record_inner l id canonical outcome backed).0 in
      ((entry : LedgerEntry) × (lookup l.entries old ≡ some entry) × IsSettled entry)
      × (lookup l'.entries old ≡ none)
      × (lookup l'.entries other ≡ lookup l.entries other)
unfolding push_entry
record_inner-evicted l id canonical old other outcome backed v h a b =
    elim (record_inner-Recording l id canonical outcome backed) [
      | is_present p e ↦ absurd (ground arith)
      | fits p q e ↦ absurd (ground arith)
      | is_full p n q e ↦ absurd (ground arith)
      | evicts oldest rest p o q e ↦
          let entry : LedgerEntry = entry_of canonical outcome backed in
          let same : oldest ≡ old = ground arith in
          let o' : IsOldest l.entries l.order old rest =
            subst (λ x. IsOldest l.entries l.order x rest) same o in
          rw (e, same)
            (
              lookup-IsSettled l.entries old (ap (λ ks. has_id ks old) v.same_ids ∙ o'.present)
                  o'.evictable,
              evicted_is_gone l id old rest entry v p o',
              lookup-insert_entry_other _ id other entry a
                  ∙ lookup-remove_entry_other l.entries old other b,
            )
    ]
