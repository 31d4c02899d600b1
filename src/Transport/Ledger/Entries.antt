-- ===== src/Transport/Ledger/Entries.antt =====
-- The map and the order of the ledger of crates/zonkey-service/src/transport.rs.
use zon_key.Prelude.{
  suc, ◌≡◌, ◌⊎◌, refl, ap, true, false, none, some, List, [], ◌∷◌, length, arith, text_eq→eq,
  text_eq_refl, Bool-cases, Option-cases, inl, inr,
}
use zon_key.Text.{Str}
use zon_key.Keyed.{lookup, has_id, remove_id}
use zon_key.Transport.Ledger.{
  LedgerOutcome, definite, ambiguous, is_ambiguous, LedgerEntry, EntryList, is_evictable,
  take_evictable,
}

-- What `take_evictable` finds.
pub record IsOldest (es : EntryList) (ids : List Str) (found : Str) (rest : List Str) : Type 0 where
  pub evictable : is_evictable (lookup es found) ≡ true
  pub removed : rest ≡ remove_id ids found
  pub present : has_id ids found ≡ true
  pub one_less : suc (length rest) ≡ length ids

IsOldest-later :
    (es : EntryList) (id : Str) (ids : List Str) (found : Str) (rest : List Str)
    → is_evictable (lookup es id) ≡ false
    → IsOldest es ids found rest
    → IsOldest es (id ∷ ids) found (id ∷ rest)
unfolding remove_id has_id
IsOldest-later es id ids found rest h v = record {
  evictable = v.evictable;
  removed = ground (arith, text_eq→eq id found, v.removed, v.evictable);
  present = ground (arith, v.present);
  one_less = ap suc v.one_less;
}

pub take_evictable-IsOldest :
    (es : EntryList) (ids : List Str) (found : Str) (rest : List Str)
    → take_evictable es ids ≡ some (found, rest)
    → IsOldest es ids found rest
unfolding take_evictable remove_id has_id
take_evictable-IsOldest es [] found rest h = absurd (cc)
take_evictable-IsOldest es (id ∷ ids) found rest h =
    elim (Bool-cases (is_evictable (lookup es id))) [
      | inl e ↦ record {
        evictable = ground arith;
        removed = ground (arith, text_eq_refl id);
        present = ground (arith, text_eq_refl id);
        one_less = ground arith;
      }
      | inr e ↦ elim (Option-cases (take_evictable es ids)) [
        | inl n ↦ absurd (ground arith)
        | inr ((f, r), s) ↦
            let later = IsOldest-later es id ids f r e (take_evictable-IsOldest es ids f r s) in
            ground (arith, later)
      ]
    ]

-- An ambiguous result that nothing backs.
abbrev pub IsPinned : LedgerEntry → Type 0
IsPinned entry =
    ((reason : Str) × (entry.outcome ≡ ambiguous reason)) × (entry.recovery_backed ≡ false)

pub is_ambiguous-cases :
    (o : LedgerOutcome)
    → ((text : Str) × (o ≡ definite text)) ⊎ ((reason : Str) × (o ≡ ambiguous reason))
is_ambiguous-cases (definite text) = inl (text, refl)
is_ambiguous-cases (ambiguous reason) = inr (reason, refl)

pub lookup-IsPinned :
    (es : EntryList) (id : Str)
    → is_evictable (lookup es id) ≡ false
    → (entry : LedgerEntry) × (lookup es id ≡ some entry) × IsPinned entry
unfolding is_evictable is_ambiguous
lookup-IsPinned es id h = elim (Option-cases (lookup es id)) [
  | inl n ↦ absurd (ground arith)
  | inr (entry, s) ↦ elim (is_ambiguous-cases entry.outcome) [
    | inl (text, d) ↦ absurd (ground arith)
    | inr (reason, a) ↦ (entry, s, ((reason, a), ground arith))
  ]
]

pub take_evictable-none :
    (es : EntryList) (ids : List Str) (id : Str)
    → take_evictable es ids ≡ none
    → has_id ids id ≡ true
    → is_evictable (lookup es id) ≡ false
unfolding take_evictable has_id
take_evictable-none es [] id h k = absurd (cc)
take_evictable-none es (x ∷ ids) id h k = elim (Bool-cases (is_evictable (lookup es x))) [
  | inl e ↦ absurd (ground arith)
  | inr e ↦ elim (Option-cases (take_evictable es ids)) [
    | inl n ↦ ground (arith, text_eq→eq x id, take_evictable-none es ids id n)
    | inr (f, s) ↦ absurd (ground arith)
  ]
]
