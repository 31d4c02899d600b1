-- ===== src/Recovery/Store/Restored.antt =====
-- What a store that crates/zonkey-win/src/recovery_store.rs opens on a file's records blocks and lists.
use mathlib.Core.List.Memᴰ
use mathlib.Core.List.{Memᴰ}
use zon_key.Prelude.{
  ℕ, ◌≡◌, refl, sym, ap, ◌∙◌, subst, true, ◌||◌, none, some, List, [], ◌∷◌, ok, Bool-cases,
  Option-cases, inl, inr, ◌⊎◌, text_eq, text_eq→eq, text_eq_refl, arith,
}
use zon_key.Text.{Str}
use zon_key.Keyed.{Keyed, lookup, contains_key}
use zon_key.Keyed.Laws.{contains_key-insert_entry, lookup-insert_entry, lookup-insert_entry_other}
use zon_key.Recovery.Target.{PersistedTarget, salted_hash, BlockedTarget, hex}
use zon_key.Recovery.Registry.{
  RecoveryRegistry, key, restored_target, restore_record, restore_records, restore, hash_key,
  resolve_key, is_blocked, targets_of, list,
}

salt-restore_records :
    (g : RecoveryRegistry) (rs : List PersistedTarget) → (restore_records g rs).salt ≡ g.salt
unfolding restore_records restore_record
salt-restore_records g [] = refl
salt-restore_records g (r ∷ rs) = salt-restore_records (restore_record g r) rs

contains_key-restore_record :
    (g : RecoveryRegistry) (r : PersistedTarget) (k : Str)
    → contains_key (restore_record g r).entries k
      ≡ (text_eq (key r.uri (hex r.expected_hash)) k || contains_key g.entries k)
unfolding restore_record
contains_key-restore_record g r k =
    contains_key-insert_entry g.entries (key r.uri (hex r.expected_hash)) k (restored_target r)

contains_key-restore_records_kept :
    (g : RecoveryRegistry) (rs : List PersistedTarget) (k : Str)
    → contains_key g.entries k ≡ true
    → contains_key (restore_records g rs).entries k ≡ true
unfolding restore_records
contains_key-restore_records_kept g [] k h = h
contains_key-restore_records_kept g (r ∷ rs) k h =
    contains_key-restore_records_kept (restore_record g r) rs k
      (ground (arith, contains_key-restore_record g r k))

contains_key-restore_records :
    (g : RecoveryRegistry) {r : PersistedTarget} (rs : List PersistedTarget)
    → Memᴰ r rs
    → contains_key (restore_records g rs).entries (key r.uri (hex r.expected_hash)) ≡ true
unfolding restore_records
contains_key-restore_records g [] m = elim m [ ]
contains_key-restore_records g {r} (x ∷ rs) (Memᴰ.head e) =
    subst
      (λ y.
        contains_key (restore_records (restore_record g x) rs).entries
          (key y.uri (hex y.expected_hash))
        ≡ true)
      (sym e)
      (contains_key-restore_records_kept (restore_record g x) rs _ (
        contains_key-restore_record g x _
        ∙ ground (arith, text_eq_refl (key x.uri (hex x.expected_hash)))))
contains_key-restore_records g (x ∷ rs) (Memᴰ.tail m) =
    contains_key-restore_records (restore_record g x) rs m

-- What an entry of a registry came from.
entry-restore_records :
    (g : RecoveryRegistry) (rs : List PersistedTarget) (k : Str) (t : BlockedTarget)
    → lookup (restore_records g rs).entries k ≡ some t
    → ((r : PersistedTarget) × Memᴰ r rs × (t ≡ restored_target r)) ⊎ (lookup g.entries k ≡ some t)
unfolding restore_records restore_record
entry-restore_records g [] k t h = inr h
entry-restore_records g (r ∷ rs) k t h =
    elim (entry-restore_records (restore_record g r) rs k t h) [
      | inl (x, m, e) ↦ inl (x, Memᴰ.tail m, e)
      | inr e ↦ elim (Bool-cases (text_eq (key r.uri (hex r.expected_hash)) k)) [
        | inl q ↦ inl (
          r,
          Memᴰ.head refl,
          ground (
            arith,
            e,
            text_eq→eq (key r.uri (hex r.expected_hash)) k q,
            lookup-insert_entry g.entries (key r.uri (hex r.expected_hash)) (restored_target r),
          ),
        )
        | inr q ↦ inr (sym (lookup-insert_entry_other g.entries _ k (restored_target r) q) ∙ e)
      ]
    ]

pub entry-targets_of :
    (ks : List Str) (es : Keyed BlockedTarget) {t : BlockedTarget}
    → Memᴰ t (targets_of ks es)
    → (k : Str) × (lookup es k ≡ some t)
unfolding targets_of
entry-targets_of [] es m = absurd (Memᴰ.not-nil m)
entry-targets_of (k ∷ ks) es {t} m = elim (Option-cases (lookup es k)) [
  | inl e ↦ entry-targets_of ks es (
      subst
        (λ o. Memᴰ t (elim o as (λ _. List BlockedTarget) [
          | none ↦ targets_of ks es
          | some x ↦ x ∷ targets_of ks es
        ]))
        e m)
  | inr (x, e) ↦
      elim (Memᴰ.cases_cons (
        subst
          (λ o. Memᴰ t (elim o as (λ _. List BlockedTarget) [
            | none ↦ targets_of ks es
            | some y ↦ y ∷ targets_of ks es
          ]))
          e m)) [ inl q ↦ (k, e ∙ ap some (sym q)) | inr n ↦ entry-targets_of ks es n ]
]

-- What `restore` makes, where it succeeds.
module _ (capacity : ℕ) (salt : List ℕ) (records : List PersistedTarget) (g : RecoveryRegistry)
    (h : restore capacity salt records ≡ ok g) where
  abbrev empty : RecoveryRegistry
  empty = record { capacity = capacity; order = []; entries = []; salt = some salt }

  restored : g ≡ restore_records empty records
  unfolding restore
  restored = ground arith

  -- A record's target is blocked, for each token with the record's hash.
  pub restore-is_blocked :
      (r : PersistedTarget) (expected : Str)
      → Memᴰ r records
      → r.expected_hash ≡ salted_hash salt expected
      → is_blocked g r.uri expected ≡ true
  unfolding is_blocked resolve_key hash_key
  restore-is_blocked r expected m e =
      rw (restored, salt-restore_records empty records, ← e)
        (ground (arith, contains_key-restore_records empty records m))

  -- A target that is listed came from a record.
  pub list-restore :
      {t : BlockedTarget}
      → Memᴰ t (list g)
      → (r : PersistedTarget) × Memᴰ r records × (t ≡ restored_target r)
  unfolding list lookup
  list-restore {t} m =
      let (k, e) = entry-targets_of g.order g.entries m in
      elim (entry-restore_records empty records k t
        (ap (λ x. lookup x.entries k) (sym restored) ∙ e)) [
          | inl r ↦ r
          | inr n ↦ absurd (ground arith)
        ]
