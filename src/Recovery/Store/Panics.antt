-- ===== src/Recovery/Store/Panics.antt =====
-- Where opening a store of crates/zonkey-win/src/recovery_store.rs panics.
use zon_key.Prelude.{
  ℕ, ltb, Bool-cases, ◌≡◌, ◌≢◌, refl, sym, ◌∙◌, true, Option, none, some, List, length, Result, ok,
  err, Option-cases, inl, inr, ◌↔◌, arith,
}
use zon_key.Transport.Ledger.{LedgerCapacityError}
use zon_key.Recovery.Target.{PersistedTarget}
use zon_key.Recovery.Codec.{RecoveryCodecError, max_recovery_state_bytes}
use zon_key.Recovery.Registry.{RecoveryRegistry, new_registry}
use zon_key.Recovery.Files.{Files, WriteResults}
use zon_key.Recovery.Store.{
  RecoveryStoreError, DurableRecoveryStore, OpenResults, ensure_directory, fresh_salt, create_store,
  open_in, unavailable, expect_registry, poisoned, fresh_store, with_files, restored_store,
  decoded_store, load_store, read_store,
}

poisoned-some :
    (capacity : ℕ) (reason : RecoveryStoreError)
    → (s : DurableRecoveryStore) × (poisoned capacity reason ≡ some s)
unfolding poisoned expect_registry new_registry
poisoned-some capacity reason = elim (Option-cases (poisoned capacity reason)) [
  | inl h ↦ absurd (ground arith)
  | inr p ↦ p
]

restored_store-some :
    (capacity : ℕ) (salt : List ℕ) (r : Result LedgerCapacityError RecoveryRegistry)
    → (s : DurableRecoveryStore) × (restored_store capacity salt r ≡ some s)
unfolding restored_store
restored_store-some capacity salt (err e) = poisoned-some capacity _
restored_store-some capacity salt (ok g) = (_, refl)

decoded_store-some :
    (capacity : ℕ) (r : Result RecoveryCodecError (List ℕ × List PersistedTarget))
    → (s : DurableRecoveryStore) × (decoded_store capacity r ≡ some s)
unfolding decoded_store
decoded_store-some capacity (err e) = poisoned-some capacity _
decoded_store-some capacity (ok (salt, records)) = restored_store-some capacity salt _

load_store-some :
    (capacity : ℕ) (bytes : List ℕ)
    → (s : DurableRecoveryStore) × (load_store capacity bytes ≡ some s)
unfolding load_store
load_store-some capacity bytes = elim (Bool-cases (ltb max_recovery_state_bytes (length bytes))) [
  | inl p ↦ rw p (poisoned-some capacity _)
  | inr p ↦ rw p (decoded_store-some capacity _)
]

-- A read file, or a directory that is not there, gives a store.
with_files-none :
    (files : Files) (o : Option DurableRecoveryStore)
    → (s : DurableRecoveryStore) × (o ≡ some s)
    → with_files files o ≢ none
unfolding with_files
with_files-none files none (s, e) = absurd (cc)
with_files-none files (some x) (s, e) = λ h. cc

create_store-none_iff :
    (w : WriteResults) (files : Files) (capacity : ℕ) (random : Option (List ℕ))
    → (create_store w files capacity random ≡ none) ↔ ((random ≢ none) × (capacity ≡ 0))
unfolding create_store fresh_store expect_registry new_registry
create_store-none_iff w files capacity none = (
  λ h. absurd (with_files-none files _ (poisoned-some capacity unavailable) h),
  λ (n, z). absurd (n refl),
)
create_store-none_iff w files capacity (some salt) =
    (λ h. (λ e. cc, ground (arith, h)), λ (n, z). ground (arith, z))

read_store-none_iff :
    (o : OpenResults) (w : WriteResults) (files : Files) (capacity : ℕ) (read : Option (List ℕ))
    → (read_store o w files capacity read ≡ none)
      ↔ ((read ≡ none) × (fresh_salt o.random ≢ none) × (capacity ≡ 0))
unfolding read_store
read_store-none_iff o w files capacity none =
    let (there, back) = create_store-none_iff w files capacity (fresh_salt o.random) in
    (λ h. (refl, (there h).0, (there h).1), λ (q, n, z). back (n, z))
read_store-none_iff o w files capacity (some bytes) = (
  λ h. absurd (with_files-none files _ (load_store-some capacity bytes) h),
  λ (q, n, z). absurd (ground (arith, q)),
)

-- One of the calls of expect that opening a store makes panics exactly where the directory is
-- there, no file can be read, random bytes can be had, and the capacity is zero.
pub open_in-none_iff :
    (o : OpenResults) (w : WriteResults) (files : Files) (capacity : ℕ)
    → (open_in o w files capacity ≡ none) ↔ (
        (ensure_directory o ≡ true)
        × (o.read ≡ none)
        × (fresh_salt o.random ≢ none)
        × (capacity ≡ 0))
unfolding open_in
open_in-none_iff o w files capacity = elim (Bool-cases (ensure_directory o)) [
  | inr p ↦
      let e : open_in o w files capacity ≡ with_files files (poisoned capacity unavailable) =
        ground (arith, p) in
      (
        λ h. absurd (with_files-none files _ (poisoned-some capacity unavailable) (sym e ∙ h)),
        λ (d, q, n, z). absurd (ground (arith, p, d)),
      )
  | inl p ↦
      let e : open_in o w files capacity ≡ read_store o w files capacity o.read =
        ground (arith, p) in
      let (there, back) = read_store-none_iff o w files capacity o.read in
      (λ h. let (q, n, z) = there (sym e ∙ h) in (p, q, n, z), λ (d, q, n, z). e ∙ back (q, n, z))
]
