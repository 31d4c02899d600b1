-- ===== src/Recovery/Store/Mirrored/Opening.antt =====
-- How crates/zonkey-win/src/recovery_store.rs opens a store on what is read of its file.
use mathlib.Core.List.Memᴰ
use mathlib.Core.List.{Memᴰ}
use zon_key.Prelude.{
  ℕ, ◌≡◌, refl, sym, ap, ◌∙◌, subst, Bool, true, false, Option, none, some, List, [], length,
  Result, ok, err, Bool-cases, Option-cases, inl, inr, arith, ltb,
}
use zon_key.Text.{Str}
use zon_key.Transport.Ledger.{LedgerCapacityError}
use zon_key.Recovery.Target.{PersistedTarget, BlockedTarget}
use zon_key.Recovery.Codec.{
  RecoveryCodecError, oversized_file, encode, decode, max_recovery_state_bytes,
}
use zon_key.Recovery.Registry.{
  RecoveryRegistry, new_registry, restore, is_blocked, list, targets_of, restored_target,
}
use zon_key.Recovery.Files.{Files, WriteResults}
use zon_key.Recovery.Store.{
  RecoveryStoreError, unavailable, state_unreadable, DurableRecoveryStore, OpenResults,
  ensure_directory, expect_registry, with_files, read_store, written_store, write_empty, poisoned,
  fresh_salt, fresh_store, create_store, restored_store, decoded_store, load_store, open_in,
  text_hash,
}
use zon_key.Recovery.Store.Calls.{target_blocked}
use zon_key.Recovery.Store.Restored.{restore-is_blocked, list-restore}
use zon_key.Recovery.Store.Mirrored.{Keeps, listed, intended, IsOnFile, IsMirrored}

-- A store that keeps nothing.
empty-Keeps :
    (s : DurableRecoveryStore) (uri expected : Str)
    → list s.registry ≡ []
    → s.pending ≡ []
    → Keeps s uri expected
    → ⊥
empty-Keeps s uri expected e f (listed t m u h) = Memᴰ.not-nil (subst (λ ts. Memᴰ t ts) e m)
empty-Keeps s uri expected e f (intended d m u h) = Memᴰ.not-nil (subst (λ ts. Memᴰ d ts) f m)

some-injective {ℓ} : {A : Type ℓ} (x y : A) → some x ≡ some y → x ≡ y
some-injective x y e = cc

with_files-some :
    (files files' : Files) (o : Option DurableRecoveryStore) (s : DurableRecoveryStore)
    → with_files files o ≡ some (s, files')
    → (o ≡ some s) × (files' ≡ files)
unfolding with_files
with_files-some files files' none s h = absurd (cc)
with_files-some files files' (some x) s h = (
  ap (λ p. some p.0) (some-injective (x, files) (s, files') h),
  ap (λ p. p.1) (sym (some-injective (x, files) (s, files') h)),
)

-- The poisoned store keeps nothing of its own, but it blocks every target.
poisoned_lem :
    (capacity : ℕ) (reason : RecoveryStoreError) (s : DurableRecoveryStore)
    → poisoned capacity reason ≡ some s
    → (list s.registry ≡ []) × (s.pending ≡ []) × (s.poison ≡ some reason)
unfolding poisoned expect_registry new_registry list targets_of
poisoned_lem capacity reason s h = (ground (arith, h), ground (arith, h), ground (arith, h))

poisoned-IsMirrored :
    (capacity : ℕ) (reason : RecoveryStoreError) (files : Files) (s : DurableRecoveryStore)
    → poisoned capacity reason ≡ some s
    → IsMirrored s files
poisoned-IsMirrored capacity reason files s h uri expected typed keeps =
    let p = poisoned_lem capacity reason s h in absurd (empty-Keeps s uri expected p.0 p.1 keeps)

restored-IsMirrored :
    (capacity : ℕ) (salt : List ℕ) (records : List PersistedTarget) (files : Files) (bytes : List ℕ)
    (g : RecoveryRegistry)
    → restore capacity salt records ≡ ok g
    → files.state ≡ some bytes
    → decode bytes ≡ ok (salt, records)
    → IsMirrored (record { registry = g; pending = []; salt = salt; poison = none }) files
unfolding restored_target text_hash
restored-IsMirrored capacity salt records files bytes g h f d uri expected typed (listed t m u e) =
    let (r, n, same) = list-restore capacity salt records g h m in
    record {
      bytes = bytes;
      salt = salt;
      records = records;
      target = r;
      state = f;
      decoded = d;
      member = n;
      same_uri = ap BlockedTarget.uri (sym same) ∙ u;
      same_hash = ap (λ x. text_hash salt x.expected) (sym same) ∙ e;
    }
restored-IsMirrored capacity salt records files bytes g h f d uri expected typed
      (intended x m u e) =
    absurd (Memᴰ.not-nil m)

restored_store-IsMirrored :
    (capacity : ℕ) (salt : List ℕ) (records : List PersistedTarget) (files : Files) (bytes : List ℕ)
    (r : Result LedgerCapacityError RecoveryRegistry) (s : DurableRecoveryStore)
    → restore capacity salt records ≡ r
    → files.state ≡ some bytes
    → decode bytes ≡ ok (salt, records)
    → restored_store capacity salt r ≡ some s
    → IsMirrored s files
unfolding restored_store
restored_store-IsMirrored capacity salt records files bytes (err e) s h f d k =
    poisoned-IsMirrored capacity _ files s k
restored_store-IsMirrored capacity salt records files bytes (ok g) s h f d k =
    subst (λ x. IsMirrored x files) (some-injective _ s k)
      (restored-IsMirrored capacity salt records files bytes g h f d)

decoded_store-IsMirrored :
    (capacity : ℕ) (files : Files) (bytes : List ℕ)
    (r : Result RecoveryCodecError (List ℕ × List PersistedTarget)) (s : DurableRecoveryStore)
    → decode bytes ≡ r
    → files.state ≡ some bytes
    → decoded_store capacity r ≡ some s
    → IsMirrored s files
unfolding decoded_store
decoded_store-IsMirrored capacity files bytes (err e) s d f k =
    poisoned-IsMirrored capacity _ files s k
decoded_store-IsMirrored capacity files bytes (ok (salt, records)) s d f k =
    restored_store-IsMirrored capacity salt records files bytes _ s refl f d k

load_store-IsMirrored :
    (capacity : ℕ) (files : Files) (bytes : List ℕ) (s : DurableRecoveryStore)
    → files.state ≡ some bytes
    → load_store capacity bytes ≡ some s
    → IsMirrored s files
unfolding load_store
load_store-IsMirrored capacity files bytes s f k =
    elim (Bool-cases (ltb max_recovery_state_bytes (length bytes))) [
      | inl p ↦
          poisoned-IsMirrored capacity (state_unreadable oversized_file) files s
            (ground (arith, p, k))
      | inr p ↦
          let e : decoded_store capacity (decode bytes) ≡ some s = ground (arith, p, k) in
          decoded_store-IsMirrored capacity files bytes (decode bytes) s refl f e
    ]

fresh_store_lem :
    (capacity : ℕ) (salt : List ℕ) (s : DurableRecoveryStore)
    → fresh_store capacity salt ≡ some s
    → (list s.registry ≡ []) × (s.pending ≡ [])
unfolding fresh_store expect_registry new_registry list targets_of
fresh_store_lem capacity salt s h = (ground (arith, h), ground (arith, h))

written_store-IsMirrored :
    (s : DurableRecoveryStore) (files : Files × Bool)
    → (list s.registry ≡ []) × (s.pending ≡ [])
    → let p = written_store s files in IsMirrored p.0 p.1
unfolding written_store
written_store-IsMirrored s (files, written) (e, f) uri expected typed keeps =
    absurd (empty-Keeps _ uri expected e f keeps)

create_store-IsMirrored :
    (w : WriteResults) (files : Files) (capacity : ℕ) (random : Option (List ℕ))
    (s : DurableRecoveryStore) (files' : Files)
    → create_store w files capacity random ≡ some (s, files')
    → IsMirrored s files'
unfolding create_store
create_store-IsMirrored w files capacity none s files' h =
    poisoned-IsMirrored capacity unavailable files' s (with_files-some files files' _ s h).0
create_store-IsMirrored w files capacity (some salt) s files' h =
    elim (Option-cases (fresh_store capacity salt)) [
      | inl q ↦ absurd (ground (arith, q, h))
      | inr (x, q) ↦
          let written = write_empty w files salt (encode salt []) in
          let e : some (written_store x written) ≡ some (s, files') = ground (arith, q, h) in
          subst (λ p. IsMirrored p.0 p.1) (some-injective _ (s, files') e)
            (written_store-IsMirrored x written (fresh_store_lem capacity salt x q))
    ]

poisoned-target_blocked :
    (capacity : ℕ) (reason : RecoveryStoreError) (s : DurableRecoveryStore) (uri expected : Str)
    → poisoned capacity reason ≡ some s
    → target_blocked s uri expected ≡ true
unfolding target_blocked
poisoned-target_blocked capacity reason s uri expected h =
    let p = poisoned_lem capacity reason s h in rw p.2 refl

restored_store-target_blocked :
    (capacity : ℕ) (files : Files) (uri expected : Str) (f : IsOnFile files uri expected)
    (r : Result LedgerCapacityError RecoveryRegistry) (s : DurableRecoveryStore)
    → restore capacity f.salt f.records ≡ r
    → restored_store capacity f.salt r ≡ some s
    → target_blocked s uri expected ≡ true
unfolding restored_store target_blocked
restored_store-target_blocked capacity files uri expected f (err e) s h k =
    poisoned-target_blocked capacity _ s uri expected k
restored_store-target_blocked capacity files uri expected f (ok g) s h k =
    subst (λ x. target_blocked x uri expected ≡ true) (some-injective _ s k)
      (subst (λ u. is_blocked g u expected ≡ true) f.same_uri
        (restore-is_blocked capacity f.salt f.records g h f.target expected f.member f.same_hash))

load_store-target_blocked :
    (capacity : ℕ) (files : Files) (uri expected : Str) (f : IsOnFile files uri expected)
    (s : DurableRecoveryStore)
    → load_store capacity f.bytes ≡ some s
    → target_blocked s uri expected ≡ true
unfolding load_store decoded_store
load_store-target_blocked capacity files uri expected f s k =
    elim (Bool-cases (ltb max_recovery_state_bytes (length f.bytes))) [
      | inl p ↦
          poisoned-target_blocked capacity (state_unreadable oversized_file) s uri expected
            (ground (arith, p, k))
      | inr p ↦
          let r = restore capacity f.salt f.records in
          let e : restored_store capacity f.salt r ≡ some s = ground (arith, p, f.decoded, k) in
          restored_store-target_blocked capacity files uri expected f r s refl e
    ]

-- A store that has been opened on what is read of the state file.
module _ (o : OpenResults) (w : WriteResults) (files : Files) (capacity : ℕ)
    (s : DurableRecoveryStore) (files' : Files)
    (opens : open_in o w files capacity ≡ some (s, files')) (reads : o.read ≡ files.state) where
  loaded_store :
      (bytes : List ℕ)
      → ensure_directory o ≡ true
      → o.read ≡ some bytes
      → (load_store capacity bytes ≡ some s) × (files' ≡ files)
  unfolding open_in read_store
  loaded_store bytes p q =
      with_files-some files files' (load_store capacity bytes) s (ground (arith, p, q, opens))

  poisoned_store : ensure_directory o ≡ false → poisoned capacity unavailable ≡ some s
  unfolding open_in
  poisoned_store p =
      (with_files-some files files' (poisoned capacity unavailable) s (ground (arith, p, opens))).0

  pub open_in-IsMirrored : IsMirrored s files'
  unfolding open_in read_store
  open_in-IsMirrored = elim (Bool-cases (ensure_directory o)) [
    | inl p ↦ elim (Option-cases o.read) [
      | inl q ↦
          create_store-IsMirrored w files capacity (fresh_salt o.random) s files'
            (ground (arith, p, q, opens))
      | inr (bytes, q) ↦
          let e = loaded_store bytes p q in
          load_store-IsMirrored capacity files' bytes s (ap Files.state e.1 ∙ (sym reads ∙ q)) e.0
    ]
    | inr p ↦ poisoned-IsMirrored capacity unavailable files' s (poisoned_store p)
  ]

  -- A target that is on file is blocked.
  pub open_in-target_blocked :
      (uri expected : Str) → IsOnFile files uri expected → target_blocked s uri expected ≡ true
  open_in-target_blocked uri expected f = elim (Bool-cases (ensure_directory o)) [
    | inl p ↦
        load_store-target_blocked capacity files uri expected f s
          (loaded_store f.bytes p (reads ∙ f.state)).0
    | inr p ↦ poisoned-target_blocked capacity unavailable s uri expected (poisoned_store p)
  ]
