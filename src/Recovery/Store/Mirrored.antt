-- ===== src/Recovery/Store/Mirrored.antt =====
-- What the state file of crates/zonkey-win/src/recovery_store.rs says of the store.
pub mod Opening
pub mod Reopening
use mathlib.Core.List.Memᴰ
use mathlib.Core.List.{Memᴰ}
use zon_key.Prelude.{
  ℕ, zero, suc, ◌≡◌, refl, sym, ap, ◌∙◌, subst, Bool, true, false, ◌||◌, ◌&&◌, not, Option, none,
  some, List, [], ◌∷◌, ◌++◌, length, map, Result, ok, err, Result-cases, Bool-cases, Option-cases,
  inl, inr, ◌⊎◌, if◌then◌else◌, arith, ltb, ◌==◌, All,
}
use zon_key.Text.{Str}
use zon_key.Recovery.Target.{
  PersistedTarget, salted_hash, RecoveryText, BlockedTarget, RecoveryDescriptor,
}
use zon_key.Recovery.Codec.{RecoveryCodecError, encode, decode}
use zon_key.Recovery.Codec.RoundTrip.{IsTyped}
use zon_key.Recovery.Codec.File.{decode-encode}
use zon_key.Recovery.Registry.{
  RecoveryError, RecoveryRegistry, restore, is_blocked, list, restored_target,
}
use zon_key.Recovery.Files.{Files, WriteResults, durable_write_user_only}
use zon_key.Recovery.Files.Replacement.{durable_write_user_only-state}
use zon_key.Recovery.Store.{
  RecoveryStoreError, DurableRecoveryStore, State, text_hash, into_persisted, persisted_intent,
  operator_request_id, snapshot_records, Outcome, commit, write_state, changed_state, gated_state,
  mutate_state,
}

-- A target that the store keeps: one that is blocked, or the one of a pending intent. A blocked one of
-- which only the hash is left is that of each token with the hash.
pub data Keeps (s : DurableRecoveryStore) (uri expected : Str) : Type 0 where
  listed :
      (t : BlockedTarget)
      → Memᴰ t (list s.registry)
      → t.uri ≡ uri
      → text_hash s.salt t.expected ≡ salted_hash s.salt expected
      → Keeps s uri expected
  intended :
      (d : RecoveryDescriptor)
      → Memᴰ d s.pending
      → d.uri ≡ uri
      → d.expected ≡ expected
      → Keeps s uri expected

-- What the types of the source say of the store.
pub record IsTypedStore (s : DurableRecoveryStore) : Type 0 where
  pub salt : length s.salt ≡ 16
  pub records : All IsTyped (snapshot_records (s.registry, s.pending) s.salt)

-- The state file holds a record for the target.
pub record IsOnFile (files : Files) (uri expected : Str) : Type 0 where
  pub bytes : List ℕ
  pub salt : List ℕ
  pub records : List PersistedTarget
  pub target : PersistedTarget
  pub state : files.state ≡ some bytes
  pub decoded : decode bytes ≡ ok (salt, records)
  pub member : Memᴰ target records
  pub same_uri : target.uri ≡ uri
  pub same_hash : target.expected_hash ≡ salted_hash salt expected

-- Each target that the store keeps is on file.
abbrev pub IsMirrored : DurableRecoveryStore → Files → Type 0
IsMirrored s files =
    (uri expected : Str) → IsTypedStore s → Keeps s uri expected → IsOnFile files uri expected

-- The record of a target that the store keeps.
record-Keeps :
    (s : DurableRecoveryStore) (uri expected : Str)
    → Keeps s uri expected
    → (r : PersistedTarget) × Memᴰ r (snapshot_records (s.registry, s.pending) s.salt)
      × (r.uri ≡ uri)
      × (r.expected_hash ≡ salted_hash s.salt expected)
unfolding snapshot_records into_persisted persisted_intent
record-Keeps s uri expected (listed t m u e) = (
  into_persisted s.salt operator_request_id t,
  Memᴰ.append_left _ (Memᴰ.map (into_persisted s.salt operator_request_id) m),
  u,
  e,
)
record-Keeps s uri expected (intended d m u e) = (
  persisted_intent s.salt d,
  Memᴰ.append_right (map (into_persisted s.salt operator_request_id) (list s.registry))
      (Memᴰ.map (persisted_intent s.salt) m),
  u,
  ap (salted_hash s.salt) e,
)

-- A store whose snapshot is the file's contents.
written-IsMirrored :
    (s : DurableRecoveryStore) (files : Files) (bytes : List ℕ)
    → encode s.salt (snapshot_records (s.registry, s.pending) s.salt) ≡ ok bytes
    → files.state ≡ some bytes
    → IsMirrored s files
written-IsMirrored s files bytes e f uri expected typed keeps =
    let (r, m, u, h) = record-Keeps s uri expected keeps in
    record {
      bytes = bytes;
      salt = s.salt;
      records = snapshot_records (s.registry, s.pending) s.salt;
      target = r;
      state = f;
      decoded = decode-encode s.salt _ bytes typed.salt typed.records e;
      member = m;
      same_uri = u;
      same_hash = h;
    }

IsMirrored-state :
    (s : DurableRecoveryStore) (files files' : Files)
    → files'.state ≡ files.state
    → IsMirrored s files
    → IsMirrored s files'
IsMirrored-state s files files' e h uri expected typed keeps =
    let o = h uri expected typed keeps in
    record {
      bytes = o.bytes;
      salt = o.salt;
      records = o.records;
      target = o.target;
      state = e ∙ o.state;
      decoded = o.decoded;
      member = o.member;
      same_uri = o.same_uri;
      same_hash = o.same_hash;
    }

module _ {T : Type 0} where
  commit-IsMirrored :
      (s : DurableRecoveryStore) (files : Files) (next : State) (result : T) (bytes : List ℕ)
      (w : WriteResults) (b : Bool)
      → encode s.salt (snapshot_records next s.salt) ≡ ok bytes
      → (durable_write_user_only w files bytes).1 ≡ b
      → IsMirrored s files
      → let out = commit s next result ((durable_write_user_only w files bytes).0, b) in
        IsMirrored out.0.0 out.0.1
  unfolding commit
  commit-IsMirrored s files (g, ds) result bytes w true e f h =
      written-IsMirrored (record s { registry = g; pending = ds }) _ bytes e
        (durable_write_user_only-state w files bytes
          ∙ ap (λ c. if c then some bytes else files.state) f)
  commit-IsMirrored s files (g, ds) result bytes w false e f h =
      IsMirrored-state s files _
        (durable_write_user_only-state w files bytes
          ∙ ap (λ c. if c then some bytes else files.state) f)
        h

  write_state-IsMirrored :
      (w : WriteResults) (s : DurableRecoveryStore) (files : Files) (next : State) (result : T)
      (r : Result RecoveryCodecError (List ℕ))
      → encode s.salt (snapshot_records next s.salt) ≡ r
      → IsMirrored s files
      → let out = write_state w s files next result r in IsMirrored out.0.0 out.0.1
  unfolding write_state
  write_state-IsMirrored w s files next result (ok bytes) e h =
      commit-IsMirrored s files next result bytes w _ e refl h
  write_state-IsMirrored w s files next result (err x) e h = h

  changed_state-IsMirrored :
      (w : WriteResults) (s : DurableRecoveryStore) (files : Files)
      (r : State × Result RecoveryError T)
      → IsMirrored s files
      → let out = changed_state w s files r in IsMirrored out.0.0 out.0.1
  unfolding changed_state
  changed_state-IsMirrored w s files (next, ok result) h =
      write_state-IsMirrored w s files next result _ refl h
  changed_state-IsMirrored w s files (next, err e) h = h

  gated_state-IsMirrored :
      (w : WriteResults) (s : DurableRecoveryStore) (files : Files)
      (operation : State → State × Result RecoveryError T) (p : Option RecoveryStoreError)
      → IsMirrored s files
      → let out = gated_state w s files operation p in IsMirrored out.0.0 out.0.1
  unfolding gated_state
  gated_state-IsMirrored w s files operation none h = changed_state-IsMirrored w s files _ h
  gated_state-IsMirrored w s files operation (some reason) h = h

  pub mutate_state-IsMirrored :
      (w : WriteResults) (s : DurableRecoveryStore) (files : Files)
      (operation : State → State × Result RecoveryError T)
      → IsMirrored s files
      → let out = mutate_state w s files operation in IsMirrored out.0.0 out.0.1
  unfolding mutate_state
  mutate_state-IsMirrored w s files operation h =
      gated_state-IsMirrored w s files operation s.poison h
