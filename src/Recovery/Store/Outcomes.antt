-- ===== src/Recovery/Store/Outcomes.antt =====
-- What a call of crates/zonkey-win/src/recovery_store.rs leaves, as it succeeds or fails.
use zon_key.Prelude.{
  ℕ, ◌≡◌, refl, sym, ap, ◌∙◌, subst, Bool, true, false, Option, none, some, List, length, Result,
  ok, err, inl, inr, ◌⊎◌, if◌then◌else◌, arith, text_eq_refl,
}
use zon_key.Text.{Str}
use zon_key.Keyed.{contains_key}
use zon_key.Keyed.Laws.{contains_key-insert_entry}
use zon_key.Recovery.Target.{BlockedTarget, RecoveryDescriptor}
use zon_key.Recovery.Codec.{RecoveryCodecError, encode}
use zon_key.Recovery.Registry.{
  RecoveryError, RecoveryRegistry, resolve_key, is_blocked, put, fresh_target, block_key, block,
}
use zon_key.Recovery.Files.{Files, WriteResults, durable_write_user_only}
use zon_key.Recovery.Files.Replacement.{durable_write_user_only-state}
use zon_key.Recovery.Store.{
  RecoveryStoreError, write_failed, DurableRecoveryStore, State, snapshot_records, Outcome, commit,
  write_state, changed_state, gated_state, mutate_state,
}
use zon_key.Recovery.Store.Calls.{
  target_blocked, take_request, blocked_ok, promote_found, promote_request, promote_pending,
}

module _ {T : Type 0} where
  -- A failed call: an error, and the same store and state file.
  pub record IsRefused (s : DurableRecoveryStore) (files : Files) (out : Outcome T) : Type 0 where
    pub reason : RecoveryStoreError
    pub result : out.1 ≡ err reason
    pub same_store : out.0.0 ≡ s
    pub same_file : out.0.1.state ≡ files.state

  -- A call that did what the operation does, and left a file with just that state.
  pub record IsCommitted (s : DurableRecoveryStore) (change : State × Result RecoveryError T)
      (out : Outcome T) : Type 0 where
    pub value : T
    pub bytes : List ℕ
    pub usable : s.poison ≡ none
    pub operation : change.1 ≡ ok value
    pub result : out.1 ≡ ok value
    pub store : out.0.0 ≡ record s { registry = change.0.0; pending = change.0.1 }
    pub encoded : encode s.salt (snapshot_records change.0 s.salt) ≡ ok bytes
    pub written : out.0.1.state ≡ some bytes

  commit-outcome :
      (w : WriteResults) (s : DurableRecoveryStore) (files : Files) (next : State) (v : T)
      (bytes : List ℕ) (b : Bool)
      → s.poison ≡ none
      → encode s.salt (snapshot_records next s.salt) ≡ ok bytes
      → (durable_write_user_only w files bytes).1 ≡ b
      → let out = commit s next v ((durable_write_user_only w files bytes).0, b) in
        IsRefused s files out ⊎ IsCommitted s (next, ok v) out
  unfolding commit
  commit-outcome w s files (g, ds) v bytes true p e f = inr (record {
    value = v;
    bytes = bytes;
    usable = p;
    operation = refl;
    result = refl;
    store = refl;
    encoded = e;
    written =
        durable_write_user_only-state w files bytes
        ∙ ap (λ c. if c then some bytes else files.state) f;
  })
  commit-outcome w s files (g, ds) v bytes false p e f = inl (record {
    reason = write_failed;
    result = refl;
    same_store = refl;
    same_file =
        durable_write_user_only-state w files bytes
        ∙ ap (λ c. if c then some bytes else files.state) f;
  })

  write_state-outcome :
      (w : WriteResults) (s : DurableRecoveryStore) (files : Files) (next : State) (v : T)
      (r : Result RecoveryCodecError (List ℕ))
      → s.poison ≡ none
      → encode s.salt (snapshot_records next s.salt) ≡ r
      → let out = write_state w s files next v r in
        IsRefused s files out ⊎ IsCommitted s (next, ok v) out
  unfolding write_state
  write_state-outcome w s files next v (ok bytes) p e =
      commit-outcome w s files next v bytes _ p e refl
  write_state-outcome w s files next v (err x) p e =
      inl (record { reason = _; result = refl; same_store = refl; same_file = refl })

  changed_state-outcome :
      (w : WriteResults) (s : DurableRecoveryStore) (files : Files)
      (r : State × Result RecoveryError T)
      → s.poison ≡ none
      → let out = changed_state w s files r in IsRefused s files out ⊎ IsCommitted s r out
  unfolding changed_state
  changed_state-outcome w s files (next, ok v) p = write_state-outcome w s files next v _ p refl
  changed_state-outcome w s files (next, err e) p =
      inl (record { reason = _; result = refl; same_store = refl; same_file = refl })

  gated_state-outcome :
      (w : WriteResults) (s : DurableRecoveryStore) (files : Files)
      (operation : State → State × Result RecoveryError T) (p : Option RecoveryStoreError)
      → s.poison ≡ p
      → let out = gated_state w s files operation p in
        IsRefused s files out ⊎ IsCommitted s (operation (s.registry, s.pending)) out
  unfolding gated_state
  gated_state-outcome w s files operation none e = changed_state-outcome w s files _ e
  gated_state-outcome w s files operation (some reason) e =
      inl (record { reason = reason; result = refl; same_store = refl; same_file = refl })

  -- A change of the store does all or nothing: either it ends in an error, and the store and the
  -- state file are as before; or the store may be used, the operation succeeded, the store has its
  -- state, and the state file holds the encoding of just that state.
  pub mutate_state-outcome :
      (w : WriteResults) (s : DurableRecoveryStore) (files : Files)
      (operation : State → State × Result RecoveryError T)
      → IsRefused s files (mutate_state w s files operation)
        ⊎ IsCommitted s (operation (s.registry, s.pending)) (mutate_state w s files operation)
  unfolding mutate_state
  mutate_state-outcome w s files operation = gated_state-outcome w s files operation s.poison refl

-- A target is blocked once `block` says so.
block_key-contains_key :
    (g : RecoveryRegistry) (k : Str) (t : BlockedTarget) (b : Option Str)
    → (block_key g k t).1 ≡ ok b
    → contains_key (block_key g k t).0.entries k ≡ true
unfolding block_key put
block_key-contains_key g k t b h =
    ground (arith, contains_key-insert_entry g.entries k k t, text_eq_refl k)

block_key-salt :
    (g : RecoveryRegistry) (k : Str) (t : BlockedTarget) → (block_key g k t).0.salt ≡ g.salt
unfolding block_key put
block_key-salt g k t = ground arith

is_blocked-resolve_key :
    (g g' : RecoveryRegistry) (uri expected : Str)
    → g'.salt ≡ g.salt
    → contains_key g'.entries (resolve_key g uri expected) ≡ true
    → is_blocked g' uri expected ≡ true
unfolding is_blocked resolve_key
is_blocked-resolve_key g g' uri expected e h = ground (arith, e, h)

block-is_blocked :
    (g : RecoveryRegistry) (session uri expected replacement : Str) (from to epoch : ℕ)
    (b : Option Str)
    → (block g session uri expected replacement from to epoch).1 ≡ ok b
    → is_blocked (block g session uri expected replacement from to epoch).0 uri expected ≡ true
unfolding block
block-is_blocked g session uri expected replacement from to epoch b h =
    let t = fresh_target session uri expected replacement from to epoch in
    let k = resolve_key g uri expected in
    is_blocked-resolve_key g (block_key g k t).0 uri expected (block_key-salt g k t)
      (block_key-contains_key g k t b h)

block-err :
    (g : RecoveryRegistry) (session uri expected replacement : Str) (from to epoch : ℕ)
    (e : RecoveryError)
    → (block g session uri expected replacement from to epoch).1 ≡ err e
    → ((block g session uri expected replacement from to epoch).0 ≡ g)
      × (length g.order ≡ g.capacity)
unfolding block block_key
block-err g session uri expected replacement from to epoch e h = ground arith

-- What a promotion makes of the state: the target is blocked, or the registry is full and stays as
-- it was.
pub record IsPromotion (g : RecoveryRegistry) (d : RecoveryDescriptor)
    (others : List RecoveryDescriptor) (b : Bool) (next : State) : Type 0 where
  pub pending : next.1 ≡ others
  pub registry :
      ((b ≡ true) × (is_blocked next.0 d.uri d.expected ≡ true))
      ⊎ ((b ≡ false) × (next.0 ≡ g) × (length g.order ≡ g.capacity))

blocked_ok-IsPromotion :
    (g : RecoveryRegistry) (d : RecoveryDescriptor) (others : List RecoveryDescriptor) (b : Bool)
    (r : RecoveryRegistry × Result RecoveryError (Option Str))
    → ((k : Option Str) → r.1 ≡ ok k → is_blocked r.0 d.uri d.expected ≡ true)
    → ((e : RecoveryError) → r.1 ≡ err e → (r.0 ≡ g) × (length g.order ≡ g.capacity))
    → (blocked_ok others r).1 ≡ ok b
    → IsPromotion g d others b (blocked_ok others r).0
unfolding blocked_ok
blocked_ok-IsPromotion g d others b (g', ok k) blocks fails h = record {
  pending = refl;
  registry = inl (ground arith, blocks k refl);
}
blocked_ok-IsPromotion g d others b (g', err e) blocks fails h = record {
  pending = refl;
  registry = inr (ground arith, (fails e refl).0, (fails e refl).1);
}

promote_request-IsPromotion :
    (session id : Str) (g : RecoveryRegistry) (ds : List RecoveryDescriptor)
    (d : RecoveryDescriptor) (others : List RecoveryDescriptor) (b : Bool)
    → take_request ds id ≡ some (d, others)
    → (promote_request session id (g, ds)).1 ≡ ok b
    → IsPromotion g d others b (promote_request session id (g, ds)).0
unfolding promote_request promote_found
promote_request-IsPromotion session id g ds d others b found h =
    let done : (promote_found session (g, ds) (some (d, others))).1 ≡ ok b =
      ap (λ o. (promote_found session (g, ds) o).1) (sym found) ∙ h in
    rw found (
      blocked_ok-IsPromotion g d others b
        (block g session d.uri d.expected d.replacement d.range_start d.range_end d.document_epoch)
        (block-is_blocked g session d.uri d.expected d.replacement d.range_start d.range_end
          d.document_epoch)
        (block-err g session d.uri d.expected d.replacement d.range_start d.range_end
          d.document_epoch)
        done)

-- The intent is gone, and either its target is blocked or the registry was full and is unchanged.
abbrev pub PromotionOutcome :
    DurableRecoveryStore
    → DurableRecoveryStore
    → RecoveryDescriptor
    → List RecoveryDescriptor
    → Bool
    → Type 0
PromotionOutcome s s' d others b =
    (s'.pending ≡ others)
    × (((b ≡ true) × (target_blocked s' d.uri d.expected ≡ true))
        ⊎ ((b ≡ false)
            × (s'.registry ≡ s.registry)
            × (length s.registry.order ≡ s.registry.capacity)))

usable_target_blocked :
    (s : DurableRecoveryStore) (uri expected : Str)
    → s.poison ≡ none
    → target_blocked s uri expected ≡ is_blocked s.registry uri expected
unfolding target_blocked
usable_target_blocked s uri expected p = rw p refl

-- A promotion of a pending intent that succeeds drops the intent. It gives true, and the target is
-- blocked; or it gives false, the registry was full, and it is unchanged.
pub promote_pending-outcome :
    (w : WriteResults) (s : DurableRecoveryStore) (files : Files) (session id : Str)
    (d : RecoveryDescriptor) (others : List RecoveryDescriptor) (b : Bool)
    → take_request s.pending id ≡ some (d, others)
    → (promote_pending w s files session id).1 ≡ ok b
    → PromotionOutcome s (promote_pending w s files session id).0.0 d others b
unfolding promote_pending
promote_pending-outcome w s files session id d others b found h =
    elim (mutate_state-outcome w s files (promote_request session id)) [
      | inl r ↦ absurd (ground (arith, r.result))
      | inr c ↦
          let p =
            promote_request-IsPromotion session id s.registry s.pending d others b found
              (ground (arith, c.operation, c.result)) in
          subst (λ x. PromotionOutcome s x d others b) (sym c.store)
            (
              p.pending,
              elim p.registry [
                | inl (e, m) ↦ inl (e, usable_target_blocked _ d.uri d.expected c.usable ∙ m)
                | inr r ↦ inr r
              ],
            )
    ]
