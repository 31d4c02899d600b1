-- ===== src/Recovery/Registry/Lifecycle.antt =====
-- Which calls of the registry of crates/zonkey-service/src/transport.rs reconcile and unblock a target.
use zon_key.Prelude.{
  ℕ, ◌≡◌, ◌⊎◌, refl, sym, ap, ◌∙◌, Bool, true, false, Option, none, some, List, [], ◌∷◌, ◌++◌,
  arith, Result, ok, err, Bool-cases, inl, inr, text_eq, text_eq→eq, ◌==◌,
}
use zon_key.Text.{Str, is_empty}
use zon_key.Keyed.{lookup, contains_key}
use zon_key.Keyed.Laws.{contains_key-insert_entry, contains_key-remove_entry_other}
use zon_key.Recovery.Target.{RecoveryVerdict, BlockedTarget}
use zon_key.Recovery.Registry.{
  RecoveryError, RecoveryRegistry, resolve_key, put, fresh_target, block_key, block, bind_session,
  reconcile_state, reconcile_bound, reconcile_found, reconcile, unblock, acknowledge_state,
  acknowledge_bound, acknowledge_found, acknowledge,
}
use zon_key.Recovery.Registry.Blocking.{Call, blocks, reconciles, acknowledges, step, run}

-- The operator may act on the target in this session: it is bound to it, or not bound yet and not of
-- another epoch.
abbrev pub MayAct : BlockedTarget → Str → ℕ → Type 0
MayAct t session epoch =
    (t.session_id ≡ session)
    ⊎ ((t.session_id ≡ []) × ((t.document_epoch ≡ 0) ⊎ (t.document_epoch ≡ epoch)))

-- The call acknowledges the target under this key, which was reconciled.
pub data Unblocks (g : RecoveryRegistry) (k : Str) : Call → Type 0 where
  by_acknowledgement :
      (session uri expected : Str) (epoch : ℕ) (t : BlockedTarget) (verdict : RecoveryVerdict)
      (acknowledged : Bool)
      → resolve_key g uri expected ≡ k
      → lookup g.entries k ≡ some t
      → MayAct t session epoch
      → t.state ≡ some (verdict, acknowledged)
      → Unblocks g k (acknowledges session uri expected epoch)

is_empty-true : (xs : Str) → is_empty xs ≡ true → xs ≡ []
unfolding is_empty
is_empty-true [] h = refl
is_empty-true (x ∷ xs) h = cc

bind_session-ok :
    (t t' : BlockedTarget) (session : Str) (epoch : ℕ)
    → bind_session t session epoch ≡ ok t'
    → MayAct t session epoch × (t' ≡ record t { session_id = session })
unfolding bind_session
bind_session-ok t t' session epoch h = elim (Bool-cases (is_empty t.session_id)) [
  | inl e ↦ elim (Bool-cases (t.document_epoch == 0)) [
    | inl z ↦ (inr (is_empty-true t.session_id e, inl (ground arith)), ground arith)
    | inr z ↦ (inr (is_empty-true t.session_id e, inr (ground arith)), ground arith)
  ]
  | inr e ↦
      let same : t.session_id ≡ session = text_eq→eq t.session_id session (ground arith) in
      (inl same, ground (arith, same))
]

put-contains_key :
    (g : RecoveryRegistry) (k id : Str) (t : BlockedTarget)
    → contains_key g.entries id ≡ true
    → contains_key (put g k t).entries id ≡ true
unfolding put
put-contains_key g k id t h = ground (arith, contains_key-insert_entry g.entries k id t)

block_key-contains_key :
    (g : RecoveryRegistry) (k id : Str) (t : BlockedTarget)
    → contains_key g.entries id ≡ true
    → contains_key (block_key g k t).0.entries id ≡ true
unfolding block_key put
block_key-contains_key g k id t h = ground (arith, contains_key-insert_entry g.entries k id t)

reconcile_state-contains_key :
    (g : RecoveryRegistry) (k id live : Str) (t : BlockedTarget)
    (s : Option (RecoveryVerdict × Bool))
    → contains_key g.entries id ≡ true
    → contains_key (reconcile_state g k live t s).0.entries id ≡ true
unfolding reconcile_state
reconcile_state-contains_key g k id live t none h = put-contains_key g k id _ h
reconcile_state-contains_key g k id live t (some (v, a)) h = put-contains_key g k id t h

reconcile_bound-contains_key :
    (g : RecoveryRegistry) (k id live : Str) (r : Result RecoveryError BlockedTarget)
    → contains_key g.entries id ≡ true
    → contains_key (reconcile_bound g k live r).0.entries id ≡ true
unfolding reconcile_bound
reconcile_bound-contains_key g k id live (ok t) h =
    reconcile_state-contains_key g k id live t t.state h
reconcile_bound-contains_key g k id live (err e) h = h

reconcile_found-contains_key :
    (g : RecoveryRegistry) (k id session : Str) (epoch : ℕ) (live : Str) (o : Option BlockedTarget)
    → contains_key g.entries id ≡ true
    → contains_key (reconcile_found g k session epoch live o).0.entries id ≡ true
unfolding reconcile_found
reconcile_found-contains_key g k id session epoch live none h = h
reconcile_found-contains_key g k id session epoch live (some t) h =
    reconcile_bound-contains_key g k id live _ h

-- An id that `unblock` takes out is the one it was asked to.
unblock_lem :
    (g : RecoveryRegistry) (k id : Str)
    → contains_key g.entries id ≡ true
    → contains_key (unblock g k).entries id ≡ false
    → k ≡ id
unfolding unblock
unblock_lem g k id h n = elim (Bool-cases (text_eq k id)) [
  | inl e ↦ text_eq→eq k id e
  | inr e ↦ absurd (ground (arith, contains_key-remove_entry_other g.entries k id e))
]

acknowledge_state_lem :
    (g : RecoveryRegistry) (k id : Str) (t : BlockedTarget) (s : Option (RecoveryVerdict × Bool))
    → contains_key g.entries id ≡ true
    → contains_key (acknowledge_state g k t s).0.entries id ≡ false
    → (k ≡ id) × ((v : RecoveryVerdict) × (a : Bool) × (s ≡ some (v, a)))
unfolding acknowledge_state
acknowledge_state_lem g k id t none h n = absurd (ground (arith, put-contains_key g k id t h))
acknowledge_state_lem g k id t (some (v, a)) h n = (unblock_lem g k id h n, (v, a, refl))

acknowledge_bound_lem :
    (g : RecoveryRegistry) (k id session : Str) (epoch : ℕ) (t : BlockedTarget)
    (r : Result RecoveryError BlockedTarget)
    → bind_session t session epoch ≡ r
    → contains_key g.entries id ≡ true
    → contains_key (acknowledge_bound g k r).0.entries id ≡ false
    → (k ≡ id)
      × MayAct t session epoch
      × ((v : RecoveryVerdict) × (a : Bool) × (t.state ≡ some (v, a)))
unfolding acknowledge_bound
acknowledge_bound_lem g k id session epoch t (ok t') b h n =
    let (may, same) = bind_session-ok t t' session epoch b in
    let (e, (v, a, s)) = acknowledge_state_lem g k id t' t'.state h n in
    (e, may, (v, a, ap (λ x. x.state) (sym same) ∙ s))
acknowledge_bound_lem g k id session epoch t (err x) b h n = absurd (ground arith)

acknowledge_found_lem :
    (g : RecoveryRegistry) (k id session uri expected : Str) (epoch : ℕ) (o : Option BlockedTarget)
    → lookup g.entries k ≡ o
    → resolve_key g uri expected ≡ k
    → contains_key g.entries id ≡ true
    → contains_key (acknowledge_found g k session epoch o).0.entries id ≡ false
    → Unblocks g id (acknowledges session uri expected epoch)
unfolding acknowledge_found
acknowledge_found_lem g k id session uri expected epoch none l r h n = absurd (ground arith)
acknowledge_found_lem g k id session uri expected epoch (some t) l r h n =
    let (e, may, (v, a, s)) = acknowledge_bound_lem g k id session epoch t _ refl h n in
    by_acknowledgement session uri expected epoch t v a (r ∙ e) (rw (← e) l) may s

step-Unblocks :
    (g : RecoveryRegistry) (c : Call) (id : Str)
    → contains_key g.entries id ≡ true
    → contains_key (step g c).entries id ≡ false
    → Unblocks g id c
unfolding step block reconcile acknowledge
step-Unblocks g (blocks session uri expected replacement from to epoch) id h n =
    let kept =
      block_key-contains_key g (resolve_key g uri expected) id
        (fresh_target session uri expected replacement from to epoch) h in
    absurd (ground (arith, kept))
step-Unblocks g (reconciles session uri expected epoch live) id h n =
    let k : Str = resolve_key g uri expected in
    let kept = reconcile_found-contains_key g k id session epoch live (lookup g.entries k) h in
    absurd (ground (arith, kept))
step-Unblocks g (acknowledges session uri expected epoch) id h n =
    acknowledge_found_lem g (resolve_key g uri expected) id session uri expected epoch _ refl refl h
      n

-- A target that is blocked stays blocked through any calls, unless one of them acknowledges it: in
-- a session that may act on it, and after a reconciliation gave it a verdict.
pub run-Unblocks :
    (g : RecoveryRegistry) (cs : List Call) (id : Str)
    → contains_key g.entries id ≡ true
    → contains_key (run g cs).entries id ≡ false
    → (before after : List Call) × (c : Call) × (cs ≡ before ++ c ∷ after)
      × Unblocks (run g before) id c
unfolding run
run-Unblocks g [] id h n = absurd (ground arith)
run-Unblocks g (c ∷ cs) id h n = elim (Bool-cases (contains_key (step g c).entries id)) [
  | inl e ↦
      let (before, after, c', same, u) = run-Unblocks (step g c) cs id e n in
      (c ∷ before, after, c', ap (◌∷◌ c) same, u)
  | inr e ↦ ([], cs, c, refl, step-Unblocks g c id h e)
]
