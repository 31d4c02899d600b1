-- ===== src/Recovery/Registry/Blocking.antt =====
-- How a target is blocked and unblocked in the registry of crates/zonkey-service/src/transport.rs.
use zon_key.Prelude.{
  ℕ, ◌≤◌, ◌≡◌, ◌≢◌, refl, sym, ap, ◌∙◌, Bool, true, false, not, ◌&&◌, Option, none, some, List, [],
  ◌∷◌, ◌++◌, length, length-append, arith, Result, ok, err, Bool-cases, inl, inr, text_eq,
  text_eq→eq, text_eq_refl, ◌==◌,
}
use zon_key.Text.{Str}
use zon_key.Keyed.{
  Keyed, lookup, contains_key, remove_entry, insert_entry, keys, has_id, all_distinct,
}
use zon_key.Keyed.Laws.{
  contains_key-keys, contains_key-insert_entry, contains_key-remove_entry_other, keys-insert_entry,
  keys-insert_entry_present, keys-remove_entry, has_id-append, contains_key-lookup,
  all_distinct-snoc, all_distinct-remove_id, has_id-remove_id_same,
}
use zon_key.Recovery.Target.{RecoveryVerdict, BlockedTarget}
use zon_key.Recovery.Registry.{
  RecoveryError, RecoveryRegistry, resolve_key, put, block_key, block, reconcile_state,
  reconcile_bound, reconcile_found, reconcile, retain_others, unblock, acknowledge_state,
  acknowledge_bound, acknowledge_found, acknowledge,
}

-- A call of the registry that changes it.
pub data Call : Type 0 where
  blocks : Str → Str → Str → Str → ℕ → ℕ → ℕ → Call
  reconciles : Str → Str → Str → ℕ → Str → Call
  acknowledges : Str → Str → Str → ℕ → Call

unfoldable pub step : RecoveryRegistry → Call → RecoveryRegistry
step g (blocks session uri expected replacement from to epoch) =
    (block g session uri expected replacement from to epoch).0
step g (reconciles session uri expected epoch live) =
    (reconcile g session uri expected epoch live).0
step g (acknowledges session uri expected epoch) = (acknowledge g session uri expected epoch).0

unfoldable pub run : RecoveryRegistry → List Call → RecoveryRegistry
run g [] = g
run g (c ∷ cs) = run (step g c) cs

-- What a call of the registry can do to it.
data Change (g : RecoveryRegistry) : RecoveryRegistry → Type 0 where
  same : Change g g
  updates : (k : Str) (t : BlockedTarget) → contains_key g.entries k ≡ true → Change g (put g k t)
  adds :
      (k : Str) (t : BlockedTarget)
      → contains_key g.entries k ≡ false
      → length g.order ≢ g.capacity
      → Change g (put (record g { order = g.order ++ k ∷ [] }) k t)
  removes : (k : Str) → Change g (unblock g k)

block_key-Change :
    (g : RecoveryRegistry) (k : Str) (t : BlockedTarget) → Change g (block_key g k t).0
unfolding block_key
block_key-Change g k t = elim (Bool-cases (contains_key g.entries k)) [
  | inl p ↦ rw p (updates k t p)
  | inr p ↦ elim (Bool-cases (length g.order == g.capacity)) [
    | inl q ↦ rw (p, q) same
    | inr q ↦ rw (p, q) (adds k t p (ground arith))
  ]
]

reconcile_state-Change :
    (g : RecoveryRegistry) (k live : Str) (t : BlockedTarget) (s : Option (RecoveryVerdict × Bool))
    → contains_key g.entries k ≡ true
    → Change g (reconcile_state g k live t s).0
unfolding reconcile_state
reconcile_state-Change g k live t none p = updates k _ p
reconcile_state-Change g k live t (some (v, a)) p = updates k t p

acknowledge_state-Change :
    (g : RecoveryRegistry) (k : Str) (t : BlockedTarget) (s : Option (RecoveryVerdict × Bool))
    → contains_key g.entries k ≡ true
    → Change g (acknowledge_state g k t s).0
unfolding acknowledge_state
acknowledge_state-Change g k t none p = updates k t p
acknowledge_state-Change g k t (some s) p = removes k

reconcile_bound-Change :
    (g : RecoveryRegistry) (k live : Str) (r : Result RecoveryError BlockedTarget)
    → contains_key g.entries k ≡ true
    → Change g (reconcile_bound g k live r).0
unfolding reconcile_bound
reconcile_bound-Change g k live (ok t) p = reconcile_state-Change g k live t t.state p
reconcile_bound-Change g k live (err e) p = same

acknowledge_bound-Change :
    (g : RecoveryRegistry) (k : Str) (r : Result RecoveryError BlockedTarget)
    → contains_key g.entries k ≡ true
    → Change g (acknowledge_bound g k r).0
unfolding acknowledge_bound
acknowledge_bound-Change g k (ok t) p = acknowledge_state-Change g k t t.state p
acknowledge_bound-Change g k (err e) p = same

reconcile_found-Change :
    (g : RecoveryRegistry) (k session : Str) (epoch : ℕ) (live : Str) (o : Option BlockedTarget)
    → lookup g.entries k ≡ o
    → Change g (reconcile_found g k session epoch live o).0
unfolding reconcile_found
reconcile_found-Change g k session epoch live none e = same
reconcile_found-Change g k session epoch live (some t) e =
    reconcile_bound-Change g k live _ (contains_key-lookup g.entries k t e)

acknowledge_found-Change :
    (g : RecoveryRegistry) (k session : Str) (epoch : ℕ) (o : Option BlockedTarget)
    → lookup g.entries k ≡ o
    → Change g (acknowledge_found g k session epoch o).0
unfolding acknowledge_found
acknowledge_found-Change g k session epoch none e = same
acknowledge_found-Change g k session epoch (some t) e =
    acknowledge_bound-Change g k _ (contains_key-lookup g.entries k t e)

step-Change : (g : RecoveryRegistry) (c : Call) → Change g (step g c)
unfolding step block reconcile acknowledge
step-Change g (blocks session uri expected replacement from to epoch) = block_key-Change g _ _
step-Change g (reconciles session uri expected epoch live) =
    reconcile_found-Change g (resolve_key g uri expected) session epoch live _ refl
step-Change g (acknowledges session uri expected epoch) =
    acknowledge_found-Change g (resolve_key g uri expected) session epoch _ refl

-- The order names exactly the targets in the map, each of which has one entry, and no more of them than
-- the capacity.
pub record IsOrdered (g : RecoveryRegistry) : Type 0 where
  pub agrees : (id : Str) → has_id g.order id ≡ contains_key g.entries id
  pub distinct : all_distinct (keys g.entries) ≡ true
  pub bounded : length g.order ≤ g.capacity

all_distinct-insert_entry :
    (es : Keyed BlockedTarget) (k : Str) (t : BlockedTarget)
    → all_distinct (keys es) ≡ true
    → all_distinct (keys (insert_entry es k t)) ≡ true
all_distinct-insert_entry es k t h = elim (Bool-cases (contains_key es k)) [
  | inl p ↦ ap all_distinct (keys-insert_entry_present es k t p) ∙ h
  | inr p ↦
      let absent = sym (contains_key-keys es k) ∙ p in
      ap all_distinct (keys-insert_entry es k t absent) ∙ all_distinct-snoc (keys es) k h absent
]

has_id-retain_others :
    (ks : List Str) (k id : Str)
    → has_id (retain_others ks k) id ≡ (not (text_eq k id) && has_id ks id)
unfolding has_id retain_others
has_id-retain_others [] k id = ground arith
has_id-retain_others (x ∷ ks) k id = ground (
  arith,
  text_eq→eq x k,
  text_eq→eq k id,
  text_eq→eq x id,
  text_eq_refl id,
  text_eq_refl x,
  has_id-retain_others ks k id,
)

length-retain_others : (ks : List Str) (k : Str) → length (retain_others ks k) ≤ length ks
unfolding retain_others
length-retain_others [] k = omega arith
length-retain_others (x ∷ ks) k = ground (arith, length-retain_others ks k)

contains_key-remove_entry :
    (es : Keyed BlockedTarget) (k id : Str)
    → all_distinct (keys es) ≡ true
    → contains_key (remove_entry es k) id ≡ (not (text_eq k id) && contains_key es id)
contains_key-remove_entry es k id h = elim (Bool-cases (text_eq k id)) [
  | inl e ↦
      rw (e, ← text_eq→eq k id e)
        (contains_key-keys (remove_entry es k) k
          ∙ ap (λ ks. has_id ks k) (keys-remove_entry es k)
          ∙ has_id-remove_id_same (keys es) k h)
  | inr e ↦ rw e (contains_key-remove_entry_other es k id e)
]

Change-IsOrdered : (g g' : RecoveryRegistry) → Change g g' → IsOrdered g → IsOrdered g'
unfolding put unblock
Change-IsOrdered g g' same v = v
Change-IsOrdered g g' (updates k t p) v = record {
  agrees = λ id.
      ground (arith, v.agrees id, contains_key-insert_entry g.entries k id t, text_eq→eq k id);
  distinct = all_distinct-insert_entry g.entries k t v.distinct;
  bounded = v.bounded;
}
Change-IsOrdered g g' (adds k t p n) v = record {
  agrees = λ id.
      ground (
        arith,
        v.agrees id,
        contains_key-insert_entry g.entries k id t,
        has_id-append g.order k id,
      );
  distinct = all_distinct-insert_entry g.entries k t v.distinct;
  bounded = omega (arith, v.bounded, n, length-append g.order (k ∷ []));
}
Change-IsOrdered g g' (removes k) v = record {
  agrees = λ id. ground (
    arith,
    v.agrees id,
    has_id-retain_others g.order k id,
    contains_key-remove_entry g.entries k id v.distinct,
  );
  distinct =
      ap all_distinct (keys-remove_entry g.entries k)
      ∙ all_distinct-remove_id (keys g.entries) k v.distinct;
  bounded = omega (arith, v.bounded, length-retain_others g.order k);
}

-- Whatever the calls, the order of the registry names exactly the targets in its map, each of which
-- has one entry, and never more of them than the capacity; if this was so at the start.
pub run-IsOrdered : (g : RecoveryRegistry) (cs : List Call) → IsOrdered g → IsOrdered (run g cs)
unfolding run
run-IsOrdered g [] v = v
run-IsOrdered g (c ∷ cs) v =
    run-IsOrdered (step g c) cs (Change-IsOrdered g (step g c) (step-Change g c) v)
