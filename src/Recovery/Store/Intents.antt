-- ===== src/Recovery/Store/Intents.antt =====
-- `begin_pending` of crates/zonkey-win/src/recovery_store.rs.
use mathlib.Core.List.Memᴰ
use mathlib.Core.List.{Memᴰ}
use zon_key.Prelude.{
  subst, refl, text_eq, text_eq→eq, ◌≡◌, ◌⊎◌, inl, inr, sym, ap, ◌∙◌, true, false, List, [], ◌∷◌,
  ◌++◌, ok, err, Bool-cases, arith, text_eq_refl,
}
use zon_key.Text.{Str}
use zon_key.Recovery.Target.{RecoveryDescriptor}
use zon_key.Recovery.Files.{Files, WriteResults}
use zon_key.Recovery.Store.{RecoveryStoreError, DurableRecoveryStore, State}
use zon_key.Recovery.Store.Calls.{has_request, begin_request, begin_pending}
use zon_key.Recovery.Store.Outcomes.{IsCommitted, mutate_state-outcome}

-- Among the intents is one of this request.
abbrev pub IsKnown : List RecoveryDescriptor → Str → Type 0
IsKnown ds request_id = (x : RecoveryDescriptor) × Memᴰ x ds × (x.request_id ≡ request_id)

-- The intents once that of a request was begun: it is the last one, if it was not among them.
abbrev pub IsBegun : List RecoveryDescriptor → RecoveryDescriptor → List RecoveryDescriptor → Type 0
IsBegun ds d next =
    (IsKnown ds d.request_id × (next ≡ ds)) ⊎ ((¬ IsKnown ds d.request_id) × (next ≡ ds ++ d ∷ []))

has_request-IsKnown :
    (ds : List RecoveryDescriptor) (request_id : Str)
    → has_request ds request_id ≡ true
    → IsKnown ds request_id
unfolding has_request
has_request-IsKnown [] request_id h = absurd (cc)
has_request-IsKnown (x ∷ ds) request_id h = elim (Bool-cases (text_eq x.request_id request_id)) [
  | inl p ↦ (x, Memᴰ.head refl, text_eq→eq x.request_id request_id p)
  | inr p ↦
      let (y, m, e) = has_request-IsKnown ds request_id (ground (arith, p)) in (y, Memᴰ.tail m, e)
]

Memᴰ-has_request :
    (ds : List RecoveryDescriptor) (x : RecoveryDescriptor)
    → Memᴰ x ds
    → has_request ds x.request_id ≡ true
unfolding has_request
Memᴰ-has_request [] x m = absurd (Memᴰ.not-nil m)
Memᴰ-has_request (y ∷ ds) x (Memᴰ.head e) = rw (sym e) (ground (arith, text_eq_refl x.request_id))
Memᴰ-has_request (y ∷ ds) x (Memᴰ.tail m) = ground (arith, Memᴰ-has_request ds x m)

has_request-false :
    (ds : List RecoveryDescriptor) (request_id : Str)
    → has_request ds request_id ≡ false
    → ¬ IsKnown ds request_id
has_request-false ds request_id h (x, m, e) =
    absurd (ground (arith, Memᴰ-has_request ds x m, ap (has_request ds) e, h))

pub begin_request-IsBegun :
    (d : RecoveryDescriptor) (next : State) (u : Unit {0})
    → (begin_request d next).1 ≡ ok u
    → IsBegun next.1 d (begin_request d next).0.1 × ((begin_request d next).0.0 ≡ next.0)
unfolding begin_request
begin_request-IsBegun d (g, ds) u h = elim (Bool-cases (has_request ds d.request_id)) [
  | inl p ↦ (inl (has_request-IsKnown ds d.request_id p, ground (arith, p)), ground (arith, p))
  | inr p ↦ (inr (has_request-false ds d.request_id p, ground (arith, p, h)), ground (arith, p, h))
]

Memᴰ-snoc : (ds : List RecoveryDescriptor) (d : RecoveryDescriptor) → Memᴰ d (ds ++ d ∷ [])
Memᴰ-snoc [] d = Memᴰ.head refl
Memᴰ-snoc (x ∷ ds) d = Memᴰ.tail (Memᴰ-snoc ds d)

-- An intent that was begun is among the intents.
pub IsBegun-IsKnown :
    (ds : List RecoveryDescriptor) (d : RecoveryDescriptor) (next : List RecoveryDescriptor)
    → IsBegun ds d next
    → IsKnown next d.request_id
IsBegun-IsKnown ds d next (inl (known, e)) = subst (λ xs. IsKnown xs d.request_id) (sym e) known
IsBegun-IsKnown ds d next (inr (unknown, e)) =
    subst (λ xs. IsKnown xs d.request_id) (sym e) (d, Memᴰ-snoc ds d, refl)

-- What `begin_pending` leaves of the store, if it succeeds.
abbrev pub begun_store : DurableRecoveryStore → RecoveryDescriptor → DurableRecoveryStore
begun_store s d =
    let next = (begin_request d (s.registry, s.pending)).0 in
    record s { registry = next.0; pending = next.1 }

pub begin_pending-IsCommitted :
    (w : WriteResults) (s : DurableRecoveryStore) (files : Files) (d : RecoveryDescriptor)
    (next : DurableRecoveryStore × Files) (u : Unit {0})
    → begin_pending w s files d ≡ (next, ok u)
    → IsCommitted s (begin_request d (s.registry, s.pending)) (begin_pending w s files d)
unfolding begin_pending
begin_pending-IsCommitted w s files d next u h =
    elim (mutate_state-outcome w s files (begin_request d)) [
      | inl x ↦ absurd (ground (arith, x.result, ap (λ o. o.1) h))
      | inr c ↦ c
    ]

pub begin_pending-IsRefused :
    (w : WriteResults) (s : DurableRecoveryStore) (files : Files) (d : RecoveryDescriptor)
    (next : DurableRecoveryStore × Files) (reason : RecoveryStoreError)
    → begin_pending w s files d ≡ (next, err reason)
    → (next.0 ≡ s) × (next.1.state ≡ files.state)
unfolding begin_pending
begin_pending-IsRefused w s files d next reason h =
    elim (mutate_state-outcome w s files (begin_request d)) [
      | inl x ↦
          (ap (λ o. o.0.0) (sym h) ∙ x.same_store, ap (λ o. o.0.1.state) (sym h) ∙ x.same_file)
      | inr c ↦ absurd (ground (arith, c.result, ap (λ o. o.1) h))
    ]
