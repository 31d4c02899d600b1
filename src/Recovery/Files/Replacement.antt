-- ===== src/Recovery/Files/Replacement.antt =====
-- What a replacement leaves of the state file, from crates/zonkey-win/src/recovery_store.rs.
use zon_key.Prelude.{
  ℕ, zero, suc, ◌≤◌, ◌≡◌, refl, sym, ap, ◌∙◌, Bool, true, false, Option, none, some, List, [], ◌∷◌,
  ◌++◌, length, take, drop, append_assoc, append-nil, take-append-drop, length-drop, arith, inl,
  inr, ◌⊎◌, if◌then◌else◌,
}
use zon_key.Recovery.Files.{Files, WriteResults, write_all, replace, durable_write_user_only}

-- Whether a call of WriteFile transferred something.
unfoldable pub is_progress : Option ℕ → Bool
is_progress none = false
is_progress (some zero) = false
is_progress (some (suc n)) = true

progress_cases :
    (o : Option ℕ)
    → (is_progress o ≡ false) × ((o ≡ none) ⊎ (o ≡ some zero)) ⊎ ((n : ℕ) × (o ≡ some (suc n)))
unfolding is_progress
progress_cases none = inl (refl, inl refl)
progress_cases (some zero) = inl (refl, inr refl)
progress_cases (some (suc n)) = inr (n, refl)

rejoin :
    (n : ℕ) (content : List ℕ) (b : ℕ) (chunk : List ℕ)
    → (content ++ (b ∷ take n chunk)) ++ drop n chunk ≡ content ++ (b ∷ chunk)
rejoin n content b chunk =
    append_assoc content (b ∷ take n chunk) (drop n chunk)
    ∙ ap (λ t. content ++ (b ∷ t)) (take-append-drop n chunk)

write_all-true :
    (w : WriteResults) (fuel call : ℕ) (content chunk : List ℕ)
    → (write_all w fuel call content chunk).1 ≡ true
    → (write_all w fuel call content chunk).0 ≡ content ++ chunk
unfolding write_all
write_all-true w fuel call content [] h = sym (append-nil content)
write_all-true w zero call content (b ∷ chunk) h = absurd (cc)
write_all-true w (suc fuel) call content (b ∷ chunk) h =
    elim (progress_cases (w.transferred call)) [
      | inl (p, inl e) ↦ absurd (ground (arith, e))
      | inl (p, inr e) ↦ absurd (ground (arith, e))
      | inr (n, e) ↦ ground (
        arith,
        e,
        rejoin n content b chunk,
        write_all-true w fuel (suc call) (content ++ (b ∷ take n chunk)) (drop n chunk),
      )
    ]

-- Short writes are gone on with: where each call of WriteFile transfers something, fuel as long as the
-- bytes is enough.
write_all-progress :
    (w : WriteResults) (fuel call : ℕ) (content chunk : List ℕ)
    → ((i : ℕ) → is_progress (w.transferred i) ≡ true)
    → length chunk ≤ fuel
    → write_all w fuel call content chunk ≡ (content ++ chunk, w.flush)
unfolding write_all
write_all-progress w fuel call content [] p h = ap (λ c. (c, w.flush)) (sym (append-nil content))
write_all-progress w zero call content (b ∷ chunk) p h = absurd (omega arith)
write_all-progress w (suc fuel) call content (b ∷ chunk) p h =
    elim (progress_cases (w.transferred call)) [
      | inl (q, e) ↦ absurd (ground (arith, p call))
      | inr (n, e) ↦ ground (
        arith,
        e,
        rejoin n content b chunk,
        write_all-progress w fuel (suc call) (content ++ (b ∷ take n chunk)) (drop n chunk) p
            (omega (arith, h, length-drop n chunk)),
      )
    ]

-- The state file holds exactly the bytes where the replacement reports success, and what it held before
-- where it does not.
pub durable_write_user_only-state :
    (w : WriteResults) (files : Files) (bytes : List ℕ)
    → (durable_write_user_only w files bytes).0.state
      ≡ (if (durable_write_user_only w files bytes).1 then some bytes else files.state)
unfolding durable_write_user_only replace
durable_write_user_only-state w files bytes =
    ground (arith, write_all-true w (length bytes) 0 [] bytes)

-- A replacement succeeds, and the state file holds exactly the bytes, where each call of Windows
-- succeeds, however few bytes, but at least one, each call of WriteFile transfers.
pub durable_write_user_only-succeeds :
    (w : WriteResults) (files : Files) (bytes : List ℕ)
    → w.security ≡ true
    → w.create ≡ true
    → ((i : ℕ) → is_progress (w.transferred i) ≡ true)
    → w.flush ≡ true
    → w.close ≡ true
    → w.move ≡ true
    → durable_write_user_only w files bytes ≡ (record { state = some bytes; temp = none }, true)
unfolding durable_write_user_only replace
durable_write_user_only-succeeds w files bytes security create progress flush close move = rw (
  security,
  create,
  write_all-progress w (length bytes) 0 [] bytes progress (omega arith),
  flush,
  close,
  move,
)
