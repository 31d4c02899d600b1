-- ===== src/Keyed/Laws.antt =====
-- Laws of association lists and of lists of ids.
use zon_key.Prelude.{
  ◌≡◌, refl, ap, true, false, ◌||◌, none, some, List, [], ◌∷◌, ◌++◌, arith, text_eq, text_eq→eq,
  text_eq_refl, Bool-cases, inl, inr,
}
use zon_key.Text.{Str}
use zon_key.Keyed.{
  Keyed, lookup, contains_key, remove_entry, insert_entry, keys, has_id, remove_id, all_distinct,
}

pub has_id-remove_id :
    (ks : List Str) (id other : Str)
    → has_id ks other ≡ false
    → has_id (remove_id ks id) other ≡ false
unfolding has_id remove_id
has_id-remove_id [] id other h = refl
has_id-remove_id (k ∷ ks) id other h = ground (arith, has_id-remove_id ks id other)

pub all_distinct-remove_id :
    (ks : List Str) (id : Str) → all_distinct ks ≡ true → all_distinct (remove_id ks id) ≡ true
unfolding all_distinct remove_id
all_distinct-remove_id [] id h = refl
all_distinct-remove_id (k ∷ ks) id h =
    ground (arith, has_id-remove_id ks id k, all_distinct-remove_id ks id)

has_id-symmetric : (a b : Str) → text_eq a b ≡ false → text_eq b a ≡ false
has_id-symmetric a b h = ground (arith, text_eq→eq b a, text_eq_refl a)

pub has_id-snoc :
    (ks : List Str) (id other : Str)
    → has_id ks other ≡ false
    → text_eq id other ≡ false
    → has_id (ks ++ id ∷ []) other ≡ false
unfolding has_id
has_id-snoc [] id other h k = ground arith
has_id-snoc (x ∷ ks) id other h k = ground (arith, has_id-snoc ks id other)

pub all_distinct-snoc :
    (ks : List Str) (id : Str)
    → all_distinct ks ≡ true
    → has_id ks id ≡ false
    → all_distinct (ks ++ id ∷ []) ≡ true
unfolding all_distinct has_id
all_distinct-snoc [] id h k = refl
all_distinct-snoc (x ∷ ks) id h k =
    ground (arith, has_id-snoc ks id x, has_id-symmetric x id, all_distinct-snoc ks id)

pub has_id-remove_id_same :
    (ks : List Str) (id : Str) → all_distinct ks ≡ true → has_id (remove_id ks id) id ≡ false
unfolding all_distinct remove_id has_id
has_id-remove_id_same [] id h = refl
has_id-remove_id_same (k ∷ ks) id h = ground (arith, text_eq→eq k id, has_id-remove_id_same ks id)

pub has_id-append :
    (ks : List Str) (id other : Str)
    → has_id (ks ++ id ∷ []) other ≡ (has_id ks other || text_eq id other)
unfolding has_id
has_id-append [] id other = ground arith
has_id-append (x ∷ ks) id other = ground (arith, has_id-append ks id other)

module _ {V : Type 0} where
  pub contains_key-keys : (es : Keyed V) (id : Str) → contains_key es id ≡ has_id (keys es) id
  unfolding contains_key keys has_id
  contains_key-keys [] id = refl
  contains_key-keys ((k, e) ∷ es) id = ap (λ b. text_eq k id || b) (contains_key-keys es id)

  pub lookup-none : (es : Keyed V) (id : Str) → has_id (keys es) id ≡ false → lookup es id ≡ none
  unfolding lookup keys has_id
  lookup-none [] id h = refl
  lookup-none ((k, e) ∷ es) id h = ground (arith, lookup-none es id)

  pub lookup-some :
      (es : Keyed V) (id : Str)
      → has_id (keys es) id ≡ true
      → (entry : V) × (lookup es id ≡ some entry)
  unfolding lookup keys has_id
  lookup-some [] id h = absurd (cc)
  lookup-some ((k, e) ∷ es) id h = elim (Bool-cases (text_eq k id)) [
    | inl s ↦ (e, ground arith)
    | inr s ↦ let (entry, found) = lookup-some es id (ground arith) in (entry, ground arith)
  ]

  pub keys-insert_entry :
      (es : Keyed V) (id : Str) (entry : V)
      → has_id (keys es) id ≡ false
      → keys (insert_entry es id entry) ≡ keys es ++ id ∷ []
  unfolding insert_entry keys has_id
  keys-insert_entry [] id entry h = refl
  keys-insert_entry ((k, e) ∷ es) id entry h = ground (arith, keys-insert_entry es id entry)

  pub keys-remove_entry :
      (es : Keyed V) (id : Str) → keys (remove_entry es id) ≡ remove_id (keys es) id
  unfolding remove_entry keys remove_id
  keys-remove_entry [] id = refl
  keys-remove_entry ((k, e) ∷ es) id = ground (arith, keys-remove_entry es id)

  pub lookup-insert_entry :
      (es : Keyed V) (id : Str) (entry : V) → lookup (insert_entry es id entry) id ≡ some entry
  unfolding lookup insert_entry
  lookup-insert_entry [] id entry = ground (arith, text_eq_refl id)
  lookup-insert_entry ((k, e) ∷ es) id entry = ground (arith, lookup-insert_entry es id entry)

  pub lookup-insert_entry_other :
      (es : Keyed V) (id other : Str) (entry : V)
      → text_eq id other ≡ false
      → lookup (insert_entry es id entry) other ≡ lookup es other
  unfolding lookup insert_entry
  lookup-insert_entry_other [] id other entry h = ground arith
  lookup-insert_entry_other ((k, e) ∷ es) id other entry h =
      ground (arith, text_eq→eq k id, lookup-insert_entry_other es id other entry h)

  pub lookup-remove_entry_other :
      (es : Keyed V) (id other : Str)
      → text_eq id other ≡ false
      → lookup (remove_entry es id) other ≡ lookup es other
  unfolding lookup remove_entry
  lookup-remove_entry_other [] id other h = refl
  lookup-remove_entry_other ((k, e) ∷ es) id other h =
      ground (arith, text_eq→eq k id, lookup-remove_entry_other es id other h)

  pub contains_key-insert_entry :
      (es : Keyed V) (id other : Str) (entry : V)
      → contains_key (insert_entry es id entry) other ≡ (text_eq id other || contains_key es other)
  unfolding contains_key insert_entry
  contains_key-insert_entry [] id other entry = ground arith
  contains_key-insert_entry ((k, e) ∷ es) id other entry =
      ground (arith, text_eq→eq k id, contains_key-insert_entry es id other entry)

  pub contains_key-remove_entry_other :
      (es : Keyed V) (id other : Str)
      → text_eq id other ≡ false
      → contains_key (remove_entry es id) other ≡ contains_key es other
  unfolding contains_key remove_entry
  contains_key-remove_entry_other [] id other h = refl
  contains_key-remove_entry_other ((k, e) ∷ es) id other h =
      ground (arith, text_eq→eq k id, contains_key-remove_entry_other es id other h)

  pub keys-insert_entry_present :
      (es : Keyed V) (id : Str) (entry : V)
      → contains_key es id ≡ true
      → keys (insert_entry es id entry) ≡ keys es
  unfolding contains_key insert_entry keys
  keys-insert_entry_present [] id entry h = cc
  keys-insert_entry_present ((k, e) ∷ es) id entry h =
      ground (arith, keys-insert_entry_present es id entry)

  pub contains_key-lookup :
      (es : Keyed V) (id : Str) (entry : V) → lookup es id ≡ some entry → contains_key es id ≡ true
  unfolding contains_key lookup
  contains_key-lookup [] id entry h = cc
  contains_key-lookup ((k, e) ∷ es) id entry h = ground (arith, contains_key-lookup es id entry)
