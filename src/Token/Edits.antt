-- ===== src/Token/Edits.antt =====
-- Edits of crates/zonkey-token/src/lib.rs against the texts that they lead between.
use zon_key.Prelude.{
  ℕ, ◌-◌, ◌≤◌, ◌≡◌, refl, sym, ap, ◌∙◌, List, [], ◌∷◌, ◌++◌, arith, take, drop, length,
  take-append-drop, text_eq→eq, append_assoc, some,
}
use zon_key.Text.{Str, concat}
use zon_key.Token.{common_prefix, edit_plan_between, apply_edit_plan, pop_last}

pub concat-append : (xs ys : List Str) → concat (xs ++ ys) ≡ concat xs ++ concat ys
unfolding concat
concat-append [] ys = refl
concat-append (x ∷ xs) ys = rw (concat-append xs ys) (sym (append_assoc x (concat xs) (concat ys)))

common_prefix-take :
    (xs ys : List Str) → take (common_prefix xs ys) xs ≡ take (common_prefix xs ys) ys
unfolding common_prefix
common_prefix-take [] [] = refl
common_prefix-take [] (y ∷ ys) = refl
common_prefix-take (x ∷ xs) [] = refl
common_prefix-take (x ∷ xs) (y ∷ ys) = ground (arith, text_eq→eq x y, common_prefix-take xs ys)

common_prefix-le : (xs ys : List Str) → common_prefix xs ys ≤ length xs
unfolding common_prefix
common_prefix-le [] ys = omega arith
common_prefix-le (x ∷ xs) [] = omega arith
common_prefix-le (x ∷ xs) (y ∷ ys) = ground (arith, common_prefix-le xs ys)

sub_sub : (n m : ℕ) → m ≤ n → n - (n - m) ≡ m
sub_sub n m h = omega arith

-- A character more at the end is what `pop` takes off.
pub pop_last-snoc {ℓ} : {A : Type ℓ} (xs : List A) (a : A) → pop_last (xs ++ a ∷ []) ≡ (xs, some a)
unfolding pop_last
pop_last-snoc [] a = refl
pop_last-snoc (x ∷ []) a = refl
pop_last-snoc (x ∷ y ∷ ys) a = rw (pop_last-snoc (y ∷ ys) a)

module _ (graphemes : Str → List Str) (join_graphemes : (s : Str) → concat (graphemes s) ≡ s) where
  -- Applying the plan between two texts to the first gives the second, if the grapheme clusters of
  -- a text make up the text.
  pub apply_edit_plan-edit_plan_between :
      (before after : Str)
      → apply_edit_plan graphemes before (edit_plan_between graphemes before after) ≡ after
  unfolding apply_edit_plan edit_plan_between
  apply_edit_plan-edit_plan_between before after =
      let bs : List Str = graphemes before in
      let as' : List Str = graphemes after in
      let n : ℕ = common_prefix bs as' in
      rw (sub_sub (length bs) n (common_prefix-le bs as'), common_prefix-take bs as')
        (sym (concat-append (take n as') (drop n as'))
          ∙ ap concat (take-append-drop n as')
          ∙ join_graphemes after)
