-- ===== src/Token.antt =====
-- crates/zonkey-token/src/lib.rs: the token, and edits by grapheme clusters. The segmentation into
-- grapheme clusters is the third-party crate unicode-segmentation, the parameter `graphemes`.
pub mod Edits
use zon_key.Prelude.{
  ℕ, suc, ◌-◌, Bool, ◌&&◌, Option, none, some, List, [], ◌∷◌, ◌++◌, Result, ok, err, take, drop,
  length, text_eq, if◌then◌else◌,
}
use zon_key.Text.{Str, is_ascii, is_empty, concat}
use zon_key.Types.{EditPlan}

pub record TokenState : Type 0 where
  pub raw_ascii : Str
  pub rendered : Str

abbrev pub new : TokenState
new = record { raw_ascii = []; rendered = [] }

unfoldable pub is_empty_token : TokenState → Bool
unfolding is_empty
is_empty_token t = is_empty t.raw_ascii && is_empty t.rendered

-- A rejected character leaves the token alone.
unfoldable pub push_raw : TokenState → ℕ → TokenState × Result ℕ (Unit {0})
unfolding is_ascii
push_raw t c =
    if is_ascii c then (record t { raw_ascii = t.raw_ascii ++ c ∷ [] }, ok tt) else (t, err c)

-- `Vec::pop` and `String::pop`: what remains, and the last element.
unfoldable pub pop_last {ℓ} : {A : Type ℓ} → List A → List A × Option A
pop_last [] = ([], none)
pop_last (x ∷ []) = ([], some x)
pop_last (x ∷ y ∷ ys) = let (rest, last) = pop_last (y ∷ ys) in (x ∷ rest, last)

unfoldable pub pop_raw : TokenState → TokenState × Option ℕ
unfolding pop_last
pop_raw t = let (rest, last) = pop_last t.raw_ascii in (record t { raw_ascii = rest }, last)

unfoldable pub clear : TokenState → TokenState
clear t = record { raw_ascii = []; rendered = [] }

-- `zip`, `take_while` and `count`: the number of leading clusters in common.
unfoldable pub common_prefix : List Str → List Str → ℕ
common_prefix [] ys = 0
common_prefix (x ∷ xs) [] = 0
common_prefix (x ∷ xs) (y ∷ ys) = if text_eq x y then suc (common_prefix xs ys) else 0

module _ (graphemes : Str → List Str) where
  unfoldable pub grapheme_count : Str → ℕ
  grapheme_count text = length (graphemes text)

  -- The text that is left, and the number of clusters that went.
  unfoldable pub delete_last_graphemes : Str → ℕ → Str × ℕ
  unfolding grapheme_count
  delete_last_graphemes text count =
      let total = grapheme_count text in
      let keep = total - count in (concat (take keep (graphemes text)), total - keep)

  unfoldable pub edit_plan_between : Str → Str → EditPlan
  edit_plan_between before after =
      let common = common_prefix (graphemes before) (graphemes after) in
      record {
        delete_graphemes = length (graphemes before) - common;
        insert_text = concat (drop common (graphemes after));
      }

  unfoldable pub apply_edit_plan : Str → EditPlan → Str
  unfolding delete_last_graphemes
  apply_edit_plan text plan =
      (delete_last_graphemes text plan.delete_graphemes).0 ++ plan.insert_text

  unfoldable pub replace_rendered : TokenState → Str → TokenState × EditPlan
  replace_rendered t text = (record t { rendered = text }, edit_plan_between t.rendered text)
