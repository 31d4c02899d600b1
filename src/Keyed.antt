-- ===== src/Keyed.antt =====
-- `HashMap<String, V>` as an association list, whose order is not looked at; and lists of ids.
pub mod Laws
use zon_key.Prelude.{
  Bool, true, false, not, ◌&&◌, ◌||◌, Option, none, some, List, [], ◌∷◌, if◌then◌else◌, text_eq,
}
use zon_key.Text.{Str}

abbrev pub Keyed : Type 0 → Type 0
Keyed V = List (Str × V)

module _ {V : Type 0} where
  unfoldable pub lookup : Keyed V → Str → Option V
  lookup [] id = none
  lookup ((k, e) ∷ es) id = if text_eq k id then some e else lookup es id

  unfoldable pub contains_key : Keyed V → Str → Bool
  contains_key [] id = false
  contains_key ((k, e) ∷ es) id = text_eq k id || contains_key es id

  unfoldable pub remove_entry : Keyed V → Str → Keyed V
  remove_entry [] id = []
  remove_entry ((k, e) ∷ es) id = if text_eq k id then es else (k, e) ∷ remove_entry es id

  -- A key that is there gets the new value in its place.
  unfoldable pub insert_entry : Keyed V → Str → V → Keyed V
  insert_entry [] id entry = (id, entry) ∷ []
  insert_entry ((k, e) ∷ es) id entry =
      if text_eq k id then (k, entry) ∷ es else (k, e) ∷ insert_entry es id entry

  unfoldable pub keys : Keyed V → List Str
  keys [] = []
  keys ((k, e) ∷ es) = k ∷ keys es

unfoldable pub has_id : List Str → Str → Bool
has_id [] id = false
has_id (k ∷ ks) id = text_eq k id || has_id ks id

unfoldable pub remove_id : List Str → Str → List Str
remove_id [] id = []
remove_id (k ∷ ks) id = if text_eq k id then ks else k ∷ remove_id ks id

unfoldable pub all_distinct : List Str → Bool
all_distinct [] = true
all_distinct (k ∷ ks) = not (has_id ks k) && all_distinct ks
