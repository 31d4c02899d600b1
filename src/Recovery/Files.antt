-- ===== src/Recovery/Files.antt =====
-- The durable replacement of the state file, from crates/zonkey-win/src/recovery_store.rs. What the
-- calls of Windows return is a parameter. CREATE_ALWAYS empties the temporary file, WriteFile appends
-- the bytes that it reports as transferred, and MoveFileExW replaces the state file where it succeeds and
-- touches nothing where it fails.
pub mod Replacement
use zon_key.Prelude.{
  ℕ, zero, suc, ◌+◌, Bool, true, false, not, ◌||◌, ◌&&◌, Option, none, some, List, [], ◌∷◌, ◌++◌,
  length, take, drop, if◌then◌else◌,
}

-- The state file and the temporary one, where they exist.
pub record Files : Type 0 where
  pub state : Option (List ℕ)
  pub temp : Option (List ℕ)

-- What the calls of one replacement return; `transferred` by the number of the call of WriteFile, none
-- for an error.
pub record WriteResults : Type 0 where
  pub security : Bool
  pub create : Bool
  pub transferred : ℕ → Option ℕ
  pub flush : Bool
  pub close : Bool
  pub move : Bool

-- The loop, on fuel, over what is left of the bytes; with what the temporary file holds in the end.
unfoldable pub write_all : WriteResults → ℕ → ℕ → List ℕ → List ℕ → List ℕ × Bool
write_all w fuel call content [] = (content, w.flush)
write_all w zero call content (b ∷ chunk) = (content, false)
write_all w (suc fuel) call content (b ∷ chunk) = elim (w.transferred call) [
  | none ↦ (content, false)
  | some zero ↦ (content, false)
  | some (suc n) ↦ write_all w fuel (suc call) (content ++ (b ∷ take n chunk)) (drop n chunk)
]

-- The end of the replacement, after the write.
unfoldable pub replace : WriteResults → Files → List ℕ × Bool → Files × Bool
replace w files (content, written) =
    if not written || not w.close
    then (record files { temp = some content }, false)
    else if w.move
    then (record { state = some content; temp = none }, true)
    else (record files { temp = some content }, false)

unfoldable pub durable_write_user_only : WriteResults → Files → List ℕ → Files × Bool
unfolding write_all replace
durable_write_user_only w files bytes =
    if not w.security || not w.create
    then (files, false)
    else replace w files (write_all w (length bytes) 0 [] bytes)

-- `cleanup_temp_file`: whether the temporary file could be deleted, and whether it is there afterwards.
unfoldable pub cleanup_temp_file : Bool → Files → Files × Bool
cleanup_temp_file true files = (record files { temp = none }, true)
cleanup_temp_file false files = (files, elim files.temp [ none ↦ true | some content ↦ false ])
