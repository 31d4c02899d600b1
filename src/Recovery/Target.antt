-- ===== src/Recovery/Target.antt =====
-- Targets whose outcome is uncertain, in memory (crates/zonkey-service/src/transport.rs) and as they
-- are persisted (crates/zonkey-service/src/recovery_codec.rs). A hash is the list of its 32 bytes.
use zon_key.Prelude.{
  ℕ, ◌+◌, ◌-◌, ◌/◌, ◌%◌, Bool, false, Option, none, some, List, [], ◌∷◌, ◌++◌, ltb, if◌then◌else◌,
  text_eq,
}
use zon_key.Text.{Str, codes}
use zon_key.Text.Utf8.{as_bytes}
use zon_key.Recovery.Sha256.{sha256}

pub data RecoveryVerdict : Type 0 where
  applied_acknowledged not_applied conflict_human_review : RecoveryVerdict

pub data PersistedKind : Type 0 where
  blocked : Option RecoveryVerdict → PersistedKind
  pending : PersistedKind

pub record PersistedTarget : Type 0 where
  pub uri : Str
  pub range_start : ℕ
  pub range_end : ℕ
  pub expected_hash : List ℕ
  pub replacement_hash : List ℕ
  pub kind : PersistedKind
  pub generation : ℕ
  pub document_epoch : ℕ
  pub request_id : Str

unfoldable pub salted_hash : List ℕ → Str → List ℕ
salted_hash salt text = sha256 (salt ++ as_bytes text)

pub data RecoveryText : Type 0 where
  plain : Str → RecoveryText
  hashed : List ℕ → RecoveryText

unfoldable pub matches : RecoveryText → Option (List ℕ) → Str → Bool
matches (plain text) salt live = text_eq text live
matches (hashed hash) none live = false
matches (hashed hash) (some salt) live = text_eq (salted_hash salt live) hash

unfoldable pub display : RecoveryText → Str
display (plain text) = text
display (hashed hash) = codes "<hashed>"

pub record BlockedTarget : Type 0 where
  pub session_id : Str
  pub uri : Str
  pub expected : RecoveryText
  pub replacement : RecoveryText
  pub range_start : ℕ
  pub range_end : ℕ
  pub state : Option (RecoveryVerdict × Bool)
  pub generation : ℕ
  pub document_epoch : ℕ

pub record RecoveryDescriptor : Type 0 where
  pub request_id : Str
  pub uri : Str
  pub range_start : ℕ
  pub range_end : ℕ
  pub expected : Str
  pub replacement : Str
  pub generation : ℕ
  pub document_epoch : ℕ

unfoldable pub hex_digit : ℕ → ℕ
hex_digit d = if ltb d 10 then b'0' + d else b'a' + d - 10

-- `{:02x}` for each byte
unfoldable pub hex : List ℕ → Str
unfolding hex_digit
hex [] = []
hex (b ∷ bs) = hex_digit (b / 16) ∷ hex_digit (b % 16) ∷ hex bs
