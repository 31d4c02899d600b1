-- ===== src/Recovery/Codec.antt =====
-- The format of crates/zonkey-service/src/recovery_codec.rs. Where the source reads at an offset into a
-- slice, the bytes from there on are passed along; an offset does not overflow, since it never passes
-- the end of the slice by more than a `u32`.
pub mod RoundTrip
pub mod File
pub mod Bounds
use Prim.Native.Nat.{bit_xor}
use zon_key.Prelude.{
  ℕ, zero, suc, ◌+◌, ◌-◌, ◌*◌, ◌/◌, ◌%◌, Bool, true, false, not, ◌||◌, Option, none, some, List, [],
  ◌∷◌, ◌++◌, length, take, drop, Result, ok, err, ◌>>=◌, ◌>>◌, refuse, ok_or, ltb, ◌==◌,
  if◌then◌else◌, text_eq,
}
use zon_key.Bytes.{le_bytes, le_value}
use zon_key.Text.{Str, codes, is_empty}
use zon_key.Text.Utf8.{as_bytes, from_utf8}
use zon_key.Recovery.Target.{
  RecoveryVerdict, applied_acknowledged, not_applied, conflict_human_review, PersistedKind, blocked,
  pending, PersistedTarget,
}

abbrev pub recovery_state_magic : List ℕ
recovery_state_magic = codes "ZNKYREC1"

abbrev pub recovery_state_version : ℕ
recovery_state_version = 2

abbrev pub max_recovery_entries : ℕ
max_recovery_entries = 128

abbrev pub max_recovery_state_bytes : ℕ
max_recovery_state_bytes = 262144

abbrev pub salt_bytes : ℕ
salt_bytes = 16

abbrev pub max_uri_bytes : ℕ
max_uri_bytes = 1024

abbrev pub max_request_id_bytes : ℕ
max_request_id_bytes = 256

pub data RecoveryCodecError : Type 0 where
  truncated bad_magic unknown_version too_many_entries oversized_file : RecoveryCodecError
  oversized_record malformed checksum_mismatch encode_overflow : RecoveryCodecError

-- One of the eight rounds for a byte.
unfoldable pub crc_round : ℕ → ℕ
crc_round crc = if crc % 2 == 0 then crc / 2 else bit_xor (crc / 2) 0xedb88320

unfoldable pub crc_rounds : ℕ → ℕ → ℕ
unfolding crc_round
crc_rounds zero crc = crc
crc_rounds (suc n) crc = crc_rounds n (crc_round crc)

unfoldable pub crc_bytes : ℕ → List ℕ → ℕ
unfolding crc_rounds
crc_bytes crc [] = crc
crc_bytes crc (b ∷ bs) = crc_bytes (crc_rounds 8 (bit_xor crc b)) bs

unfoldable pub crc32 : List ℕ → ℕ
unfolding crc_bytes
crc32 bytes = 0xffffffff - crc_bytes 0xffffffff bytes

-- `get(offset..offset + n)`: the bytes, and those after them.
unfoldable pub read_fixed : ℕ → List ℕ → Result RecoveryCodecError (List ℕ × List ℕ)
read_fixed n bytes = if ltb (length bytes) n then err truncated else ok (take n bytes, drop n bytes)

unfoldable pub read_le : ℕ → List ℕ → Result RecoveryCodecError (ℕ × List ℕ)
unfolding read_fixed
read_le n bytes = do (value, rest) ← read_fixed n bytes; ok (le_value value, rest)

abbrev pub read_u16 : List ℕ → Result RecoveryCodecError (ℕ × List ℕ)
read_u16 = read_le 2

abbrev pub read_u32 : List ℕ → Result RecoveryCodecError (ℕ × List ℕ)
read_u32 = read_le 4

abbrev pub read_u64 : List ℕ → Result RecoveryCodecError (ℕ × List ℕ)
read_u64 = read_le 8

-- `u16::try_from` and `u32::try_from`
unfoldable pub narrow : ℕ → ℕ → Result RecoveryCodecError ℕ
narrow max n = if ltb max n then err encode_overflow else ok n

unfoldable pub verdict_byte : RecoveryVerdict → ℕ
verdict_byte applied_acknowledged = 0
verdict_byte not_applied = 1
verdict_byte conflict_human_review = 2

unfoldable pub kind_bytes : PersistedKind → List ℕ
unfolding verdict_byte
kind_bytes (blocked none) = 0 ∷ []
kind_bytes (blocked (some v)) = 1 ∷ verdict_byte v ∷ []
kind_bytes pending = 2 ∷ []

-- What is pushed for a record that is in bounds.
unfoldable pub record_bytes : PersistedTarget → List ℕ
record_bytes r =
    le_bytes 2 (length (as_bytes r.uri))
    ++ (as_bytes r.uri
        ++ (le_bytes 8 r.range_start
            ++ (le_bytes 8 r.range_end
                ++ (r.expected_hash
                    ++ (r.replacement_hash
                        ++ (kind_bytes r.kind
                            ++ (le_bytes 8 r.generation
                                ++ (le_bytes 8 r.document_epoch
                                    ++ (le_bytes 2 (length (as_bytes r.request_id))
                                        ++ as_bytes r.request_id)))))))))

-- `is_empty() || len() > max`
unfoldable pub out_of_bounds : ℕ → List ℕ → Bool
out_of_bounds max bytes = is_empty bytes || ltb max (length bytes)

-- The body of the loop over the records.
unfoldable pub encode_record : PersistedTarget → Result RecoveryCodecError (List ℕ)
unfolding out_of_bounds
encode_record r = do
  refuse (out_of_bounds max_uri_bytes (as_bytes r.uri)) encode_overflow
  refuse (out_of_bounds max_request_id_bytes (as_bytes r.request_id)) encode_overflow
  refuse (ltb r.range_end r.range_start) encode_overflow
  uri_len ← narrow 65535 (length (as_bytes r.uri))
  request_id_len ← narrow 65535 (length (as_bytes r.request_id))
  ok (record_bytes r)

unfoldable pub encode_records : List PersistedTarget → Result RecoveryCodecError (List ℕ)
encode_records [] = ok []
encode_records (r ∷ rs) = do bytes ← encode_record r; rest ← encode_records rs; ok (bytes ++ rest)

-- The file up to the checksum.
unfoldable pub file_bytes : List ℕ → ℕ → List ℕ → List ℕ
file_bytes salt count payload =
    recovery_state_magic
    ++ (le_bytes 4 recovery_state_version
        ++ (salt ++ (le_bytes 4 count ++ (le_bytes 4 (length payload) ++ payload))))

unfoldable pub encode : List ℕ → List PersistedTarget → Result RecoveryCodecError (List ℕ)
encode salt records = do
  refuse (ltb max_recovery_entries (length records)) encode_overflow
  payload ← encode_records records
  count ← narrow 4294967295 (length records)
  payload_len ← narrow 4294967295 (length payload)
  let file = file_bytes salt count payload
  refuse (ltb max_recovery_state_bytes (length file + 4)) encode_overflow
  ok (file ++ le_bytes 4 (crc32 file))

-- A slice of `n` bytes as a text.
unfoldable pub read_text : ℕ → List ℕ → Result RecoveryCodecError (Str × List ℕ)
unfolding read_fixed
read_text n bytes = do
  (value, rest) ← read_fixed n bytes
  text ← ok_or (from_utf8 value) malformed
  ok (text, rest)

unfoldable pub verdict_of_byte : ℕ → Result RecoveryCodecError RecoveryVerdict
verdict_of_byte code =
    if code == 0
    then ok applied_acknowledged
    else if code == 1
    then ok not_applied
    else if code == 2
    then ok conflict_human_review
    else err malformed

-- The byte of the state, and that of the verdict where there is one.
unfoldable pub read_kind : List ℕ → Result RecoveryCodecError (PersistedKind × List ℕ)
unfolding verdict_of_byte
read_kind [] = err truncated
read_kind (state ∷ rest) =
    if state == 0
    then ok (blocked none, rest)
    else if state == 1
    then elim rest [
      | [] ↦ err truncated
      | code ∷ rest' ↦ do verdict ← verdict_of_byte code; ok (blocked (some verdict), rest')
    ]
    else if state == 2
    then ok (pending, rest)
    else err malformed

unfoldable pub decode_record : List ℕ → Result RecoveryCodecError (PersistedTarget × List ℕ)
decode_record bytes = do
  (uri_len, r1) ← read_u16 bytes
  refuse (uri_len == 0 || ltb max_uri_bytes uri_len) oversized_record
  (uri, r2) ← read_text uri_len r1
  (range_start, r3) ← read_u64 r2
  (range_end, r4) ← read_u64 r3
  (expected_hash, r5) ← read_fixed 32 r4
  (replacement_hash, r6) ← read_fixed 32 r5
  (kind, r7) ← read_kind r6
  (generation, r8) ← read_u64 r7
  (document_epoch, r9) ← read_u64 r8
  (request_id_len, r10) ← read_u16 r9
  refuse (request_id_len == 0 || ltb max_request_id_bytes request_id_len) oversized_record
  (request_id, r11) ← read_text request_id_len r10
  ok (
    record {
      uri = uri;
      range_start = range_start;
      range_end = range_end;
      expected_hash = expected_hash;
      replacement_hash = replacement_hash;
      kind = kind;
      generation = generation;
      document_epoch = document_epoch;
      request_id = request_id;
    },
    r11,
  )

unfoldable pub decode_records :
    ℕ → List ℕ → Result RecoveryCodecError (List PersistedTarget × List ℕ)
decode_records zero bytes = ok ([], bytes)
decode_records (suc count) bytes = do
  (record', rest) ← decode_record bytes
  (records, left) ← decode_records count rest
  ok (record' ∷ records, left)

unfoldable pub decode : List ℕ → Result RecoveryCodecError (List ℕ × List PersistedTarget)
decode bytes = do
  refuse (ltb max_recovery_state_bytes (length bytes)) oversized_file
  (magic, r1) ← read_fixed 8 bytes
  refuse (not (text_eq magic recovery_state_magic)) bad_magic
  (version, r2) ← read_u32 r1
  refuse (not (version == recovery_state_version)) unknown_version
  (salt, r3) ← read_fixed salt_bytes r2
  (count, r4) ← read_u32 r3
  refuse (ltb max_recovery_entries count) too_many_entries
  (payload_len, r5) ← read_u32 r4
  refuse (not (length r5 == payload_len + 4)) malformed
  (stored_crc, r6) ← read_u32 (drop payload_len r5)
  refuse (not (crc32 (take (length bytes - 4) bytes) == stored_crc)) checksum_mismatch
  (records, left) ← decode_records count (take payload_len r5)
  refuse (not (is_empty left)) malformed
  ok (salt, records)
