-- ===== src/Recovery/Codec/File.antt =====
-- The whole file of crates/zonkey-service/src/recovery_codec.rs, written and read back.
use zon_key.Prelude.{
  ℕ, ◌+◌, ◌-◌, ◌^◌, ◌≤◌, ◌<◌, ◌≡◌, refl, sym, ap, ◌∙◌, true, false, List, [], ◌++◌, length, take,
  drop, length-append, append_assoc, append-nil, ok, ltb, ◌==◌, text_eq_refl, arith, Result-cases,
  inl, inr, All,
}
use zon_key.Bytes.{le_bytes, length-le_bytes, take-prefix, drop-prefix}
use zon_key.Text.{is_empty}
use zon_key.Recovery.Target.{PersistedTarget}
use zon_key.Recovery.Codec.{
  recovery_state_magic, max_recovery_entries, max_recovery_state_bytes, crc32, read_fixed, read_le,
  narrow, encode_records, file_bytes, encode, decode_records, decode,
}
use zon_key.Recovery.Codec.RoundTrip.{
  read_fixed-append, read_le-le_bytes, IsTyped, decode_records-encode_records,
}

pub record IsFile (salt : List ℕ) (records : List PersistedTarget) (bytes : List ℕ) : Type 0 where
  pub payload : List ℕ
  pub encoded : encode_records records ≡ ok payload
  pub count : length records ≤ max_recovery_entries
  pub whole :
      bytes
      ≡ file_bytes salt (length records) payload
        ++ le_bytes 4 (crc32 (file_bytes salt (length records) payload))
  pub size : length (file_bytes salt (length records) payload) + 4 ≤ max_recovery_state_bytes

pub encode-IsFile :
    (salt : List ℕ) (records : List PersistedTarget) (bytes : List ℕ)
    → encode salt records ≡ ok bytes
    → IsFile salt records bytes
unfolding encode narrow
encode-IsFile salt records bytes h = elim (Result-cases (encode_records records)) [
  | inl (payload, e) ↦ record {
    payload = payload;
    encoded = e;
    count = ground arith;
    whole = ground arith;
    size = ground arith;
  }
  | inr (x, e) ↦ absurd (ground arith)
]

pub length-file_bytes :
    (salt : List ℕ) (count : ℕ) (payload : List ℕ)
    → length salt ≡ 16
    → length (file_bytes salt count payload) ≡ 36 + length payload
unfolding file_bytes
length-file_bytes salt count payload h = simp (length-append {0}, h, length-le_bytes) (omega arith)

take_front : (n : ℕ) (xs ys : List ℕ) → length ys ≡ n → take (length (xs ++ ys) - n) (xs ++ ys) ≡ xs
take_front n xs ys h =
    let e : length (xs ++ ys) - n ≡ length xs = omega (arith, length-append xs ys) in
    ap (λ k. take k (xs ++ ys)) e ∙ take-prefix xs ys

crc32-lt : (bytes : List ℕ) → crc32 bytes < 256 ^ 4
unfolding crc32
crc32-lt bytes = omega arith

same_number : (n : ℕ) → (n == n) ≡ true
same_number n = ground arith

pub not_more : (a b : ℕ) → b ≤ a → ltb a b ≡ false
not_more a b h = ground arith

module _ (salt : List ℕ) (records : List PersistedTarget) (bytes : List ℕ)
    (f : IsFile salt records bytes) (h : length salt ≡ 16) where
  abbrev front : List ℕ
  front = file_bytes salt (length records) f.payload

  abbrev checksum : List ℕ
  checksum = le_bytes 4 (crc32 front)

  abbrev tail : List ℕ
  tail = f.payload ++ checksum

  length-tail : length tail ≡ length f.payload + 4
  length-tail =
      length-append f.payload checksum ∙ ap (λ n. length f.payload + n) (length-le_bytes 4 _)

  length-bytes : length bytes ≡ length front + 4
  length-bytes =
      ap length f.whole
      ∙ length-append front checksum
      ∙ ap (λ n. length front + n) (length-le_bytes 4 _)

  read_magic :
      read_fixed 8 bytes
      ≡ ok (
        recovery_state_magic,
        le_bytes 4 2
            ++ (salt ++ (le_bytes 4 (length records) ++ (le_bytes 4 (length f.payload) ++ tail))),
      )
  unfolding file_bytes
  read_magic =
      ap (read_fixed 8) (f.whole ∙ simp append_assoc)
      ∙ read_fixed-append 8 recovery_state_magic _ refl

  checked : crc32 (take (length bytes - 4) bytes) ≡ crc32 front
  checked =
      ap crc32 (
        ap (λ b. take (length b - 4) b) f.whole ∙ take_front 4 front checksum (length-le_bytes 4 _))

  read_checksum : read_le 4 (drop (length f.payload) tail) ≡ ok (crc32 front, [])
  read_checksum =
      ap (read_le 4) (drop-prefix f.payload checksum ∙ sym (append-nil checksum))
      ∙ read_le-le_bytes 4 (crc32 front) [] (crc32-lt front)

  -- What `encode` wrote, `decode` reads back: the salt and all records, in order.
  decode_file : All IsTyped records → decode bytes ≡ ok (salt, records)
  unfolding decode is_empty
  decode_file t = rw (
    not_more max_recovery_state_bytes (length bytes) (omega (arith, length-bytes, f.size)),
    read_magic,
    text_eq_refl recovery_state_magic,
    read_le-le_bytes 4 2 _ (omega arith),
    read_fixed-append 16 salt _ h,
    read_le-le_bytes 4 (length records) _ (omega (arith, f.count)),
    not_more max_recovery_entries (length records) f.count,
    read_le-le_bytes 4 (length f.payload) _
        (omega (arith, f.size, length-file_bytes salt (length records) f.payload h)),
    ap (λ n. n == (length f.payload + 4)) length-tail,
    same_number (length f.payload + 4),
    read_checksum,
    checked,
    same_number (crc32 front),
    take-prefix f.payload checksum,
    ap (λ p. decode_records (length records) p) (sym (append-nil f.payload)),
    decode_records-encode_records records f.payload [] t f.encoded,
  )

-- A file that `encode` wrote is read back by `decode`: the salt and the records, in order, come out
-- as they went in, if they have the types that the source gives them.
pub decode-encode :
    (salt : List ℕ) (records : List PersistedTarget) (bytes : List ℕ)
    → length salt ≡ 16
    → All IsTyped records
    → encode salt records ≡ ok bytes
    → decode bytes ≡ ok (salt, records)
decode-encode salt records bytes h t e =
    decode_file salt records bytes (encode-IsFile salt records bytes e) h t
