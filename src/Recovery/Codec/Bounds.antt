-- ===== src/Recovery/Codec/Bounds.antt =====
-- When crates/zonkey-service/src/recovery_codec.rs can write a file.
use zon_key.Prelude.{
  ℕ, ◌+◌, ◌*◌, ◌≤◌, ◌≡◌, ◌↔◌, refl, none, some, List, [], ◌∷◌, ◌++◌, length, length-append, ok,
  arith, All,
}
use zon_key.Bytes.{le_bytes, length-le_bytes}
use zon_key.Text.Utf8.{as_bytes}
use zon_key.Recovery.Target.{PersistedKind, blocked, pending, PersistedTarget}
use zon_key.Recovery.Codec.{
  kind_bytes, record_bytes, max_uri_bytes, max_request_id_bytes, max_recovery_entries,
  max_recovery_state_bytes, narrow, crc32, encode_record, encode_records, file_bytes, encode,
}
use zon_key.Recovery.Codec.RoundTrip.{IsTyped, IsInBounds, length_in_bounds, encode_records-step}
use zon_key.Recovery.Codec.File.{encode-IsFile, length-file_bytes, not_more}

length-kind_bytes : (k : PersistedKind) → length (kind_bytes k) ≤ 2
unfolding kind_bytes
length-kind_bytes (blocked none) = omega arith
length-kind_bytes (blocked (some v)) = omega arith
length-kind_bytes pending = omega arith

length-record_bytes :
    (r : PersistedTarget) → IsTyped r → IsInBounds r → length (record_bytes r) ≤ 1382
unfolding record_bytes
length-record_bytes r t b =
    let uri = (length_in_bounds max_uri_bytes (as_bytes r.uri) b.uri).1 in
    let id = (length_in_bounds max_request_id_bytes (as_bytes r.request_id) b.request_id).1 in
    simp (length-append {0}, length-le_bytes, t.expected_hash, t.replacement_hash)
      (omega (arith, uri, id, length-kind_bytes r.kind))

encode_record-IsInBounds :
    (r : PersistedTarget) → IsInBounds r → encode_record r ≡ ok (record_bytes r)
unfolding encode_record narrow
encode_record-IsInBounds r b =
    let uri = (length_in_bounds max_uri_bytes (as_bytes r.uri) b.uri).1 in
    let id = (length_in_bounds max_request_id_bytes (as_bytes r.request_id) b.request_id).1 in
    rw (
      b.uri,
      b.request_id,
      not_more r.range_end r.range_start b.range,
      not_more 65535 (length (as_bytes r.uri)) (omega arith),
      not_more 65535 (length (as_bytes r.request_id)) (omega arith),
    )

encode_records-IsInBounds :
    (rs : List PersistedTarget)
    → All IsTyped rs
    → All IsInBounds rs
    → (payload : List ℕ) × (encode_records rs ≡ ok payload) × (length payload ≤ 1382 * length rs)
unfolding encode_records
encode_records-IsInBounds [] t b = ([], refl, omega arith)
encode_records-IsInBounds (r ∷ rs) (t, ts) (b, bs) =
    let (payload, e, fits) = encode_records-IsInBounds rs ts bs in
    (
      record_bytes r ++ payload,
      rw (encode_record-IsInBounds r b, e),
      omega (arith, length-append (record_bytes r) payload, length-record_bytes r t b),
    )

All-IsInBounds :
    (rs : List PersistedTarget) (payload : List ℕ)
    → encode_records rs ≡ ok payload
    → All IsInBounds rs
All-IsInBounds [] payload h = tt
All-IsInBounds (r ∷ rs) payload h =
    let (rest, e, b, same) = encode_records-step r rs payload h in (b, All-IsInBounds rs rest e)

-- Records that have the types of the source are encoded exactly when there are at most 128 of them
-- and each is in bounds: its texts are neither empty nor too long, and its range does not end
-- before it starts. The bound on the size of the file refuses nothing.
pub encode-ok_iff :
    (salt : List ℕ) (records : List PersistedTarget)
    → length salt ≡ 16
    → All IsTyped records
    → ((bytes : List ℕ) × (encode salt records ≡ ok bytes))
      ↔ ((length records ≤ max_recovery_entries) × All IsInBounds records)
unfolding encode narrow
encode-ok_iff salt records s t = (
  λ (bytes, e).
      let f = encode-IsFile salt records bytes e in
      (f.count, All-IsInBounds records f.payload f.encoded),
  λ (n, b).
      let (payload, e, fits) = encode_records-IsInBounds records t b in
      let size = length-file_bytes salt (length records) payload s in
      (
        file_bytes salt (length records) payload
            ++ le_bytes 4 (crc32 (file_bytes salt (length records) payload)),
        rw (
          not_more max_recovery_entries (length records) n,
          e,
          not_more 4294967295 (length records) (omega arith),
          not_more 4294967295 (length payload) (omega arith),
          not_more max_recovery_state_bytes (length (file_bytes salt (length records) payload) + 4)
              (omega arith),
        ),
      ),
)
