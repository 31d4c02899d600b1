-- ===== src/Recovery/Codec/RoundTrip.antt =====
-- What crates/zonkey-service/src/recovery_codec.rs reads back of what it wrote.
use zon_key.Prelude.{
  ℕ, ◌^◌, ◌≤◌, ◌<◌, ◌≡◌, refl, subst, true, false, ◌||◌, none, some, List, [], ◌∷◌, ◌++◌, length,
  length-append, append_assoc, ok, ltb, ◌==◌, arith, Result-cases, inl, inr, All,
}
use zon_key.Bytes.{le_bytes, length-le_bytes, le_value-le_bytes, take-prefix, drop-prefix}
use zon_key.Text.{Str, is_empty, all}
use zon_key.Text.Utf8.{is_scalar, as_bytes, from_utf8-as_bytes}
use zon_key.Recovery.Target.{PersistedKind, blocked, pending, PersistedTarget}
use zon_key.Recovery.Codec.{
  max_uri_bytes, max_request_id_bytes, read_fixed, read_le, read_text, read_kind, narrow,
  verdict_byte, kind_bytes, record_bytes, out_of_bounds, encode_record, encode_records,
  decode_record, decode_records,
}

pub read_fixed-append :
    (n : ℕ) (xs rest : List ℕ) → length xs ≡ n → read_fixed n (xs ++ rest) ≡ ok (xs, rest)
unfolding read_fixed
read_fixed-append n xs rest h =
    subst (λ k. read_fixed k (xs ++ rest) ≡ ok (xs, rest)) h
      (ground (arith, length-append xs rest, take-prefix xs rest, drop-prefix xs rest))

pub read_le-le_bytes :
    (k n : ℕ) (rest : List ℕ) → n < 256 ^ k → read_le k (le_bytes k n ++ rest) ≡ ok (n, rest)
unfolding read_le
read_le-le_bytes k n rest h =
    rw (read_fixed-append k (le_bytes k n) rest (length-le_bytes k n), le_value-le_bytes k n h)

read_text-as_bytes :
    (text : Str) (rest : List ℕ)
    → all is_scalar text ≡ true
    → read_text (length (as_bytes text)) (as_bytes text ++ rest) ≡ ok (text, rest)
unfolding read_text
read_text-as_bytes text rest h = rw (
  read_fixed-append (length (as_bytes text)) (as_bytes text) rest refl,
  from_utf8-as_bytes text h,
)

read_kind-kind_bytes :
    (kind : PersistedKind) (rest : List ℕ) → read_kind (kind_bytes kind ++ rest) ≡ ok (kind, rest)
unfolding read_kind kind_bytes verdict_byte
read_kind-kind_bytes (blocked none) rest = refl
read_kind-kind_bytes (blocked (some v)) rest = ground arith
read_kind-kind_bytes pending rest = refl

abbrev pub IsU64 : ℕ → Type 0
IsU64 n = n < 256 ^ 8

-- What the types of the source say of a record: its texts are of `char`s, its hashes of 32 bytes, and
-- its numbers of 64 bits.
pub record IsTyped (r : PersistedTarget) : Type 0 where
  pub uri : all is_scalar r.uri ≡ true
  pub request_id : all is_scalar r.request_id ≡ true
  pub expected_hash : length r.expected_hash ≡ 32
  pub replacement_hash : length r.replacement_hash ≡ 32
  pub range_start : IsU64 r.range_start
  pub range_end : IsU64 r.range_end
  pub generation : IsU64 r.generation
  pub document_epoch : IsU64 r.document_epoch

-- The bounds that `encode` asks of a record.
pub record IsInBounds (r : PersistedTarget) : Type 0 where
  pub uri : out_of_bounds max_uri_bytes (as_bytes r.uri) ≡ false
  pub request_id : out_of_bounds max_request_id_bytes (as_bytes r.request_id) ≡ false
  pub range : r.range_start ≤ r.range_end

pub length_in_bounds :
    (max : ℕ) (bytes : List ℕ)
    → out_of_bounds max bytes ≡ false
    → ((length bytes == 0 || ltb max (length bytes)) ≡ false) × (length bytes ≤ max)
unfolding out_of_bounds is_empty
length_in_bounds max [] h = absurd (cc)
length_in_bounds max (b ∷ bs) h = ground arith

record_bytes-append :
    (r : PersistedTarget) (rest : List ℕ)
    → record_bytes r ++ rest
      ≡ le_bytes 2 (length (as_bytes r.uri))
        ++ (as_bytes r.uri
            ++ (le_bytes 8 r.range_start
                ++ (le_bytes 8 r.range_end
                    ++ (r.expected_hash
                        ++ (r.replacement_hash
                            ++ (kind_bytes r.kind
                                ++ (le_bytes 8 r.generation
                                    ++ (le_bytes 8 r.document_epoch
                                        ++ (le_bytes 2 (length (as_bytes r.request_id))
                                            ++ (as_bytes r.request_id ++ rest))))))))))
unfolding record_bytes
record_bytes-append r rest = simp append_assoc

pub decode_record-record_bytes :
    (r : PersistedTarget) (rest : List ℕ)
    → IsTyped r
    → IsInBounds r
    → decode_record (record_bytes r ++ rest) ≡ ok (r, rest)
unfolding decode_record
decode_record-record_bytes r rest t b =
    let (some_uri, uri_fits) = length_in_bounds max_uri_bytes (as_bytes r.uri) b.uri in
    let (some_id, id_fits) =
      length_in_bounds max_request_id_bytes (as_bytes r.request_id) b.request_id in
    rw (
      record_bytes-append r rest,
      read_le-le_bytes 2 (length (as_bytes r.uri)) _ (omega arith),
      some_uri,
      read_text-as_bytes r.uri _ t.uri,
      read_le-le_bytes 8 r.range_start _ t.range_start,
      read_le-le_bytes 8 r.range_end _ t.range_end,
      read_fixed-append 32 r.expected_hash _ t.expected_hash,
      read_fixed-append 32 r.replacement_hash _ t.replacement_hash,
      read_kind-kind_bytes r.kind _,
      read_le-le_bytes 8 r.generation _ t.generation,
      read_le-le_bytes 8 r.document_epoch _ t.document_epoch,
      read_le-le_bytes 2 (length (as_bytes r.request_id)) _ (omega arith),
      some_id,
      read_text-as_bytes r.request_id rest t.request_id,
    )

pub encode_record-ok :
    (r : PersistedTarget) (bytes : List ℕ)
    → encode_record r ≡ ok bytes
    → IsInBounds r × (bytes ≡ record_bytes r)
unfolding encode_record narrow
encode_record-ok r bytes h = ground arith

-- What the loop over the records leaves, where it succeeds.
pub encode_records-step :
    (r : PersistedTarget) (rs : List PersistedTarget) (payload : List ℕ)
    → encode_records (r ∷ rs) ≡ ok payload
    → (rest : List ℕ) × (encode_records rs ≡ ok rest)
      × IsInBounds r
      × (payload ≡ record_bytes r ++ rest)
unfolding encode_records
encode_records-step r rs payload h = elim (Result-cases (encode_record r)) [
  | inl (bytes, e) ↦ elim (Result-cases (encode_records rs)) [
    | inl (rest, f) ↦
        let (b, same) = encode_record-ok r bytes e in (rest, f, b, ground (arith, same))
    | inr (x, f) ↦ absurd (ground arith)
  ]
  | inr (x, e) ↦ absurd (ground arith)
]

pub decode_records-encode_records :
    (rs : List PersistedTarget) (payload rest : List ℕ)
    → All IsTyped rs
    → encode_records rs ≡ ok payload
    → decode_records (length rs) (payload ++ rest) ≡ ok (rs, rest)
unfolding decode_records encode_records
decode_records-encode_records [] payload rest t h = ground arith
decode_records-encode_records (r ∷ rs) payload rest (t, ts) h =
    let (left, f, b, same) = encode_records-step r rs payload h in
    rw (
      same,
      append_assoc (record_bytes r) left rest,
      decode_record-record_bytes r (left ++ rest) t b,
      decode_records-encode_records rs left rest ts f,
    )
