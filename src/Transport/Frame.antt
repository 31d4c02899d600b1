-- ===== src/Transport/Frame.antt =====
-- Frames of crates/zonkey-service/src/transport.rs: a length in four bytes, least first, and the bytes
-- of a text.
use zon_key.Prelude.{
  ℕ, zero, suc, ◌+◌, ◌*◌, ◌/◌, ◌%◌, ◌≤◌, ◌<◌, ◌≡◌, refl, subst, sym, ap, ◌∙◌, true, false, Option,
  none, some, List, [], ◌∷◌, ◌++◌, length, length-append, length-take, take, drop, Result, ok, err,
  ltb, ◌==◌, if◌then◌else◌, arith,
}
use zon_key.Text.{Str, is_empty, byte_len, all, utf8_width}
use zon_key.Bytes.{take-prefix, drop-prefix}
use zon_key.Text.Utf8.{is_scalar, as_bytes, from_utf8, from_utf8-as_bytes, length-as_bytes}

abbrev pub max_frame_bytes : ℕ
max_frame_bytes = 65536

abbrev pub frame_header_bytes : ℕ
frame_header_bytes = 4

pub data FrameError : Type 0 where
  empty_frame oversized_frame invalid_utf8 : FrameError

pub record Frame : Type 0 where
  pub payload : Str

-- `u32::to_le_bytes`
unfoldable pub to_le_bytes : ℕ → List ℕ
to_le_bytes n = n % 256 ∷ n / 256 % 256 ∷ n / 65536 % 256 ∷ n / 16777216 % 256 ∷ []

-- `u32::from_le_bytes`
unfoldable pub from_le_bytes : ℕ → ℕ → ℕ → ℕ → ℕ
from_le_bytes a b c d = a + b * 256 + c * 65536 + d * 16777216

unfoldable pub encode_frame : Str → Result FrameError (List ℕ)
encode_frame payload =
    if is_empty payload
    then err empty_frame
    else if ltb max_frame_bytes (byte_len payload)
    then err oversized_frame
    else ok (to_le_bytes (byte_len payload) ++ as_bytes payload)

-- What follows the length: the bytes that remain in the buffer, and the result. `buffer` is all of it,
-- and `bytes` is what comes after the header.
unfoldable pub decode_payload : List ℕ → List ℕ → ℕ → List ℕ × Result FrameError (Option Frame)
decode_payload buffer bytes n =
    if n == 0
    then (buffer, err empty_frame)
    else if ltb max_frame_bytes n
    then (buffer, err oversized_frame)
    else if ltb (length buffer) (frame_header_bytes + n)
    then (buffer, ok none)
    else elim (from_utf8 (take n bytes)) [
      | none ↦ (buffer, err invalid_utf8)
      | some text ↦ (drop n bytes, ok (some (record { payload = text })))
    ]

unfoldable pub decode_frame : List ℕ → List ℕ × Result FrameError (Option Frame)
decode_frame (a ∷ b ∷ c ∷ d ∷ bytes) =
    decode_payload (a ∷ b ∷ c ∷ d ∷ bytes) bytes (from_le_bytes a b c d)
decode_frame buffer = (buffer, ok none)

from_le_bytes-to_le_bytes :
    (n : ℕ)
    → n ≤ max_frame_bytes
    → from_le_bytes (n % 256) (n / 256 % 256) (n / 65536 % 256) (n / 16777216 % 256) ≡ n
unfolding from_le_bytes
from_le_bytes-to_le_bytes n h = omega arith

-- What an encoded frame is.
record IsFrame (payload : Str) (frame : List ℕ) : Type 0 where
  bytes : frame ≡ to_le_bytes (byte_len payload) ++ as_bytes payload
  some_bytes : (byte_len payload == 0) ≡ false
  bounded : byte_len payload ≤ max_frame_bytes

encode_frame-IsFrame :
    (payload : Str) (frame : List ℕ) → encode_frame payload ≡ ok frame → IsFrame payload frame
unfolding encode_frame is_empty byte_len utf8_width
encode_frame-IsFrame [] frame h = absurd (cc)
encode_frame-IsFrame (c ∷ cs) frame h = ground arith

not_less : (a b : ℕ) → b ≤ a → ltb a b ≡ false
not_less a b h = ground arith

decode_payload-whole :
    (header rest : List ℕ) (payload : Str)
    → length header ≡ frame_header_bytes
    → all is_scalar payload ≡ true
    → (byte_len payload == 0) ≡ false
    → byte_len payload ≤ max_frame_bytes
    → decode_payload
        (header ++ (as_bytes payload ++ rest))
        (as_bytes payload ++ rest)
        (byte_len payload)
      ≡ (rest, ok (some (record { payload = payload })))
unfolding decode_payload
decode_payload-whole header rest payload h v k m =
    let n : length (as_bytes payload) ≡ byte_len payload = length-as_bytes payload in
    let t : take (byte_len payload) (as_bytes payload ++ rest) ≡ as_bytes payload =
      ap (λ l. take l (as_bytes payload ++ rest)) (sym n) ∙ take-prefix (as_bytes payload) rest in
    let d : drop (byte_len payload) (as_bytes payload ++ rest) ≡ rest =
      ap (λ l. drop l (as_bytes payload ++ rest)) (sym n) ∙ drop-prefix (as_bytes payload) rest in
    let long : frame_header_bytes + byte_len payload
        ≤ length (header ++ (as_bytes payload ++ rest)) =
      omega (
        arith,
        n,
        h,
        length-append header (as_bytes payload ++ rest),
        length-append (as_bytes payload) rest,
      ) in
    rw (
      k,
      not_less max_frame_bytes (byte_len payload) m,
      not_less _ _ long,
      t,
      from_utf8-as_bytes payload v,
      d,
    )

-- A frame that was encoded, of a payload of scalar values, is decoded from the front of the buffer,
-- whatever follows it: the payload comes back, and what follows remains.
pub decode_frame-encode_frame :
    (payload : Str) (frame rest : List ℕ)
    → all is_scalar payload ≡ true
    → encode_frame payload ≡ ok frame
    → decode_frame (frame ++ rest) ≡ (rest, ok (some (record { payload = payload })))
unfolding decode_frame to_le_bytes
decode_frame-encode_frame payload frame rest v h =
    let f = encode_frame-IsFrame payload frame h in
    rw (f.bytes, from_le_bytes-to_le_bytes (byte_len payload) f.bounded)
      (decode_payload-whole (to_le_bytes (byte_len payload)) rest payload refl v f.some_bytes
        f.bounded)

decode_payload-part :
    (header bytes : List ℕ) (n : ℕ)
    → length header ≡ frame_header_bytes
    → (n == 0) ≡ false
    → n ≤ max_frame_bytes
    → length bytes < n
    → decode_payload (header ++ bytes) bytes n ≡ (header ++ bytes, ok none)
unfolding decode_payload
decode_payload-part header bytes n h k m l = ground (arith, length-append header bytes)

-- Fewer bytes than a whole frame are left in the buffer, and no frame comes out.
pub decode_frame-part :
    (payload : Str) (frame : List ℕ) (n : ℕ)
    → encode_frame payload ≡ ok frame
    → n < length frame
    → decode_frame (take n frame) ≡ (take n frame, ok none)
unfolding decode_frame to_le_bytes
decode_frame-part payload frame n h l =
    let f = encode_frame-IsFrame payload frame h in
    rw f.bytes (
      cut (as_bytes payload) n (rw (← length-as_bytes payload) refl) f.some_bytes f.bounded
        (subst (λ x. n < length x) f.bytes l))
  where
    cut :
        (bytes : List ℕ) (m : ℕ)
        → length bytes ≡ byte_len payload
        → (byte_len payload == 0) ≡ false
        → byte_len payload ≤ max_frame_bytes
        → m < length (to_le_bytes (byte_len payload) ++ bytes)
        → decode_frame (take m (to_le_bytes (byte_len payload) ++ bytes))
          ≡ (take m (to_le_bytes (byte_len payload) ++ bytes), ok none)
    cut bytes zero e k b u = refl
    cut bytes (suc zero) e k b u = refl
    cut bytes (suc (suc zero)) e k b u = refl
    cut bytes (suc (suc (suc zero))) e k b u = refl
    cut bytes (suc (suc (suc (suc m)))) e k b u =
        rw (from_le_bytes-to_le_bytes (byte_len payload) b) (
          decode_payload-part (to_le_bytes (byte_len payload)) (take m bytes) (byte_len payload)
            refl k b (omega (arith, length-take m bytes)))
