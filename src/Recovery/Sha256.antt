-- ===== src/Recovery/Sha256.antt =====
-- SHA-256 of crates/zonkey-service/src/recovery_codec.rs. A `u32` is a number below 2^32, and a list of
-- bytes is a list of numbers below 256.
pub mod Padding
use Prim.Native.Nat.{bit_and, bit_xor}
use zon_key.Prelude.{
  ℕ, zero, suc, ◌+◌, ◌-◌, ◌*◌, ◌/◌, ◌%◌, ◌^◌, List, [], ◌∷◌, ◌++◌, length, get_or, take, drop,
  reverse, ◌==◌, if◌then◌else◌, true, false,
}

abbrev pub round_constants : List ℕ
round_constants =
    0x428a2f98 ∷ 0x71374491 ∷ 0xb5c0fbcf ∷ 0xe9b5dba5 ∷ 0x3956c25b ∷ 0x59f111f1 ∷ 0x923f82a4
    ∷ 0xab1c5ed5 ∷ 0xd807aa98 ∷ 0x12835b01 ∷ 0x243185be ∷ 0x550c7dc3 ∷ 0x72be5d74 ∷ 0x80deb1fe
    ∷ 0x9bdc06a7 ∷ 0xc19bf174 ∷ 0xe49b69c1 ∷ 0xefbe4786 ∷ 0x0fc19dc6 ∷ 0x240ca1cc ∷ 0x2de92c6f
    ∷ 0x4a7484aa ∷ 0x5cb0a9dc ∷ 0x76f988da ∷ 0x983e5152 ∷ 0xa831c66d ∷ 0xb00327c8 ∷ 0xbf597fc7
    ∷ 0xc6e00bf3 ∷ 0xd5a79147 ∷ 0x06ca6351 ∷ 0x14292967 ∷ 0x27b70a85 ∷ 0x2e1b2138 ∷ 0x4d2c6dfc
    ∷ 0x53380d13 ∷ 0x650a7354 ∷ 0x766a0abb ∷ 0x81c2c92e ∷ 0x92722c85 ∷ 0xa2bfe8a1 ∷ 0xa81a664b
    ∷ 0xc24b8b70 ∷ 0xc76c51a3 ∷ 0xd192e819 ∷ 0xd6990624 ∷ 0xf40e3585 ∷ 0x106aa070 ∷ 0x19a4c116
    ∷ 0x1e376c08 ∷ 0x2748774c ∷ 0x34b0bcb5 ∷ 0x391c0cb3 ∷ 0x4ed8aa4a ∷ 0x5b9cca4f ∷ 0x682e6ff3
    ∷ 0x748f82ee ∷ 0x78a5636f ∷ 0x84c87814 ∷ 0x8cc70208 ∷ 0x90befffa ∷ 0xa4506ceb ∷ 0xbef9a3f7
    ∷ 0xc67178f2 ∷ []

abbrev pub initial_state : List ℕ
initial_state =
    0x6a09e667 ∷ 0xbb67ae85 ∷ 0x3c6ef372 ∷ 0xa54ff53a ∷ 0x510e527f ∷ 0x9b05688c ∷ 0x1f83d9ab
    ∷ 0x5be0cd19 ∷ []

-- `wrapping_add`, `rotate_right`, `>>` and `!` of a `u32`
unfoldable pub wrapping_add : ℕ → ℕ → ℕ
wrapping_add a b = (a + b) % 4294967296

unfoldable pub rotate_right : ℕ → ℕ → ℕ
rotate_right x k = x / 2 ^ k + x % 2 ^ k * 2 ^ (32 - k)

abbrev pub not_u32 : ℕ → ℕ
not_u32 x = 4294967295 - x

abbrev pub xor3 : ℕ → ℕ → ℕ → ℕ
xor3 a b c = bit_xor (bit_xor a b) c

-- The bytes of a number, greatest first.
unfoldable pub to_be_bytes : ℕ → ℕ → List ℕ
to_be_bytes zero n = []
to_be_bytes (suc k) n = n / 256 ^ k % 256 ∷ to_be_bytes k n

-- `u32::from_be_bytes`
unfoldable pub from_be_bytes : List ℕ → ℕ
from_be_bytes [] = 0
from_be_bytes (b ∷ bs) = b * 256 ^ length bs + from_be_bytes bs

-- `while message.len() % 64 != 56 { message.push(0); }`
unfoldable pub push_zeros : ℕ → List ℕ → List ℕ
push_zeros zero message = message
push_zeros (suc fuel) message =
    let more = push_zeros fuel (message ++ 0 ∷ []) in
    if length message % 64 == 56 then message else more

-- The message with its padding: one round for each length within a block is enough.
unfoldable pub pad : List ℕ → List ℕ
unfolding push_zeros to_be_bytes
pad message = push_zeros 64 (message ++ 0x80 ∷ []) ++ to_be_bytes 8 (length message * 8)

-- The words of a block, last word first.
unfoldable pub words_of : ℕ → List ℕ → List ℕ → List ℕ
unfolding from_be_bytes
words_of zero bytes w = w
words_of (suc n) bytes w = words_of n (drop 4 bytes) (from_be_bytes (take 4 bytes) ∷ w)

-- The next word of the schedule; `w` holds those before it, last word first.
unfoldable pub next_word : List ℕ → ℕ
unfolding wrapping_add rotate_right
next_word w =
    let w15 = get_or w 14 0 in
    let w2 = get_or w 1 0 in
    let s0 = xor3 (rotate_right w15 7) (rotate_right w15 18) (w15 / 8) in
    let s1 = xor3 (rotate_right w2 17) (rotate_right w2 19) (w2 / 1024) in
    wrapping_add (wrapping_add (wrapping_add (get_or w 15 0) s0) (get_or w 6 0)) s1

unfoldable pub extend : ℕ → List ℕ → List ℕ
unfolding next_word
extend zero w = w
extend (suc n) w = extend n (next_word w ∷ w)

-- The eight working variables.
pub record Working : Type 0 where
  pub a : ℕ
  pub b : ℕ
  pub c : ℕ
  pub d : ℕ
  pub e : ℕ
  pub f : ℕ
  pub g : ℕ
  pub h : ℕ

unfoldable pub round : Working → ℕ → ℕ → Working
unfolding wrapping_add rotate_right
round v k w =
    let s1 = xor3 (rotate_right v.e 6) (rotate_right v.e 11) (rotate_right v.e 25) in
    let choose = bit_xor (bit_and v.e v.f) (bit_and (not_u32 v.e) v.g) in
    let temp1 = wrapping_add (wrapping_add (wrapping_add (wrapping_add v.h s1) choose) k) w in
    let s0 = xor3 (rotate_right v.a 2) (rotate_right v.a 13) (rotate_right v.a 22) in
    let majority = xor3 (bit_and v.a v.b) (bit_and v.a v.c) (bit_and v.b v.c) in
    let temp2 = wrapping_add s0 majority in
    record {
      a = wrapping_add temp1 temp2;
      b = v.a;
      c = v.b;
      d = v.c;
      e = wrapping_add v.d temp1;
      f = v.e;
      g = v.f;
      h = v.g;
    }

unfoldable pub rounds : List ℕ → List ℕ → Working → Working
unfolding round
rounds (k ∷ ks) (w ∷ ws) v = rounds ks ws (round v k w)
rounds ks ws v = v

-- One block.
unfoldable pub compress : Working → List ℕ → Working
unfolding rounds words_of extend
compress s block =
    let v = rounds round_constants (reverse (extend 48 (words_of 16 block []))) s in
    record {
      a = wrapping_add s.a v.a;
      b = wrapping_add s.b v.b;
      c = wrapping_add s.c v.c;
      d = wrapping_add s.d v.d;
      e = wrapping_add s.e v.e;
      f = wrapping_add s.f v.f;
      g = wrapping_add s.g v.g;
      h = wrapping_add s.h v.h;
    }

-- `chunks_exact(64)`: one round for each byte is more than enough.
unfoldable pub compress_all : ℕ → Working → List ℕ → Working
unfolding compress
compress_all zero s bytes = s
compress_all (suc fuel) s bytes = elim bytes [
  | [] ↦ s
  | b ∷ bs ↦ compress_all fuel (compress s (take 64 (b ∷ bs))) (drop 64 (b ∷ bs))
]

abbrev pub initial_working : Working
initial_working = record {
  a = get_or initial_state 0 0;
  b = get_or initial_state 1 0;
  c = get_or initial_state 2 0;
  d = get_or initial_state 3 0;
  e = get_or initial_state 4 0;
  f = get_or initial_state 5 0;
  g = get_or initial_state 6 0;
  h = get_or initial_state 7 0;
}

unfoldable pub digest : Working → List ℕ
digest s =
    to_be_bytes 4 s.a
    ++ (to_be_bytes 4 s.b
        ++ (to_be_bytes 4 s.c
            ++ (to_be_bytes 4 s.d
                ++ (to_be_bytes 4 s.e
                    ++ (to_be_bytes 4 s.f ++ (to_be_bytes 4 s.g ++ to_be_bytes 4 s.h))))))

unfoldable pub sha256 : List ℕ → List ℕ
unfolding compress_all pad digest to_be_bytes
sha256 message =
    let padded = pad message in digest (compress_all (length padded) initial_working padded)
