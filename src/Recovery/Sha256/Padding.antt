-- ===== src/Recovery/Sha256/Padding.antt =====
-- The padding and the digest of crates/zonkey-service/src/recovery_codec.rs.
use zon_key.Prelude.{
  ℕ, zero, suc, ◌-◌, ◌*◌, ◌%◌, ◌<◌, ◌≡◌, refl, ap, Bool, true, List, [], ◌∷◌, ◌++◌, length,
  length-append, arith, ltb, ◌==◌, Bool-cases, inl, inr,
}
use zon_key.Text.{all, all-append}
use zon_key.Recovery.Sha256.{push_zeros, pad, to_be_bytes, Working, digest, sha256}

abbrev pub is_byte : ℕ → Bool
is_byte b = ltb b 256

length-push_zeros :
    (fuel : ℕ) (message : List ℕ)
    → (120 - length message % 64) % 64 < fuel
    → length (push_zeros fuel message) % 64 ≡ 56
unfolding push_zeros
length-push_zeros zero message h = absurd (omega arith)
length-push_zeros (suc fuel) message h = elim (Bool-cases (length message % 64 == 56)) [
  | inl e ↦ rw e (ground arith)
  | inr e ↦
      rw e (
        length-push_zeros fuel (message ++ 0 ∷ []) (ground (arith, length-append message (0 ∷ []))))
]

length-to_be_bytes : (k n : ℕ) → length (to_be_bytes k n) ≡ k
unfolding to_be_bytes
length-to_be_bytes zero n = refl
length-to_be_bytes (suc k) n = ap suc (length-to_be_bytes k n)

-- The padding loop of SHA-256 ends within its 64 rounds: the message is padded to whole blocks of
-- 64 bytes.
pub length-pad : (message : List ℕ) → length (pad message) % 64 ≡ 0
unfolding pad
length-pad message =
    let zeros = length-push_zeros 64 (message ++ 0x80 ∷ []) (omega arith) in
    omega (
      arith,
      zeros,
      length-append (push_zeros 64 (message ++ 0x80 ∷ [])) (to_be_bytes 8 (length message * 8)),
      length-to_be_bytes 8 (length message * 8),
    )

all-is_byte-to_be_bytes : (k n : ℕ) → all is_byte (to_be_bytes k n) ≡ true
unfolding to_be_bytes all
all-is_byte-to_be_bytes zero n = refl
all-is_byte-to_be_bytes (suc k) n = ground (arith, all-is_byte-to_be_bytes k n)

-- A digest has 32 bytes.
pub length-sha256 : (message : List ℕ) → length (sha256 message) ≡ 32
unfolding sha256 to_be_bytes
length-sha256 message = refl

all-is_byte-digest : (s : Working) → all is_byte (digest s) ≡ true
unfolding digest
all-is_byte-digest s = simp (all-append, all-is_byte-to_be_bytes)

pub all-is_byte-sha256 : (message : List ℕ) → all is_byte (sha256 message) ≡ true
unfolding sha256
all-is_byte-sha256 message = all-is_byte-digest _
