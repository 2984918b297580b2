-- ===== src/Core/Identity.antt =====
-- crates/core/src/identity.rs: identities of 60 characters for public keys of 32 bytes. A text is
-- its bytes. The K12 hash is the parameter `k12`: a key and a number of bytes to squeeze give these
-- bytes. Arithmetic on u64 wraps, as in the release profile.
pub mod Digits
pub mod RoundTrip
pub mod Shape
pub mod Aliases
use qonduit.Common.{
  ℕ, zero, suc, ◌+◌, ◌-◌, ◌*◌, ◌/◌, ◌%◌, ◌^◌, List, [], ◌∷◌, ◌++◌, Bool, true, false, ◌&&◌, Option,
  none, some, ◌==◌, leb, length, if◌then◌else◌,
}
use qonduit.Bytes.{Bytes, from_le, to_le}
use qonduit.Bytes.Slices.{cut, word}

infixl 5 ◌>>=◌
abbrev pub ◌>>=◌ {ℓ κ} : {A : Type ℓ} {B : Type κ} → Option A → (A → Option B) → Option B
some a >>= f = f a
none >>= f = none

abbrev pub identity_length : ℕ
identity_length = 60

abbrev pub public_key_size : ℕ
public_key_size = 32

-- `n` characters A to Z for the base-26 digits of `v`, the lowest first: the loops of
-- `encode_base26` and `compute_checksum`.
unfoldable pub base26_digits : ℕ → ℕ → Bytes
base26_digits zero v = []
base26_digits (suc n) v = (b'A' + v % 26) ∷ base26_digits n (v / 26)

unfoldable pub is_ascii_uppercase : ℕ → Bool
is_ascii_uppercase c = leb b'A' c && leb c b'Z'

-- The value of a fragment, the last character being the most significant; the loop from the last
-- character down to the first stops at one that is not upper case.
unfoldable pub decode_digits : Bytes → Option ℕ
decode_digits [] = some 0
decode_digits (c ∷ cs) = do
  fragment ← decode_digits cs
  if is_ascii_uppercase c then some ((fragment * 26 + (c - b'A')) % 2 ^ 64) else none

unfoldable pub bytes_eq : Bytes → Bytes → Bool
bytes_eq [] [] = true
bytes_eq (a ∷ xs) (b ∷ ys) = a == b && bytes_eq xs ys
bytes_eq _ _ = false

-- The fragments from `frag_idx` on, `n` of them: 8 bytes of the key give 14 characters.
unfoldable pub encode_fragments : ℕ → ℕ → Bytes → Bytes
encode_fragments zero frag_idx bytes = []
encode_fragments (suc n) frag_idx bytes =
    base26_digits 14 (word bytes (frag_idx * 8) 8) ++ encode_fragments n (frag_idx + 1) bytes

unfoldable pub decode_fragments : ℕ → ℕ → Bytes → Option Bytes
decode_fragments zero frag_idx s = some []
decode_fragments (suc n) frag_idx s = do
  fragment ← decode_digits (cut s (frag_idx * 14) (frag_idx * 14 + 14))
  rest ← decode_fragments n (frag_idx + 1) s
  some (to_le 8 fragment ++ rest)

module _ (k12 : Bytes → ℕ → Bytes) where
  -- Four characters from the low 18 bits of the first three bytes of the hash.
  unfoldable pub compute_checksum : Bytes → Bytes
  compute_checksum public_key = base26_digits 4 (from_le (k12 public_key 3) % 2 ^ 18)

  unfoldable pub encode_base26 : Bytes → Bytes
  encode_base26 bytes = encode_fragments 4 0 bytes ++ compute_checksum bytes

  unfoldable pub decode_base26 : Bytes → Option Bytes
  decode_base26 s =
      if length s == identity_length
      then (do
        public_key ← decode_fragments 4 0 s
        if bytes_eq (cut s 56 60) (compute_checksum public_key) then some public_key else none)
      else none
