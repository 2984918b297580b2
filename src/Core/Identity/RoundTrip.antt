-- ===== src/Core/Identity/RoundTrip.antt =====
-- Encoding a key and decoding the identity gives the key back, and what decoding accepts.
use qonduit.Common.{
  ℕ, ◌+◌, ◌%◌, ◌^◌, ◌≤◌, ◌<◌, ◌≡◌, refl, List, [], ◌∷◌, ◌++◌, some, length, get_elem?,
  length-append, arith, append_assoc, append-nil,
}
use qonduit.Bytes.{Bytes, IsBytes, to_le}
use qonduit.Bytes.Slices.{cut, word}
use qonduit.Bytes.Layout.{packed, offset, cut-packed}
use qonduit.Core.Identity.{
  base26_digits, encode_fragments, decode_fragments, compute_checksum, encode_base26, decode_base26,
}
use qonduit.Core.Identity.Digits.{
  length-base26_digits, decode_digits-base26_digits, bytes_eq_refl, key_parts, word-lt, to_le-word,
}
use native.Mathlib.Nat.{mod-eq_of_lt}

-- The characters of an identity whose fragments have the values u₀, …, u₃.
abbrev pub parts : ℕ → ℕ → ℕ → ℕ → Bytes → List Bytes
parts u0 u1 u2 u3 checksum =
    base26_digits 14 u0
    ∷ base26_digits 14 u1
    ∷ base26_digits 14 u2
    ∷ base26_digits 14 u3
    ∷ checksum
    ∷ []

-- Decoding an identity that is laid out so yields the fragments modulo 2 ^ 64.
pub decode_fragments-parts :
    (u0 u1 u2 u3 : ℕ) (checksum : Bytes)
    → u0 < 26 ^ 14
    → u1 < 26 ^ 14
    → u2 < 26 ^ 14
    → u3 < 26 ^ 14
    → decode_fragments 4 0 (packed (parts u0 u1 u2 u3 checksum) ++ [])
      ≡ some (
          to_le 8 (u0 % 2 ^ 64)
          ++ (to_le 8 (u1 % 2 ^ 64) ++ (to_le 8 (u2 % 2 ^ 64) ++ (to_le 8 (u3 % 2 ^ 64) ++ []))))
unfolding decode_fragments
decode_fragments-parts u0 u1 u2 u3 c h0 h1 h2 h3 = rw (
  part 0 0 u0 refl refl,
  decode_digits-base26_digits 14 u0 h0,
  part 1 14 u1 refl (omega (arith, length-base26_digits 14)),
  decode_digits-base26_digits 14 u1 h1,
  part 2 28 u2 refl (omega (arith, length-base26_digits 14)),
  decode_digits-base26_digits 14 u2 h2,
  part 3 42 u3 refl (omega (arith, length-base26_digits 14)),
  decode_digits-base26_digits 14 u3 h3,
)
  where
    fs : List Bytes
    fs = parts u0 u1 u2 u3 c

    part :
        (k a u : ℕ)
        → get_elem? fs k ≡ some (base26_digits 14 u)
        → a ≡ offset fs k
        → cut (packed fs ++ []) a (a + 14) ≡ base26_digits 14 u
    part k a u h o =
        cut-packed fs [] (base26_digits 14 u) k a (a + 14) h o
          (omega (arith, length-base26_digits 14 u))

module _ (k12 : Bytes → ℕ → Bytes) where
  pub encode-parts :
      (key : Bytes)
      → encode_base26 k12 key
        ≡ packed (
            parts
              (word key 0 8)
              (word key 8 8)
              (word key 16 8)
              (word key 24 8)
              (compute_checksum k12 key))
          ++ []
  unfolding encode_base26 encode_fragments
  encode-parts key = simp (append_assoc, append-nil)

  length-compute_checksum : (key : Bytes) → length (compute_checksum k12 key) ≡ 4
  unfolding compute_checksum
  length-compute_checksum key = length-base26_digits 4 _

  pub length-parts :
      (u0 u1 u2 u3 : ℕ) (key : Bytes)
      → length (packed (parts u0 u1 u2 u3 (compute_checksum k12 key)) ++ []) ≡ 60
  length-parts u0 u1 u2 u3 key = simp (length-append, length-base26_digits, length-compute_checksum)

  -- What decoding makes of such an identity: the key, if the checksum is that of the key.
  pub decode-parts :
      (u0 u1 u2 u3 : ℕ) (key : Bytes)
      → u0 < 26 ^ 14
      → u1 < 26 ^ 14
      → u2 < 26 ^ 14
      → u3 < 26 ^ 14
      → IsBytes key
      → length key ≡ 32
      → u0 % 2 ^ 64 ≡ word key 0 8
      → u1 % 2 ^ 64 ≡ word key 8 8
      → u2 % 2 ^ 64 ≡ word key 16 8
      → u3 % 2 ^ 64 ≡ word key 24 8
      → decode_base26 k12 (packed (parts u0 u1 u2 u3 (compute_checksum k12 key)) ++ []) ≡ some key
  unfolding decode_base26
  decode-parts u0 u1 u2 u3 key h0 h1 h2 h3 b l e0 e1 e2 e3 = rw (
    length-parts u0 u1 u2 u3 key,
    decode_fragments-parts u0 u1 u2 u3 checksum h0 h1 h2 h3,
    e0,
    e1,
    e2,
    e3,
    to_le-word key 0 8 b refl (omega arith),
    to_le-word key 8 16 b refl (omega arith),
    to_le-word key 16 24 b refl (omega arith),
    to_le-word key 24 32 b refl (omega arith),
    key_parts key l,
    cut-packed (parts u0 u1 u2 u3 checksum) [] checksum 4 56 60 refl
        (omega (arith, length-base26_digits 14)) (omega (arith, length-compute_checksum key)),
    bytes_eq_refl checksum,
  )
    where
      checksum : Bytes
      checksum = compute_checksum k12 key

  -- Decoding the identity of a 32-byte key gives the key, whatever the hash function.
  pub decode_base26-encode_base26 :
      (key : Bytes)
      → IsBytes key
      → length key ≡ 32
      → decode_base26 k12 (encode_base26 k12 key) ≡ some key
  decode_base26-encode_base26 key b l = rw (encode-parts key) (
      decode-parts _ _ _ _ key (lt 0 (omega arith)) (lt 8 (omega arith)) (lt 16 (omega arith))
        (lt 24 (omega arith)) b l (small 0 (omega arith)) (small 8 (omega arith))
        (small 16 (omega arith)) (small 24 (omega arith)))
    where
      bound : (a : ℕ) → a ≤ 24 → word key a 8 < 2 ^ 64
      bound a h = word-lt key a b (omega arith)

      lt : (a : ℕ) → a ≤ 24 → word key a 8 < 26 ^ 14
      lt a h = omega (arith, bound a h)

      small : (a : ℕ) → a ≤ 24 → word key a 8 % 2 ^ 64 ≡ word key a 8
      small a h = mod-eq_of_lt (bound a h)
