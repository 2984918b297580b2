-- ===== src/Core/Identity/Aliases.antt =====
-- More than one identity decodes to the same key: 14 base-26 digits hold more than 64 bits, and the
-- fragment arithmetic of `decode_base26` wraps.
use qonduit.Common.{
  ℕ, ◌+◌, ◌%◌, ◌^◌, ◌≤◌, ◌<◌, ◌≡◌, ◌≢◌, refl, ap, ◌∙◌, [], ◌++◌, some, length, arith,
}
use qonduit.Bytes.{Bytes, IsBytes}
use qonduit.Bytes.Slices.{cut, word}
use qonduit.Bytes.Layout.{packed, cut-packed}
use qonduit.Core.Identity.{base26_digits, compute_checksum, encode_base26, decode_base26}
use qonduit.Core.Identity.Digits.{length-base26_digits, value26, value26-base26_digits, word-lt}
use qonduit.Core.Identity.RoundTrip.{parts, encode-parts, decode-parts}
use native.Mathlib.Nat.{mod-eq_of_lt}

first_fragment :
    (u0 u1 u2 u3 : ℕ) (c : Bytes)
    → u0 < 26 ^ 14
    → value26 (cut (packed (parts u0 u1 u2 u3 c) ++ []) 0 14) ≡ u0
first_fragment u0 u1 u2 u3 c h =
    ap value26 (
      cut-packed (parts u0 u1 u2 u3 c) [] (base26_digits 14 u0) 0 0 14 refl refl
        (omega (arith, length-base26_digits 14)))
    ∙ value26-base26_digits 14 u0 h

module _ (k12 : Bytes → ℕ → Bytes) (key : Bytes) where
  -- The identity of the key with 2 ^ 64 added to the first fragment.
  pub alias : Bytes
  alias =
      packed (
        parts (word key 0 8 + 2 ^ 64) (word key 8 8) (word key 16 8) (word key 24 8)
          (compute_checksum k12 key))
      ++ []

  module _ (b : IsBytes key) (l : length key ≡ 32) where
    bound : (a : ℕ) → a ≤ 24 → word key a 8 < 2 ^ 64
    bound a h = word-lt key a b (omega arith)

    fits : (a : ℕ) → a ≤ 24 → word key a 8 < 26 ^ 14
    fits a h = omega (arith, bound a h)

    same : (a : ℕ) → a ≤ 24 → word key a 8 % 2 ^ 64 ≡ word key a 8
    same a h = mod-eq_of_lt (bound a h)

    -- For every 32-byte key there is a second text, other than its identity, that decodes to the
    -- key: decoding is not injective on what it accepts.
    pub decode_base26_alias :
        (s : Bytes) × (decode_base26 k12 s ≡ some key) × (s ≢ encode_base26 k12 key)
    unfolding alias
    decode_base26_alias = (
      alias,
      decode-parts k12 _ _ _ _ key (omega (arith, bound 0 (omega arith))) (fits 8 (omega arith))
          (fits 16 (omega arith)) (fits 24 (omega arith)) b l (omega (arith, bound 0 (omega arith)))
          (same 8 (omega arith)) (same 16 (omega arith)) (same 24 (omega arith)),
      λ e. absurd (
          omega (
            arith,
            first_fragment (word key 0 8 + 2 ^ 64) (word key 8 8) (word key 16 8) (word key 24 8)
                (compute_checksum k12 key) (omega (arith, bound 0 (omega arith))),
            first_fragment (word key 0 8) (word key 8 8) (word key 16 8) (word key 24 8)
                (compute_checksum k12 key) (fits 0 (omega arith)),
            ap (λ (t : Bytes). value26 (cut t 0 14)) (e ∙ encode-parts k12 key),
          )),
    )
