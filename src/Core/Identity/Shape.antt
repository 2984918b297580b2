-- ===== src/Core/Identity/Shape.antt =====
-- What encoding produces and what decoding accepts.
use qonduit.Common.{
  ℕ, zero, suc, ◌+◌, ◌*◌, ◌≡◌, some, length, length-append, All, All-append, arith, Bool-cases,
  Option-cases, some_injective, inl, inr, ==_iff, ◌==◌, subst,
}
use qonduit.Bytes.{Bytes, IsByte, IsBytes, to_le}
use qonduit.Bytes.Slices.{cut, word}
use qonduit.Bytes.Endian.{length-to_le, to_le-IsBytes}
use qonduit.Core.Identity.{
  base26_digits, decode_digits, encode_fragments, decode_fragments, bytes_eq, compute_checksum,
  encode_base26, decode_base26,
}
use qonduit.Core.Identity.Digits.{length-base26_digits, base26_digits-IsUpper, IsUpper, bytes_eq→eq}

encode_fragments_shape :
    (n i : ℕ) (key : Bytes)
    → (length (encode_fragments n i key) ≡ 14 * n) × All IsUpper (encode_fragments n i key)
unfolding encode_fragments
encode_fragments_shape zero i key = (omega arith, tt)
encode_fragments_shape (suc n) i key =
    let (len, upper) = encode_fragments_shape n (i + 1) key in
    let digits : Bytes = base26_digits 14 (word key (i * 8) 8) in
    (
      omega (
        arith,
        len,
        length-append digits (encode_fragments n (i + 1) key),
        length-base26_digits 14 (word key (i * 8) 8),
      ),
      All-append IsUpper digits (encode_fragments n (i + 1) key) (base26_digits-IsUpper 14 _) upper,
    )

decode_fragments_shape :
    (n i : ℕ) (s key : Bytes)
    → decode_fragments n i s ≡ some key
    → (length key ≡ 8 * n) × IsBytes key
unfolding decode_fragments
decode_fragments_shape zero i s key h =
    subst (λ k. (length k ≡ 8 * 0) × IsBytes k) (some_injective h) (omega arith, tt)
decode_fragments_shape (suc n) i s key h =
    elim (Option-cases (decode_digits (cut s (i * 14) (i * 14 + 14)))) [
      | inl bad ↦ absurd (cc (rw bad at h))
      | inr (v, e) ↦ elim (Option-cases (decode_fragments n (i + 1) s)) [
        | inl bad ↦ absurd (cc (rw (e, bad) at h))
        | inr (k, e') ↦
            let (len, bytes) = decode_fragments_shape n (i + 1) s k e' in
            subst (λ k. (length k ≡ 8 * suc n) × IsBytes k) (some_injective (rw (e, e') at h))
              (
                omega (arith, len, length-append (to_le 8 v) k, length-to_le 8 v),
                All-append IsByte (to_le 8 v) k (to_le-IsBytes 8 v) bytes,
              )
      ]
    ]

module _ (k12 : Bytes → ℕ → Bytes) where
  -- An identity has 60 characters, each from A to Z.
  pub encode_base26_shape :
      (key : Bytes) → (length (encode_base26 k12 key) ≡ 60) × All IsUpper (encode_base26 k12 key)
  unfolding encode_base26 compute_checksum
  encode_base26_shape key =
      let (len, upper) = encode_fragments_shape 4 0 key in
      (
        rw length-append (omega (arith, len, length-base26_digits 4)),
        All-append IsUpper (encode_fragments 4 0 key) _ upper (base26_digits-IsUpper 4 _),
      )

  -- Whatever text decodes has 60 bytes, decodes to a key of 32 bytes, and ends in the checksum of
  -- that key.
  pub decode_base26_sound :
      (s key : Bytes)
      → decode_base26 k12 s ≡ some key
      → (length s ≡ 60) × (length key ≡ 32) × IsBytes key × (cut s 56 60 ≡ compute_checksum k12 key)
  unfolding decode_base26
  decode_base26_sound s key h = elim (Bool-cases (length s == 60)) [
    | inr long ↦ absurd (cc (rw long at h))
    | inl long ↦ elim (Option-cases (decode_fragments 4 0 s)) [
      | inl bad ↦ absurd (cc (rw (long, bad) at h))
      | inr (k, e) ↦ elim (Bool-cases (bytes_eq (cut s 56 60) (compute_checksum k12 k))) [
        | inr bad ↦ absurd (cc (rw (long, e, bad) at h))
        | inl same ↦
            let (len, bytes) = decode_fragments_shape 4 0 s k e in
            subst
              (λ k.
                (length s ≡ 60)
                × (length k ≡ 32)
                × IsBytes k
                × (cut s 56 60 ≡ compute_checksum k12 k))
              (some_injective (rw (long, e, same) at h))
              ((==_iff (length s) 60).0 long, omega arith, bytes, bytes_eq→eq _ _ same)
      ]
    ]
  ]
