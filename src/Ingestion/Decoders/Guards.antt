-- ===== src/Ingestion/Decoders/Guards.antt =====
-- The length check that every decoder starts with, and how to show that what follows it succeeds.
use qonduit.Common.{
  ℕ, ◌+◌, ◌≤◌, ◌<◌, ◌≡◌, ◌≢◌, refl, [], Bool, true, false, ltb, length, if◌then◌else◌, arith,
  Bool-cases, ◌⊎◌, inl, inr,
}
use qonduit.Bytes.{Bytes, Result, ok, err, panic, too_small, slice, read_le, ◌>>=◌}
use qonduit.Bytes.Slices.{cut, word, slice-cut, read_le-word}

-- `if payload.len() < size { bail!(…) }`, and then the rest of the decoder.
abbrev pub at_least {ℓ} : {A : Type ℓ} → ℕ → Bytes → Result A → Result A
at_least size payload rest =
    if ltb (length payload) size then err (too_small (length payload) size) else rest

-- The hexadecimal text of `p[a..b]` if the test holds, and an empty text otherwise.
unfoldable pub hex_if : (Bytes → Bytes) → Bool → Bytes → ℕ → ℕ → Result Bytes
hex_if hex_encode test p a b = if test then (do s ← slice p a b; ok (hex_encode s)) else ok []

pub data IsOk {ℓ} {A : Type ℓ} : Result A → Type ℓ where
  is_ok : (a : A) → IsOk (ok a)

-- The outcome of a decoder: the length error below a size, a value from there on.
abbrev pub Decoded {ℓ} : {A : Type ℓ} → ℕ → Bytes → Result A → Type ℓ
Decoded size p r =
    ((length p < size) × (r ≡ err (too_small (length p) size))) ⊎ ((size ≤ length p) × IsOk r)

module _ {ℓ} {A : Type ℓ} where
  pub at_least_enough :
      (size : ℕ) (p : Bytes) (rest : Result A) → size ≤ length p → at_least size p rest ≡ rest
  at_least_enough size p rest h = ground arith

  -- What follows the check has to succeed on payloads that are long enough.
  pub Decoded-intro :
      (size : ℕ) (p : Bytes) (rest : Result A)
      → (size ≤ length p → IsOk rest)
      → Decoded size p (at_least size p rest)
  Decoded-intro size p rest value = elim (Bool-cases (ltb (length p) size)) [
    | inl short ↦ inl (ground arith, rw short)
    | inr long ↦ let enough : size ≤ length p = ground arith in inr (enough, rw long (value enough))
  ]

  pub ok-ne-panic : (r : Result A) → IsOk r → r ≢ panic
  ok-ne-panic _ (is_ok a) e = cc

  pub Decoded-ne-panic : (size : ℕ) (p : Bytes) (r : Result A) → Decoded size p r → r ≢ panic
  Decoded-ne-panic size p r (inl (_, bad)) e = cc
  Decoded-ne-panic size p r (inr (_, good)) e = ok-ne-panic r good e

  pub then_read :
      (p : Bytes) (a n : ℕ) (f : ℕ → Result A)
      → a + n ≤ length p
      → ((v : ℕ) → IsOk (f v))
      → IsOk (read_le p a n >>= f)
  then_read p a n f h k = rw (read_le-word p a n h) (k (word p a n))

  pub then_slice :
      (p : Bytes) (a b : ℕ) (f : Bytes → Result A)
      → a ≤ b
      → b ≤ length p
      → ((s : Bytes) → IsOk (f s))
      → IsOk (slice p a b >>= f)
  then_slice p a b f h h' k = rw (slice-cut p a b h h') (k (cut p a b))

  pub then-IsOk {κ} :
      {B : Type κ} (m : Result B) (f : B → Result A)
      → IsOk m
      → ((b : B) → IsOk (f b))
      → IsOk (m >>= f)
  then-IsOk _ f (is_ok b) k = k b

pub hex_if-IsOk :
    (hex_encode : Bytes → Bytes) (test : Bool) (p : Bytes) (a b : ℕ)
    → (test ≡ true → (a ≤ b) × (b ≤ length p))
    → IsOk (hex_if hex_encode test p a b)
unfolding hex_if
hex_if-IsOk hex_encode true p a b h =
    let (le, fits) = h refl in then_slice p a b _ le fits λ _. is_ok _
hex_if-IsOk hex_encode false p a b h = is_ok _
