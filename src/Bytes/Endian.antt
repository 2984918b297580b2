-- ===== src/Bytes/Endian.antt =====
-- Encoding and decoding of integers are inverse to one another, for every word length.
use qonduit.Common.{
  ℕ, zero, suc, ◌+◌, ◌*◌, ◌/◌, ◌%◌, ◌^◌, ◌<◌, ◌≡◌, refl, [], ◌∷◌, length, arith, ap, ◌∙◌,
}
use qonduit.Bytes.Defs.{Bytes, IsBytes, from_le, to_le, to_be, from_be_acc, from_be}
use native.Mathlib.Nat.{pow-suc, mod-eq_of_lt, div-add-mod, div-div-eq-div-mul}

pub length-to_le : (n v : ℕ) → length (to_le n v) ≡ n
unfolding to_le
length-to_le zero v = refl
length-to_le (suc n) v = ap suc (length-to_le n (v / 256))

pub to_le-IsBytes : (n v : ℕ) → IsBytes (to_le n v)
unfolding to_le
to_le-IsBytes zero v = tt
to_le-IsBytes (suc n) v = (omega arith, to_le-IsBytes n (v / 256))

pub from_le-to_le : (n v : ℕ) → v < 256 ^ n → from_le (to_le n v) ≡ v
unfolding from_le to_le
from_le-to_le zero v h = omega arith
from_le-to_le (suc n) v h = omega (arith, from_le-to_le n (v / 256) (omega (arith, pow-suc 256 n)))

pub from_le-lt : (bs : Bytes) → IsBytes bs → from_le bs < 256 ^ length bs
unfolding from_le
from_le-lt [] h = omega arith
from_le-lt (b ∷ bs) (p, ps) = omega (arith, pow-suc 256 (length bs), from_le-lt bs ps)

pub to_le-from_le : (bs : Bytes) → IsBytes bs → to_le (length bs) (from_le bs) ≡ bs
unfolding from_le to_le
to_le-from_le [] h = refl
to_le-from_le (b ∷ bs) (p, ps) =
    let low : (b + 256 * from_le bs) % 256 ≡ b = omega arith in
    let high : (b + 256 * from_le bs) / 256 ≡ from_le bs = omega arith in
    rw (low, high, to_le-from_le bs ps)

pub length-to_be : (n v : ℕ) → length (to_be n v) ≡ n
unfolding to_be
length-to_be zero v = refl
length-to_be (suc n) v = ap suc (length-to_be n v)

-- The remainder by 256 ^ (n + 1), one digit at a time.
mod-pow_step : (n v : ℕ) → v % 256 ^ suc n ≡ v / 256 ^ n % 256 * 256 ^ n + v % 256 ^ n
mod-pow_step n v = omega (
  arith,
  pow-suc 256 n,
  ap (λ (t : ℕ). v % t) (pow-suc 256 n),
  ap (λ (t : ℕ). t * 256 ^ n) (div-add-mod (v / 256 ^ n) 256),
  div-add-mod v (256 ^ n),
  div-add-mod v (256 ^ n * 256),
  ap (λ (t : ℕ). 256 ^ n * 256 * t) (div-div-eq-div-mul v (256 ^ n) 256),
)

pub from_be_acc-to_be : (n v acc : ℕ) → from_be_acc acc (to_be n v) ≡ acc * 256 ^ n + v % 256 ^ n
unfolding from_be_acc to_be
from_be_acc-to_be zero v acc = omega arith
from_be_acc-to_be (suc n) v acc =
    from_be_acc-to_be n v _
    ∙ omega (arith, pow-suc 256 n, ap (λ (t : ℕ). acc * t) (pow-suc 256 n), mod-pow_step n v)

pub from_be-to_be : (n v : ℕ) → v < 256 ^ n → from_be (to_be n v) ≡ v
from_be-to_be n v h = from_be_acc-to_be n v 0 ∙ omega (arith, mod-eq_of_lt h)
