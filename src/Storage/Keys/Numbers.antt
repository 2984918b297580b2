-- ===== src/Storage/Keys/Numbers.antt =====
-- Big-endian numbers in keys: the bytewise order of keys is the order of the numbers.
use qonduit.Common.{
  ℕ, zero, suc, ◌+◌, ◌*◌, ◌^◌, ◌<◌, ◌≤◌, ◌≡◌, refl, sym, subst, ◌∙◌, [], ◌∷◌, ◌++◌, true, ◌&&◌,
  ◌||◌, ◌==◌, ltb, arith, length, drop,
}
use qonduit.Bytes.{Bytes, IsBytes, to_be, from_be_acc, from_be}
use qonduit.Bytes.Endian.{length-to_be, from_be-to_be}
use native.Mathlib.Nat.{pow-suc}
use qonduit.Storage.Keys.{before, has_prefix}
use qonduit.Storage.Keys.Order.{before_total}

pub to_be-IsBytes : (n v : ℕ) → IsBytes (to_be n v)
unfolding to_be
to_be-IsBytes zero v = tt
to_be-IsBytes (suc n) v = (omega arith, to_be-IsBytes n v)

mul_mono : (a b n : ℕ) → a ≤ b → a * n ≤ b * n
mul_mono zero b n h = omega arith
mul_mono (suc a) zero n h = absurd (omega arith)
mul_mono (suc a) (suc b) n h = omega (arith, mul_mono a b n (omega arith))

before-from_be_acc :
    (xs ys : Bytes) (a b : ℕ)
    → length xs ≡ length ys
    → IsBytes xs
    → IsBytes ys
    → ltb (from_be_acc a xs) (from_be_acc b ys) ≡ (ltb a b || (a == b && before xs ys))
unfolding from_be_acc before
before-from_be_acc [] [] a b l h k = ground arith
before-from_be_acc [] (y ∷ ys) a b l h k = absurd (omega arith)
before-from_be_acc (x ∷ xs) [] a b l h k = absurd (omega arith)
before-from_be_acc (x ∷ xs) (y ∷ ys) a b l (h, hs) (k, ks) =
    before-from_be_acc xs ys (a * 256 + x) (b * 256 + y) (omega arith) hs ks ∙ ground arith

-- Of byte strings of one length, the earlier one is the smaller number.
pub before-from_be :
    (xs ys : Bytes)
    → length xs ≡ length ys
    → IsBytes xs
    → IsBytes ys
    → before xs ys ≡ ltb (from_be xs) (from_be ys)
before-from_be xs ys l h k = sym (before-from_be_acc xs ys 0 0 l h k ∙ ground arith)

pub from_be-injective :
    (xs ys : Bytes)
    → length xs ≡ length ys
    → IsBytes xs
    → IsBytes ys
    → from_be xs ≡ from_be ys
    → xs ≡ ys
from_be-injective xs ys l h k e =
    before_total xs ys (before-from_be xs ys l h k ∙ ground arith)
      (before-from_be ys xs (sym l) k h ∙ ground arith)

-- The order of two numbers is that of their encodings.
pub before-to_be :
    (n a b : ℕ) → a < 256 ^ n → b < 256 ^ n → before (to_be n a) (to_be n b) ≡ ltb a b
before-to_be n a b h k =
    before-from_be (to_be n a) (to_be n b) (omega (arith, length-to_be n a, length-to_be n b))
      (to_be-IsBytes n a) (to_be-IsBytes n b)
    ∙ cc (from_be-to_be n a h, from_be-to_be n b k)

-- Behind a common prefix the order is that of the rest.
pub before-prefix : (p xs ys : Bytes) → before (p ++ xs) (p ++ ys) ≡ before xs ys
unfolding before
before-prefix [] xs ys = refl
before-prefix (a ∷ p) xs ys = ground (arith, before-prefix p xs ys)

-- A key with a prefix is the prefix and the rest.
pub has_prefix-split : (p k : Bytes) → has_prefix p k ≡ true → k ≡ p ++ drop (length p) k
unfolding has_prefix
has_prefix-split [] k h = refl
has_prefix-split (a ∷ p) [] h = absurd (cc)
has_prefix-split (a ∷ p) (b ∷ k) h = ground (arith, has_prefix-split p k)

pub has_prefix-append : (p k : Bytes) → has_prefix p (p ++ k) ≡ true
unfolding has_prefix
has_prefix-append [] k = refl
has_prefix-append (a ∷ p) k = ground (arith, has_prefix-append p k)

from_be_acc-lt :
    (acc : ℕ) (bs : Bytes) → IsBytes bs → from_be_acc acc bs < (acc + 1) * 256 ^ length bs
unfolding from_be_acc
from_be_acc-lt acc [] h = omega arith
from_be_acc-lt acc (b ∷ bs) (h, hs) =
    let scale : (acc * 256 + b + 1) * 256 ^ length bs ≤ (acc * 256 + 256) * 256 ^ length bs =
      mul_mono (acc * 256 + b + 1) (acc * 256 + 256) (256 ^ length bs) (omega arith) in
    rw (pow-suc 256 (length bs)) (omega (arith, scale, from_be_acc-lt (acc * 256 + b) bs hs))

pub from_be-lt : (bs : Bytes) → IsBytes bs → from_be bs < 256 ^ length bs
from_be-lt bs h = omega (arith, from_be_acc-lt 0 bs h)

pub to_be-from_be : (n : ℕ) (bs : Bytes) → length bs ≡ n → IsBytes bs → to_be n (from_be bs) ≡ bs
to_be-from_be n bs l h =
    from_be-injective (to_be n (from_be bs)) bs (length-to_be n (from_be bs) ∙ sym l)
      (to_be-IsBytes n (from_be bs)) h
      (from_be-to_be n (from_be bs) (subst (λ m. from_be bs < 256 ^ m) l (from_be-lt bs h)))
