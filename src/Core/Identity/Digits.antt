-- ===== src/Core/Identity/Digits.antt =====
-- Base-26 digits, and the parts of a key.
use qonduit.Common.{
  ℕ, zero, suc, ◌+◌, ◌-◌, ◌*◌, ◌/◌, ◌%◌, ◌^◌, ◌≤◌, ◌<◌, ◌≡◌, ◌↔◌, refl, ap, sym, subst, ◌∙◌, [],
  ◌∷◌, ◌++◌, true, some, length, drop, All, arith, take-append-drop,
}
use qonduit.Bytes.{Bytes, IsBytes, to_le}
use qonduit.Bytes.Slices.{cut, word, length-cut, cut-IsBytes}
use qonduit.Bytes.Endian.{to_le-from_le, from_le-lt}
use qonduit.Core.Identity.{base26_digits, decode_digits, is_ascii_uppercase, bytes_eq}
use native.Mathlib.Nat.{pow-suc, suc-add, zero-add}

pub length-base26_digits : (n v : ℕ) → length (base26_digits n v) ≡ n
unfolding base26_digits
length-base26_digits zero v = refl
length-base26_digits (suc n) v = ap suc (length-base26_digits n (v / 26))

abbrev pub IsUpper : ℕ → Type 0
IsUpper c = is_ascii_uppercase c ≡ true

pub base26_digits-IsUpper : (n v : ℕ) → All IsUpper (base26_digits n v)
unfolding base26_digits is_ascii_uppercase
base26_digits-IsUpper zero v = tt
base26_digits-IsUpper (suc n) v = (ground arith, base26_digits-IsUpper n (v / 26))

-- Decoding loses what does not fit 64 bits.
pub decode_digits-base26_digits :
    (n v : ℕ) → v < 26 ^ n → decode_digits (base26_digits n v) ≡ some (v % 2 ^ 64)
unfolding decode_digits base26_digits is_ascii_uppercase
decode_digits-base26_digits zero v h = ground arith
decode_digits-base26_digits (suc n) v h =
    rw (decode_digits-base26_digits n (v / 26) (omega (arith, pow-suc 26 n))) (ground arith)

-- The digits determine the value.
pub value26 : Bytes → ℕ
value26 [] = 0
value26 (c ∷ cs) = (c - b'A') + 26 * value26 cs

pub value26-base26_digits : (n v : ℕ) → v < 26 ^ n → value26 (base26_digits n v) ≡ v
unfolding base26_digits value26
value26-base26_digits zero v h = omega arith
value26-base26_digits (suc n) v h =
    omega (arith, value26-base26_digits n (v / 26) (omega (arith, pow-suc 26 n)))

pub bytes_eq_refl : (xs : Bytes) → bytes_eq xs xs ≡ true
unfolding bytes_eq
bytes_eq_refl [] = refl
bytes_eq_refl (x ∷ xs) = ground (arith, bytes_eq_refl xs)

pub bytes_eq→eq : (xs ys : Bytes) → bytes_eq xs ys ≡ true → xs ≡ ys
unfolding bytes_eq
bytes_eq→eq [] [] h = refl
bytes_eq→eq [] (y ∷ ys) h = absurd (cc)
bytes_eq→eq (x ∷ xs) [] h = absurd (cc)
bytes_eq→eq (x ∷ xs) (y ∷ ys) h = ground (arith, bytes_eq→eq xs ys)

pub bytes_eq_iff : (a b : Bytes) → (bytes_eq a b ≡ true) ↔ (a ≡ b)
bytes_eq_iff a b = (bytes_eq→eq a b, λ e. subst (λ x. bytes_eq a x ≡ true) e (bytes_eq_refl a))

drop-drop : (m n : ℕ) (p : Bytes) → drop n (drop m p) ≡ drop (m + n) p
drop-drop zero n p = rw zero-add
drop-drop (suc m) zero [] = rw suc-add
drop-drop (suc m) (suc n) [] = rw suc-add
drop-drop (suc m) n (x ∷ p) = rw suc-add (drop-drop m n p)

cut-append-drop : (p : Bytes) (a b : ℕ) → a ≤ b → cut p a b ++ drop b p ≡ drop a p
cut-append-drop p a b h =
    let e : a + (b - a) ≡ b = omega arith in
    ap (λ d. cut p a b ++ d) (sym (drop-drop a (b - a) p ∙ ap (λ k. drop k p) e))
    ∙ take-append-drop (b - a) (drop a p)

drop_all : (n : ℕ) (p : Bytes) → length p ≤ n → drop n p ≡ []
drop_all zero [] h = refl
drop_all zero (x ∷ p) h = absurd (omega arith)
drop_all (suc n) [] h = refl
drop_all (suc n) (x ∷ p) h = drop_all n p (omega arith)

-- A key is its four words of eight bytes.
pub key_parts :
    (p : Bytes)
    → length p ≡ 32
    → cut p 0 8 ++ (cut p 8 16 ++ (cut p 16 24 ++ (cut p 24 32 ++ []))) ≡ p
key_parts p h =
    rw
      (
        ← drop_all 32 p (omega arith),
        cut-append-drop p 24 32 (omega arith),
        cut-append-drop p 16 24 (omega arith),
        cut-append-drop p 8 16 (omega arith),
      )
      (cut-append-drop p 0 8 (omega arith))

pub word-lt : (p : Bytes) (a : ℕ) → IsBytes p → a + 8 ≤ length p → word p a 8 < 2 ^ 64
word-lt p a h k = omega (
  arith,
  from_le-lt (cut p a (a + 8)) (cut-IsBytes p a (a + 8) h),
  ap (λ (n : ℕ). 256 ^ n) (length-cut p a (a + 8) k ∙ add_sub a),
)
  where
    add_sub : (a : ℕ) → a + 8 - a ≡ 8
    add_sub a = omega arith

pub to_le-word :
    (p : Bytes) (a b : ℕ) → IsBytes p → b ≡ a + 8 → b ≤ length p → to_le 8 (word p a 8) ≡ cut p a b
to_le-word p a b h e k =
    let n : length (cut p a b) ≡ 8 = length-cut p a b k ∙ omega arith in
    rw (← e, ← n) (to_le-from_le (cut p a b) (cut-IsBytes p a b h))
