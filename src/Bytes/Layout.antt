-- ===== src/Bytes/Layout.antt =====
-- A packed structure is the concatenation of its fields: reading a field at its offset gives it back.
use qonduit.Common.{
  ℕ, zero, suc, ◌+◌, ◌-◌, ◌≤◌, ◌<◌, ◌^◌, ◌≡◌, List, [], ◌∷◌, ◌++◌, length, drop, arith, ap,
  get_elem?, some, length-append, take-append_self, drop-append_self, append_assoc, ◌∙◌,
  some_injective,
}
use native.Mathlib.Nat.{zero-add, suc-add}
use qonduit.Bytes.Defs.{Bytes, ok, slice, read_le, to_le, from_le}
use qonduit.Bytes.Slices.{cut, word, slice-cut, read_le-word}
use qonduit.Bytes.Endian.{from_le-to_le, length-to_le}

-- The bytes of a packed structure.
abbrev pub packed : List Bytes → Bytes
packed [] = []
packed (f ∷ fs) = f ++ packed fs

-- The offset of field k.
abbrev pub offset : List Bytes → ℕ → ℕ
offset fs zero = 0
offset [] (suc k) = 0
offset (f ∷ fs) (suc k) = length f + offset fs k

drop-append : (n : ℕ) (xs ys : Bytes) → drop (length xs + n) (xs ++ ys) ≡ drop n ys
drop-append n [] ys = rw zero-add
drop-append n (x ∷ xs) ys = rw suc-add (drop-append n xs ys)

-- Dropping the fields before field k leaves field k and what follows it.
drop-offset :
    (fs : List Bytes) (rest f : Bytes) (k : ℕ)
    → get_elem? fs k ≡ some f
    → (after : Bytes) × (drop (offset fs k) (packed fs ++ rest) ≡ f ++ after)
drop-offset [] rest f k h = absurd (cc)
drop-offset (g ∷ fs) rest f zero h =
    (packed fs ++ rest, rw append_assoc (ap (λ x. x ++ (packed fs ++ rest)) (some_injective h)))
drop-offset (g ∷ fs) rest f (suc k) h =
    let (after, e) = drop-offset fs rest f k h in
    (after, rw append_assoc (drop-append (offset fs k) g (packed fs ++ rest) ∙ e))

length-packed_ge :
    (fs : List Bytes) (f : Bytes) (k : ℕ)
    → get_elem? fs k ≡ some f
    → offset fs k + length f ≤ length (packed fs)
length-packed_ge [] f k h = absurd (cc)
length-packed_ge (g ∷ fs) f zero h =
    omega (arith, length-append g (packed fs), ap length (some_injective h))
length-packed_ge (g ∷ fs) f (suc k) h =
    omega (arith, length-append g (packed fs), length-packed_ge fs f k h)

-- The cut at a field's offset, of the field's length, is the field, whatever follows the structure.
pub cut-packed :
    (fs : List Bytes) (rest f : Bytes) (k a b : ℕ)
    → get_elem? fs k ≡ some f
    → a ≡ offset fs k
    → b ≡ a + length f
    → cut (packed fs ++ rest) a b ≡ f
cut-packed fs rest f k a b h p q =
    let (after, e) = drop-offset fs rest f k h in
    let n : b - a ≡ length f = omega arith in rw (n, p, e) (take-append_self f after)

pub slice-packed :
    (fs : List Bytes) (rest f : Bytes) (k a b : ℕ)
    → get_elem? fs k ≡ some f
    → a ≡ offset fs k
    → b ≡ a + length f
    → slice (packed fs ++ rest) a b ≡ ok f
slice-packed fs rest f k a b h p q =
    slice-cut _ a b (omega arith)
      (omega (arith, length-append (packed fs) rest, length-packed_ge fs f k h))
    ∙ ap ok (cut-packed fs rest f k a b h p q)

-- An integer field is read back, if it fits.
pub word-packed :
    (fs : List Bytes) (rest : Bytes) (n v : ℕ) (k a : ℕ)
    → get_elem? fs k ≡ some (to_le n v)
    → a ≡ offset fs k
    → v < 256 ^ n
    → word (packed fs ++ rest) a n ≡ v
word-packed fs rest n v k a h p fits =
    ap from_le (cut-packed fs rest (to_le n v) k a (a + n) h p (omega (arith, length-to_le n v)))
    ∙ from_le-to_le n v fits

pub read-packed :
    (fs : List Bytes) (rest : Bytes) (n v : ℕ) (k a : ℕ)
    → get_elem? fs k ≡ some (to_le n v)
    → a ≡ offset fs k
    → v < 256 ^ n
    → read_le (packed fs ++ rest) a n ≡ ok v
read-packed fs rest n v k a h p fits =
    read_le-word _ a n (
      omega (
        arith,
        length-append (packed fs) rest,
        length-packed_ge fs (to_le n v) k h,
        length-to_le n v,
      ))
    ∙ ap ok (word-packed fs rest n v k a h p fits)

-- The length of a structure.
abbrev pub total_length : List Bytes → ℕ
total_length [] = 0
total_length (f ∷ fs) = length f + total_length fs

pub length-packed : (fs : List Bytes) → length (packed fs) ≡ total_length fs
length-packed [] = omega arith
length-packed (f ∷ fs) = omega (arith, length-append f (packed fs), length-packed fs)

pub ruleset sizes = (arith, length-to_le)

-- What stands behind a prefix.
pub cut-behind :
    (xs ys rest : Bytes) (a b : ℕ)
    → a ≡ length xs
    → b ≡ a + length ys
    → cut (xs ++ (ys ++ rest)) a b ≡ ys
cut-behind xs ys rest a b p q =
    let n : b - a ≡ length ys = omega arith in
    rw (n, p, drop-append_self xs (ys ++ rest)) (take-append_self ys rest)
