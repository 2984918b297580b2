-- ===== src/Bytes/Slices.antt =====
-- When slices succeed, and what they return.
use qonduit.Common.{
  ℕ, ◌+◌, ◌-◌, ◌≤◌, ◌≡◌, length, take, drop, arith, All-take, All-drop, length-take, length-drop,
}
use qonduit.Bytes.Defs.{Bytes, IsByte, IsBytes, ok, slice, read_le, from_le}

-- The bytes from a up to b.
abbrev pub cut : Bytes → ℕ → ℕ → Bytes
cut p a b = take (b - a) (drop a p)

-- The little-endian word of n bytes at a.
abbrev pub word : Bytes → ℕ → ℕ → ℕ
word p a n = from_le (cut p a (a + n))

pub slice-cut : (p : Bytes) (a b : ℕ) → a ≤ b → b ≤ length p → slice p a b ≡ ok (cut p a b)
unfolding slice
slice-cut p a b h k = ground arith

pub read_le-word : (p : Bytes) (a n : ℕ) → a + n ≤ length p → read_le p a n ≡ ok (word p a n)
unfolding read_le
read_le-word p a n h = rw (slice-cut p a (a + n) (omega arith) h)

pub length-cut : (p : Bytes) (a b : ℕ) → b ≤ length p → length (cut p a b) ≡ b - a
length-cut p a b h = omega (arith, length-take (b - a) (drop a p), length-drop a p)

pub cut-IsBytes : (p : Bytes) (a b : ℕ) → IsBytes p → IsBytes (cut p a b)
cut-IsBytes p a b h = All-take IsByte (b - a) (drop a p) (All-drop IsByte a p h)
