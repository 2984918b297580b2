-- ===== src/Storage/Keys/Rows.antt =====
-- The rows of a prefix: the numbers that follow the prefix in the keys, with their values.
use qonduit.Common.{
  ℕ, ◌+◌, ◌^◌, ◌<◌, ◌≡◌, refl, sym, ap, ◌∙◌, List, [], ◌∷◌, ◌++◌, map, Bool, true, false, ◌&&◌,
  ◌==◌, ltb, Option, none, some, if◌then◌else◌, arith, length, drop, length-drop, All-drop, All,
  subst, drop-append_self, ==_iff, Bool-cases, inl, inr,
}
use qonduit.Bytes.{Bytes, IsByte, IsBytes, to_be, from_be}
use qonduit.Bytes.Endian.{length-to_be, from_be-to_be}
use qonduit.Core.Identity.{bytes_eq}
use qonduit.Core.Identity.Digits.{bytes_eq_iff}
use qonduit.Storage.Keys.{
  Entry, before, all_behind, ascending, value_at, has_prefix, with_prefix, KeysOf,
}
use qonduit.Storage.Keys.Numbers.{
  from_be-lt, to_be-IsBytes, before-from_be, from_be-injective, before-prefix, has_prefix-split,
  has_prefix-append,
}

-- A number and a value.
abbrev pub Row : Type 0
Row = ℕ × Bytes

unfoldable pub rows : Bytes → List Entry → List Row
rows p es = map (λ e. (from_be (drop (length p) e.0), e.1)) (with_prefix p es)

unfoldable pub all_above : ℕ → List Row → Bool
all_above i [] = true
all_above i ((j, v) ∷ rs) = ltb i j && all_above i rs

-- Strictly ascending numbers.
unfoldable pub ascending_rows : List Row → Bool
ascending_rows [] = true
ascending_rows ((i, v) ∷ rs) = all_above i rs && ascending_rows rs

unfoldable pub row_at : ℕ → List Row → Option Bytes
row_at i [] = none
row_at i ((j, v) ∷ rs) = if j == i then some v else row_at i rs

-- The rows are in ascending order, all below the bound, and what `at` says below it.
pub record IsListing (at : ℕ → Option Bytes) (bound : ℕ) (rs : List Row) : Type 0 where
  pub in_order : ascending_rows rs ≡ true
  pub below : All (λ (r : Row). r.0 < bound) rs
  pub complete : (i : ℕ) → i < bound → row_at i rs ≡ at i

-- The values of the rows.
abbrev pub values : List Row → List Bytes
values rs = map (λ r. r.1) rs

module _ (p : Bytes) (n : ℕ) where
  abbrev suffix : Bytes → Bytes
  suffix k = drop (length p) k

  length-suffix : (k : Bytes) → length k ≡ length p + n → length (suffix k) ≡ n
  length-suffix k l = omega (arith, length-drop (length p) k)

  before-suffix :
      (j k : Bytes)
      → has_prefix p j ≡ true
      → has_prefix p k ≡ true
      → (length j ≡ length p + n) × IsBytes j
      → (length k ≡ length p + n) × IsBytes k
      → before j k ≡ ltb (from_be (suffix j)) (from_be (suffix k))
  before-suffix j k h g (l, b) (m, c) =
      cc (has_prefix-split p j h, has_prefix-split p k g, before-prefix p (suffix j) (suffix k))
      ∙ before-from_be (suffix j) (suffix k) (length-suffix j l ∙ sym (length-suffix k m))
          (All-drop IsByte (length p) j b) (All-drop IsByte (length p) k c)

  all_above-rows :
      (k : Bytes) (es : List Entry)
      → has_prefix p k ≡ true
      → (length k ≡ length p + n) × IsBytes k
      → KeysOf (length p + n) es
      → all_behind k es ≡ true
      → all_above (from_be (suffix k)) (rows p es) ≡ true
  unfolding all_above rows with_prefix all_behind KeysOf
  all_above-rows k [] h s ls a = refl
  all_above-rows k ((j, v) ∷ es) h s (l, ls) a = elim (Bool-cases (has_prefix p j)) [
    | inl here ↦ ground (arith, before-suffix k j h here s l, all_above-rows k es h s ls)
    | inr other ↦ ground (arith, all_above-rows k es h s ls)
  ]

  -- The rows of a prefix are in ascending order.
  pub rows-ascending :
      (es : List Entry)
      → KeysOf (length p + n) es
      → ascending es ≡ true
      → ascending_rows (rows p es) ≡ true
  unfolding ascending_rows rows with_prefix ascending KeysOf
  rows-ascending [] ls a = refl
  rows-ascending ((k, v) ∷ es) (l, ls) a = elim (Bool-cases (has_prefix p k)) [
    | inl here ↦ ground (arith, all_above-rows k es here l ls, rows-ascending es ls)
    | inr other ↦ ground (arith, rows-ascending es ls)
  ]

  -- The rows of a prefix are below the bound of the numbers in the keys.
  pub rows-below :
      (es : List Entry) → KeysOf (length p + n) es → All (λ (r : Row). r.0 < 256 ^ n) (rows p es)
  unfolding rows with_prefix KeysOf
  rows-below [] ls = tt
  rows-below ((k, v) ∷ es) ((l, b), ls) = elim (Bool-cases (has_prefix p k)) [
    | inl here ↦
        let low : from_be (suffix k) < 256 ^ n =
          subst (λ m. from_be (suffix k) < 256 ^ m) (length-suffix k l)
            (from_be-lt (suffix k) (All-drop IsByte (length p) k b)) in
        rw here (low, rows-below es ls)
    | inr other ↦ rw other (rows-below es ls)
  ]

  pub suffix-eq :
      (k : Bytes) (i : ℕ)
      → has_prefix p k ≡ true
      → (length k ≡ length p + n) × IsBytes k
      → i < 256 ^ n
      → (from_be (suffix k) == i) ≡ bytes_eq k (p ++ to_be n i)
  suffix-eq k i h (l, b) lt = elim (Bool-cases (from_be (suffix k) == i)) [
    | inl same ↦
        let s : suffix k ≡ to_be n i =
          from_be-injective (suffix k) (to_be n i) (length-suffix k l ∙ sym (length-to_be n i))
            (All-drop IsByte (length p) k b) (to_be-IsBytes n i)
            ((==_iff _ _).0 same ∙ sym (from_be-to_be n i lt)) in
        same ∙ sym ((bytes_eq_iff _ _).1 (has_prefix-split p k h ∙ ap (λ x. p ++ x) s))
    | inr other ↦ elim (Bool-cases (bytes_eq k (p ++ to_be n i))) [
      | inl equal ↦
          let s : suffix k ≡ to_be n i =
            ap (λ x. drop (length p) x) ((bytes_eq_iff _ _).0 equal)
            ∙ drop-append_self p (to_be n i) in
          absurd (cc (other, (==_iff _ _).1 (ap from_be s ∙ from_be-to_be n i lt)))
      | inr unequal ↦ other ∙ sym unequal
    ]
  ]

  pub not_prefix :
      (k : Bytes) (i : ℕ) → has_prefix p k ≡ false → bytes_eq k (p ++ to_be n i) ≡ false
  not_prefix k i h = elim (Bool-cases (bytes_eq k (p ++ to_be n i))) [
    | inl equal ↦
        absurd
          (cc (h, has_prefix-append p (to_be n i), ap (has_prefix p) ((bytes_eq_iff _ _).0 equal)))
    | inr unequal ↦ unequal
  ]

  -- The row of a number has the value of the key with this number.
  pub row_at-rows :
      (i : ℕ) (es : List Entry)
      → i < 256 ^ n
      → KeysOf (length p + n) es
      → row_at i (rows p es) ≡ value_at (p ++ to_be n i) es
  unfolding row_at rows with_prefix value_at KeysOf
  row_at-rows i [] lt ls = refl
  row_at-rows i ((k, v) ∷ es) lt (l, ls) = elim (Bool-cases (has_prefix p k)) [
    | inl here ↦ rw (here, suffix-eq k i here l lt, row_at-rows i es lt ls)
    | inr other ↦ rw (other, not_prefix k i other) (row_at-rows i es lt ls)
  ]
