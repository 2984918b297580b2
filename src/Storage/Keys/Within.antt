-- ===== src/Storage/Keys/Within.antt =====
-- A scan of a prefix that starts at a number within it.
use qonduit.Common.{
  ℕ, ◌+◌, ◌<◌, ◌^◌, ◌≡◌, refl, sym, ap, ◌∙◌, List, [], ◌∷◌, ◌++◌, map, true, false, ltb, arith,
  length, drop, Bool-cases, inl, inr, length-drop, All-drop,
}
use qonduit.Bytes.{Bytes, IsByte, IsBytes, to_be, from_be}
use qonduit.Bytes.Endian.{length-to_be, from_be-to_be}
use qonduit.Storage.Keys.{
  Entry, before, all_behind, ascending, from_key, with_prefix, scan_prefix, has_prefix, KeysOf,
}
use qonduit.Storage.Keys.Numbers.{to_be-IsBytes, before-from_be, before-prefix, has_prefix-split}
use qonduit.Storage.Keys.Ranges.{scan_prefix-run, with_prefix_behind}
use qonduit.Storage.Keys.Rows.{rows}
use qonduit.Storage.Keys.Windows.{rows_from}

-- A key before a prefix is before all keys that start with it.
before-append : (k p x : Bytes) → before k p ≡ true → before k (p ++ x) ≡ true
unfolding before
before-append k [] x h = absurd (cc)
before-append [] (a ∷ p) x h = refl
before-append (b ∷ k) (a ∷ p) x h = ground (arith, before-append k p x)

module _ (p : Bytes) (n a : ℕ) (lt : a < 256 ^ n) where
  pub before-number :
      (k : Bytes)
      → has_prefix p k ≡ true
      → (length k ≡ length p + n) × IsBytes k
      → before k (p ++ to_be n a) ≡ ltb (from_be (drop (length p) k)) a
  before-number k h (l, b) =
      let low : length (drop (length p) k) ≡ n = omega (arith, length-drop (length p) k) in
      ap (λ j. before j (p ++ to_be n a)) (has_prefix-split p k h)
      ∙ before-prefix p (drop (length p) k) (to_be n a)
      ∙ before-from_be (drop (length p) k) (to_be n a) (low ∙ sym (length-to_be n a))
          (All-drop IsByte (length p) k b) (to_be-IsBytes n a)
      ∙ ap (ltb (from_be (drop (length p) k))) (from_be-to_be n a lt)

  rows-run :
      (k v : Bytes) (es : List Entry)
      → (length k ≡ length p + n) × IsBytes k
      → ascending ((k, v) ∷ es) ≡ true
      → before k (p ++ to_be n a) ≡ false
      → before k p ≡ false
      → rows_from a (rows p ((k, v) ∷ es)) ≡ rows p ((k, v) ∷ es)
  unfolding rows with_prefix rows_from ascending
  rows-run k v es s h later after = elim (Bool-cases (has_prefix p k)) [
    | inl here ↦
        let above : ltb (from_be (drop (length p) k)) a ≡ false =
          sym (before-number k here s) ∙ later in
        rw (here, above)
    | inr other ↦
        let behind : all_behind k es ≡ true = ground arith in
        rw (other, with_prefix_behind p k es after other behind)
  ]

  rows-skip :
      (k v : Bytes) (es : List Entry)
      → (length k ≡ length p + n) × IsBytes k
      → before k (p ++ to_be n a) ≡ true
      → rows_from a (rows p ((k, v) ∷ es)) ≡ rows_from a (rows p es)
  unfolding rows with_prefix rows_from
  rows-skip k v es s early = elim (Bool-cases (has_prefix p k)) [
    | inl here ↦
        let below : ltb (from_be (drop (length p) k)) a ≡ true =
          sym (before-number k here s) ∙ early in
        rw (here, below)
    | inr other ↦ rw other
  ]

  -- The scan returns the rows of the prefix from the number on.
  pub scan_prefix-within :
      (es : List Entry)
      → KeysOf (length p + n) es
      → ascending es ≡ true
      → map
          (λ e. (from_be (drop (length p) e.0), e.1))
          (scan_prefix (length p + n) p (from_key (p ++ to_be n a) es))
        ≡ rows_from a (rows p es)
  unfolding KeysOf from_key
  scan_prefix-within [] ls h = unfold scan_prefix rows with_prefix rows_from in refl
  scan_prefix-within ((k, v) ∷ es) (s, ls) h = elim (Bool-cases (before k (p ++ to_be n a))) [
    | inl early ↦
        let rest : ascending es ≡ true = unfold ascending in ground arith in
        rw (early, rows-skip k v es s early) (scan_prefix-within es ls rest)
    | inr later ↦
        let after : before k p ≡ false = ground (arith, before-append k p (to_be n a)) in
        rw
          (
            later,
            rows-run k v es s h later after,
            scan_prefix-run (length p + n) p k v es (s, ls) h after,
          )
          (unfold rows in refl)
  ]
