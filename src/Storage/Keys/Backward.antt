-- ===== src/Storage/Keys/Backward.antt =====
-- A scan backwards from the last key of a prefix sees the entries with the prefix, the last first.
use qonduit.Common.{
  All-reverse, ℕ, zero, suc, ◌+◌, ◌≡◌, refl, sym, ap, List, [], ◌∷◌, ◌++◌, reverse, true, false,
  arith, length, Bool-cases, inl, inr, All, ==_iff,
}
use qonduit.Bytes.{Bytes, IsBytes}
use qonduit.Storage.Keys.{
  Entry, before, all_behind, ascending, up_to_key, with_prefix, scan_prefix, has_prefix, KeysOf,
}
use qonduit.Storage.Keys.Order.{before_trans}
use qonduit.Storage.Keys.Ranges.{no_prefix_before, with_prefix_behind}
use mathlib.Core.List.{reverse-append}

-- `n` bytes 255.
abbrev pub top : ℕ → Bytes
top zero = []
top (suc n) = 255 ∷ top n

-- No key of a length lies behind the highest one.
top_last :
    (p k : Bytes) (n : ℕ)
    → has_prefix p k ≡ true
    → length k ≡ length p + n
    → IsBytes k
    → before (p ++ top n) k ≡ false
unfolding before has_prefix
top_last [] [] n h l b = ground arith
top_last [] (a ∷ k) zero h l b = absurd (omega arith)
top_last [] (a ∷ k) (suc n) h l (b, bs) = ground (arith, top_last [] k n)
top_last (x ∷ p) [] n h l b = absurd (omega arith)
top_last (x ∷ p) (a ∷ k) n h l (b, bs) = ground (arith, top_last p k n)

-- A key that is not before a prefix and does not start with it lies behind all that do.
past_prefix :
    (p k x : Bytes) → before k p ≡ false → has_prefix p k ≡ false → before (p ++ x) k ≡ true
unfolding before has_prefix
past_prefix [] k x h n = absurd (cc)
past_prefix (a ∷ p) [] x h n = absurd (cc)
past_prefix (a ∷ p) (b ∷ k) x h n = ground (arith, past_prefix p k x)

prefix_first : (p x : Bytes) → before (p ++ x) p ≡ false
unfolding before
prefix_first [] x = refl
prefix_first (a ∷ p) x = ground (arith, prefix_first p x)

scan_prefix-All :
    (n : ℕ) (p : Bytes) (xs ys : List Entry)
    → All (λ e. (length e.0 ≡ n) × (has_prefix p e.0 ≡ true)) xs
    → All (λ e. has_prefix p e.0 ≡ false) ys
    → scan_prefix n p (xs ++ ys) ≡ xs
unfolding scan_prefix
scan_prefix-All n p [] [] h k = refl
scan_prefix-All n p [] ((j, v) ∷ ys) h (k, ks) = ground arith
scan_prefix-All n p ((j, v) ∷ xs) ys ((l, h), hs) k =
    rw ((==_iff _ _).1 l, h, scan_prefix-All n p xs ys hs k)

module _ (p : Bytes) (n : ℕ) where
  -- From the first entry that is not before the prefix on, the entries up to the last key.
  up_to_key-run :
      (k v : Bytes) (es : List Entry)
      → KeysOf (length p + n) ((k, v) ∷ es)
      → ascending ((k, v) ∷ es) ≡ true
      → before k p ≡ false
      → up_to_key (p ++ top n) ((k, v) ∷ es) ≡ with_prefix p ((k, v) ∷ es)
  unfolding up_to_key with_prefix ascending all_behind KeysOf
  up_to_key-run k v [] ((l, b), ls) a h = elim (Bool-cases (has_prefix p k)) [
    | inl here ↦ rw (here, top_last p k n here l b)
    | inr other ↦ rw (other, past_prefix p k (top n) h other)
  ]
  up_to_key-run k v ((j, w) ∷ es) ((l, b), ls) a h = elim (Bool-cases (has_prefix p k)) [
    | inl here ↦
        let later : before j p ≡ false = ground (arith, before_trans k j p) in
        let rest : ascending ((j, w) ∷ es) ≡ true = ground arith in
        rw (here, top_last p k n here l b)
          (ap (λ r. (k, v) ∷ r) (up_to_key-run j w es ls rest later))
    | inr other ↦
        let behind : all_behind k ((j, w) ∷ es) ≡ true = ground arith in
        rw (other, past_prefix p k (top n) h other)
          (sym (with_prefix_behind p k ((j, w) ∷ es) h other behind))
  ]

  up_to_key-early :
      (k v : Bytes) (es : List Entry)
      → before k p ≡ true
      → (up_to_key (p ++ top n) ((k, v) ∷ es) ≡ (k, v) ∷ up_to_key (p ++ top n) es)
        × (with_prefix p ((k, v) ∷ es) ≡ with_prefix p es)
  unfolding up_to_key with_prefix
  up_to_key-early k v es h = (
    ground (arith, prefix_first p (top n), before_trans (p ++ top n) k p),
    ground (arith, no_prefix_before p k),
  )

  -- Up to the last key there are entries before the prefix, and then those with it.
  up_to_key-split :
      (es : List Entry)
      → KeysOf (length p + n) es
      → ascending es ≡ true
      → (below : List Entry) × All (λ e. has_prefix p e.0 ≡ false) below
        × (up_to_key (p ++ top n) es ≡ below ++ with_prefix p es)
  unfolding KeysOf
  up_to_key-split [] ls a = ([], tt, unfold up_to_key with_prefix in refl)
  up_to_key-split ((k, v) ∷ es) (l, ls) a = elim (Bool-cases (before k p)) [
    | inl early ↦
        let rest : ascending es ≡ true = unfold ascending in ground arith in
        let (below, none_there, split) = up_to_key-split es ls rest in
        let (more, same) = up_to_key-early k v es early in
        (
          (k, v) ∷ below,
          (no_prefix_before p k early, none_there),
          rw (more, same) (ap (λ r. (k, v) ∷ r) split),
        )
    | inr found ↦ ([], tt, up_to_key-run k v es (l, ls) a found)
  ]

  with_prefix-keys :
      (es : List Entry)
      → KeysOf (length p + n) es
      → All (λ e. (length e.0 ≡ length p + n) × (has_prefix p e.0 ≡ true)) (with_prefix p es)
  unfolding KeysOf with_prefix
  with_prefix-keys [] ls = tt
  with_prefix-keys ((k, v) ∷ es) ((l, b), ls) = elim (Bool-cases (has_prefix p k)) [
    | inl here ↦ rw here ((l, here), with_prefix-keys es ls)
    | inr other ↦ rw other (with_prefix-keys es ls)
  ]

  -- Backwards from the last key of the prefix, the scan returns the entries with the prefix.
  pub scan_prefix-backward :
      (es : List Entry)
      → KeysOf (length p + n) es
      → ascending es ≡ true
      → scan_prefix (length p + n) p (reverse (up_to_key (p ++ top n) es))
        ≡ reverse (with_prefix p es)
  scan_prefix-backward es ls a =
      let (below, others, split) = up_to_key-split es ls a in
      rw (split, reverse-append below (with_prefix p es))
        (scan_prefix-All (length p + n) p (reverse (with_prefix p es)) (reverse below)
          (All-reverse _ (with_prefix p es) (with_prefix-keys es ls)) (All-reverse _ below others))
