-- ===== src/Storage/Keys/Appends.antt =====
-- A value that is set under the next number of a prefix comes last among its rows, and leaves the
-- rows of the other prefixes alone.
use qonduit.Common.{
  ℕ, suc, ◌+◌, ◌<◌, ◌≤◌, ◌^◌, ◌≡◌, refl, sym, ap, ◌∙◌, List, [], ◌∷◌, ◌++◌, Bool, true, false, ◌&&◌,
  ◌==◌, ltb, arith, length, drop, Bool-cases, inl, inr, drop-append_self,
}
use qonduit.Bytes.{Bytes, to_be, from_be}
use qonduit.Bytes.Endian.{from_be-to_be, length-to_be}
use qonduit.Core.Identity.{bytes_eq}
use qonduit.Core.Identity.Digits.{bytes_eq_iff}
use qonduit.Storage.Keys.{
  Entry, before, all_behind, ascending, set_value, with_prefix, has_prefix, KeysOf,
}
use qonduit.Storage.Keys.Order.{before_asym, all_behind_trans}
use qonduit.Storage.Keys.Numbers.{has_prefix-append}
use qonduit.Storage.Keys.Rows.{Row, values, rows, suffix-eq, not_prefix}
use qonduit.Storage.Keys.Within.{before-number}

prefix-eq : (p q x : Bytes) → length p ≡ length q → has_prefix p (q ++ x) ≡ true → q ≡ p
unfolding has_prefix
prefix-eq [] [] x l h = refl
prefix-eq [] (b ∷ q) x l h = absurd (omega arith)
prefix-eq (a ∷ p) [] x l h = absurd (omega arith)
prefix-eq (a ∷ p) (b ∷ q) x l h = ground (arith, prefix-eq p q x)

-- All numbers lie below `i`.
unfoldable pub all_below : ℕ → List Row → Bool
all_below i [] = true
all_below i ((j, v) ∷ rs) = ltb j i && all_below i rs

pub rows-nil : (p : Bytes) → rows p [] ≡ []
unfolding rows with_prefix
rows-nil p = refl

pub rows-here :
    (p k v : Bytes) (es : List Entry)
    → has_prefix p k ≡ true
    → rows p ((k, v) ∷ es) ≡ (from_be (drop (length p) k), v) ∷ rows p es
unfolding rows with_prefix
rows-here p k v es h = rw h

pub rows-other :
    (p k v : Bytes) (es : List Entry) → has_prefix p k ≡ false → rows p ((k, v) ∷ es) ≡ rows p es
unfolding rows with_prefix
rows-other p k v es h = rw h

-- A key without the prefix changes none of its rows.
pub rows-set_value_other :
    (p k v : Bytes) (es : List Entry)
    → has_prefix p k ≡ false
    → rows p (set_value k v es) ≡ rows p es
unfolding set_value rows with_prefix
rows-set_value_other p k v [] h = rw h
rows-set_value_other p k v ((j, w) ∷ es) h = elim (Bool-cases (bytes_eq j k)) [
  | inl same ↦ let e : j ≡ k = (bytes_eq_iff j k).0 same in rw (same, e, h)
  | inr other ↦ elim (Bool-cases (before k j)) [
    | inl here ↦ rw (other, here, h)
    | inr later ↦ elim (Bool-cases (has_prefix p j)) [
      | inl with ↦
          rw (other, later, with)
            (ap (λ r. (from_be (drop (length p) j), w) ∷ r) (rows-set_value_other p k v es h))
      | inr without ↦ rw (other, later, without) (rows-set_value_other p k v es h)
    ]
  ]
]

module _ (p : Bytes) (n i : ℕ) (lt : i < 256 ^ n) where
  -- Behind the key of `i` there is no row, if all are below `i`.
  rows-behind :
      (es : List Entry)
      → KeysOf (length p + n) es
      → all_behind (p ++ to_be n i) es ≡ true
      → all_below i (rows p es) ≡ true
      → rows p es ≡ []
  unfolding rows with_prefix all_below all_behind KeysOf
  rows-behind [] ls a b = refl
  rows-behind ((j, w) ∷ es) (l, ls) a b = elim (Bool-cases (has_prefix p j)) [
    | inl here ↦
        let first : before j (p ++ to_be n i) ≡ true =
          before-number p n i lt j here l ∙ ground arith in
        absurd (ground (arith, before_asym j (p ++ to_be n i) first))
    | inr other ↦ ground (arith, rows-behind es ls)
  ]

  key_row : (v : Bytes) (es : List Entry) → rows p ((p ++ to_be n i, v) ∷ es) ≡ (i, v) ∷ rows p es
  key_row v es =
      rows-here p (p ++ to_be n i) v es (has_prefix-append p (to_be n i))
      ∙ ap (λ x. (x, v) ∷ rows p es)
          (ap from_be (drop-append_self p (to_be n i)) ∙ from_be-to_be n i lt)

  -- The value under the next number comes last.
  pub rows-set_value :
      (v : Bytes) (es : List Entry)
      → KeysOf (length p + n) es
      → ascending es ≡ true
      → all_below i (rows p es) ≡ true
      → rows p (set_value (p ++ to_be n i) v es) ≡ rows p es ++ (i, v) ∷ []
  unfolding set_value ascending all_below KeysOf
  rows-set_value v [] ls a b = key_row v [] ∙ rw (rows-nil p)
  rows-set_value v ((j, w) ∷ es) (l, ls) a b = elim (Bool-cases (has_prefix p j)) [
    | inl here ↦
        let low : all_below i ((from_be (drop (length p) j), w) ∷ rows p es) ≡ true =
          ap (all_below i) (sym (rows-here p j w es here)) ∙ b in
        let below : ltb (from_be (drop (length p) j)) i ≡ true = ground arith in
        let rest : all_below i (rows p es) ≡ true = ground arith in
        let early : before j (p ++ to_be n i) ≡ true = before-number p n i lt j here l ∙ below in
        let distinct : bytes_eq j (p ++ to_be n i) ≡ false =
          sym (suffix-eq p n j i here l lt) ∙ ground arith in
        let sorted : ascending es ≡ true = ground arith in
        rw
          (
            distinct,
            before_asym j (p ++ to_be n i) early,
            rows-here p j w (set_value (p ++ to_be n i) v es) here,
            rows-here p j w es here,
          )
          (ap (λ r. (from_be (drop (length p) j), w) ∷ r) (rows-set_value v es ls sorted rest))
    | inr other ↦ elim (Bool-cases (before (p ++ to_be n i) j)) [
      | inl first ↦
          let rest : all_below i (rows p es) ≡ true =
            ap (all_below i) (sym (rows-other p j w es other)) ∙ b in
          let behind : all_behind (p ++ to_be n i) es ≡ true =
            all_behind_trans (p ++ to_be n i) j es first (ground arith) in
          rw (
            not_prefix p n j i other,
            first,
            key_row v ((j, w) ∷ es),
            rows-other p j w es other,
            rows-behind es ls behind rest,
          )
      | inr later ↦
          let rest : all_below i (rows p es) ≡ true =
            ap (all_below i) (sym (rows-other p j w es other)) ∙ b in
          let sorted : ascending es ≡ true = ground arith in
          rw
            (
              not_prefix p n j i other,
              later,
              rows-other p j w (set_value (p ++ to_be n i) v es) other,
              rows-other p j w es other,
            )
            (rows-set_value v es ls sorted rest)
    ]
  ]

-- The rows of values numbered from `i` on.
unfoldable pub count_up : ℕ → List Bytes → List Row
count_up i [] = []
count_up i (v ∷ vs) = (i, v) ∷ count_up (i + 1) vs

pub count_up-append :
    (i : ℕ) (vs : List Bytes) (v : Bytes)
    → (n : ℕ) → n ≡ i + length vs
    → count_up i vs ++ (n, v) ∷ [] ≡ count_up i (vs ++ v ∷ [])
unfolding count_up
count_up-append i [] v n h = ap (λ n. (n, v) ∷ []) (omega arith)
count_up-append i (w ∷ vs) v n h =
    ap (λ r. (i, w) ∷ r) (count_up-append (i + 1) vs v n (omega arith))

all_below-count_up :
    (i n : ℕ) (vs : List Bytes) → i + length vs ≤ n → all_below n (count_up i vs) ≡ true
unfolding all_below count_up
all_below-count_up i n [] h = refl
all_below-count_up i n (v ∷ vs) h = ground (arith, all_below-count_up (i + 1) n vs (omega arith))

pub length-count_up : (i : ℕ) (vs : List Bytes) → length (count_up i vs) ≡ length vs
unfolding count_up
length-count_up i [] = refl
length-count_up i (v ∷ vs) = ap suc (length-count_up (i + 1) vs)

pub values-count_up : (i : ℕ) (vs : List Bytes) → values (count_up i vs) ≡ vs
unfolding count_up
values-count_up i [] = refl
values-count_up i (v ∷ vs) = ap (λ l. v ∷ l) (values-count_up (i + 1) vs)

-- Rows without values are numbered from any number on.
pub no_values-count_up : (rs : List Row) → values rs ≡ [] → rs ≡ count_up 0 []
unfolding count_up
no_values-count_up [] h = refl
no_values-count_up (r ∷ rs) h = absurd (cc)

-- A key that starts with another number does not have the prefix.
pub has_prefix-to_be :
    (n a b : ℕ) (x : Bytes)
    → a < 256 ^ n
    → b < 256 ^ n
    → (a == b) ≡ false
    → has_prefix (to_be n a) (to_be n b ++ x) ≡ false
has_prefix-to_be n a b x la lb h = elim (Bool-cases (has_prefix (to_be n a) (to_be n b ++ x))) [
  | inr other ↦ other
  | inl here ↦
      let same : to_be n b ≡ to_be n a =
        prefix-eq (to_be n a) (to_be n b) x (omega (arith, length-to_be n a, length-to_be n b))
          here in
      let equal : a ≡ b =
        sym (from_be-to_be n a la) ∙ ap from_be (sym same) ∙ from_be-to_be n b lb in
      absurd (ground arith)
]

-- One more value under the next number.
pub rows-set_next :
    (p : Bytes) (n : ℕ) (v : Bytes) (vs : List Bytes) (es : List Entry)
    → length vs < 256 ^ n
    → KeysOf (length p + n) es
    → ascending es ≡ true
    → rows p es ≡ count_up 0 vs
    → rows p (set_value (p ++ to_be n (length vs)) v es) ≡ count_up 0 (vs ++ v ∷ [])
rows-set_next p n v vs es lt ls a h =
    rows-set_value p n (length vs) lt v es ls a
      (ap (all_below (length vs)) h ∙ all_below-count_up 0 (length vs) vs (omega arith))
    ∙ ap (λ r. r ++ (length vs, v) ∷ []) h
    ∙ count_up-append 0 vs v (length vs) (omega arith)
