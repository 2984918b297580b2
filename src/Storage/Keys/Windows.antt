-- ===== src/Storage/Keys/Windows.antt =====
-- Windows of a list of entries or rows: from a number on, up to a number, and the last one.
use qonduit.Common.{
  ℕ, suc, ◌<◌, ◌^◌, ◌≡◌, refl, sym, ap, ◌∙◌, List, [], ◌∷◌, ◌++◌, true, ltb, none, some,
  if◌then◌else◌, arith, Bool-cases, inl, inr, All,
}
use qonduit.Bytes.{Bytes, to_be, from_be}
use qonduit.Bytes.Endian.{length-to_be, from_be-to_be}
use qonduit.Core.Identity.Digits.{bytes_eq_iff}
use qonduit.Storage.Keys.{
  Entry, before, all_behind, ascending, value_at, from_key, with_prefix, has_prefix, KeysOf,
}
use qonduit.Storage.Keys.Order.{before_irrefl, before_trans}
use qonduit.Storage.Keys.Numbers.{to_be-IsBytes, before-from_be}
use qonduit.Storage.Keys.Rows.{Row, rows, all_above, ascending_rows, row_at}

-- The rows from a number on.
unfoldable pub rows_from : ℕ → List Row → List Row
rows_from a [] = []
rows_from a ((i, v) ∷ rs) = if ltb i a then rows_from a rs else (i, v) ∷ rs

-- The rows up to a number.
unfoldable pub rows_to : ℕ → List Row → List Row
rows_to b [] = []
rows_to b ((i, v) ∷ rs) = let rest = rows_to b rs in if ltb b i then [] else (i, v) ∷ rest

all_above_trans : (i j : ℕ) (rs : List Row) → i < j → all_above j rs ≡ true → all_above i rs ≡ true
unfolding all_above
all_above_trans i j [] h a = refl
all_above_trans i j ((k, v) ∷ rs) h a = ground (arith, all_above_trans i j rs h)

row_at-above : (i j : ℕ) (rs : List Row) → i < suc j → all_above j rs ≡ true → row_at i rs ≡ none
unfolding all_above row_at
row_at-above i j [] h a = refl
row_at-above i j ((k, v) ∷ rs) h a = ground (arith, row_at-above i j rs h)

pub row_at-rows_from :
    (a i : ℕ) (rs : List Row)
    → ascending_rows rs ≡ true
    → row_at i (rows_from a rs) ≡ (if ltb i a then none else row_at i rs)
unfolding row_at rows_from ascending_rows
row_at-rows_from a i [] h = ground arith
row_at-rows_from a i ((j, v) ∷ rs) h = ground (arith, row_at-rows_from a i rs, row_at-above i j rs)

pub row_at-rows_to :
    (b i : ℕ) (rs : List Row)
    → ascending_rows rs ≡ true
    → row_at i (rows_to b rs) ≡ (if ltb b i then none else row_at i rs)
unfolding row_at rows_to ascending_rows
row_at-rows_to b i [] h = ground arith
row_at-rows_to b i ((j, v) ∷ rs) h = ground (arith, row_at-rows_to b i rs, row_at-above i j rs)

all_above-rows_to :
    (b i : ℕ) (rs : List Row) → all_above i rs ≡ true → all_above i (rows_to b rs) ≡ true
unfolding all_above rows_to
all_above-rows_to b i [] h = refl
all_above-rows_to b i ((j, v) ∷ rs) h = ground (arith, all_above-rows_to b i rs)

pub rows_to-ascending :
    (b : ℕ) (rs : List Row) → ascending_rows rs ≡ true → ascending_rows (rows_to b rs) ≡ true
unfolding ascending_rows rows_to all_above
rows_to-ascending b [] h = refl
rows_to-ascending b ((j, v) ∷ rs) h =
    ground (arith, rows_to-ascending b rs, all_above-rows_to b j rs)

pub rows_from-ascending :
    (a : ℕ) (rs : List Row) → ascending_rows rs ≡ true → ascending_rows (rows_from a rs) ≡ true
unfolding ascending_rows rows_from
rows_from-ascending a [] h = refl
rows_from-ascending a ((j, v) ∷ rs) h = ground (arith, rows_from-ascending a rs)

pub All-rows_from : (P : Row → Type 0) (a : ℕ) (rs : List Row) → All P rs → All P (rows_from a rs)
unfolding rows_from
All-rows_from P a [] h = tt
All-rows_from P a ((j, v) ∷ rs) (p, ps) = elim (Bool-cases (ltb j a)) [
  | inl passed ↦ rw passed (All-rows_from P a rs ps)
  | inr kept ↦ rw kept (p, ps)
]

pub All-rows_to : (P : Row → Type 0) (b : ℕ) (rs : List Row) → All P rs → All P (rows_to b rs)
unfolding rows_to
All-rows_to P b [] h = tt
All-rows_to P b ((j, v) ∷ rs) (p, ps) = elim (Bool-cases (ltb b j)) [
  | inl past ↦ rw past tt
  | inr kept ↦ rw kept (p, All-rows_to P b rs ps)
]

-- From the key of a number on there are the rows from the number on.
pub rows-from_key :
    (n a : ℕ) (es : List Entry)
    → a < 256 ^ n
    → KeysOf n es
    → rows [] (from_key (to_be n a) es) ≡ rows_from a (rows [] es)
unfolding rows with_prefix from_key rows_from KeysOf has_prefix
rows-from_key n a [] lt ls = refl
rows-from_key n a ((k, v) ∷ es) lt ((l, b), ls) =
    let order : before k (to_be n a) ≡ ltb (from_be k) a =
      before-from_be k (to_be n a) (l ∙ sym (length-to_be n a)) b (to_be-IsBytes n a)
      ∙ ap (ltb (from_be k)) (from_be-to_be n a lt) in
    elim (Bool-cases (ltb (from_be k) a)) [
      | inl early ↦ rw (order, early, rows-from_key n a es lt ls)
      | inr found ↦ rw (order, found)
    ]

all_behind-last :
    (i k v : Bytes) (es : List Entry) → all_behind i (es ++ (k, v) ∷ []) ≡ true → before i k ≡ true
unfolding all_behind
all_behind-last i k v [] h = ground arith
all_behind-last i k v ((j, w) ∷ es) h = ground (arith, all_behind-last i k v es)

-- Behind the last entry there is none.
pub value_at-after_last :
    (j k v : Bytes) (es : List Entry)
    → ascending (es ++ (k, v) ∷ []) ≡ true
    → before k j ≡ true
    → value_at j (es ++ (k, v) ∷ []) ≡ none
unfolding ascending value_at
value_at-after_last j k v [] h lt = ground (arith, bytes_eq_iff k j, before_irrefl k)
value_at-after_last j k v ((i, w) ∷ es) h lt = ground (
  arith,
  bytes_eq_iff i j,
  before_irrefl i,
  before_trans i k j,
  all_behind-last i k v es,
  value_at-after_last j k v es,
)

-- The last entry is found under its key.
pub value_at-last :
    (k v : Bytes) (es : List Entry)
    → ascending (es ++ (k, v) ∷ []) ≡ true
    → value_at k (es ++ (k, v) ∷ []) ≡ some v
unfolding ascending value_at
value_at-last k v [] h = ground (arith, bytes_eq_iff k k)
value_at-last k v ((i, w) ∷ es) h =
    ground
      (arith, bytes_eq_iff i k, before_irrefl i, all_behind-last i k v es, value_at-last k v es)
