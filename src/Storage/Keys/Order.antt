-- ===== src/Storage/Keys/Order.antt =====
-- The order of keys is a strict linear order, and setting a value keeps the entries ascending.
use qonduit.Common.{◌≡◌, refl, List, [], ◌∷◌, true, false, none, some, if◌then◌else◌, arith}
use qonduit.Bytes.{Bytes}
use qonduit.Core.Identity.{bytes_eq}
use qonduit.Core.Identity.Digits.{bytes_eq_iff}
use qonduit.Storage.Keys.{Entry, before, all_behind, ascending, value_at, set_value}

pub before_irrefl : (a : Bytes) → before a a ≡ false
unfolding before
before_irrefl [] = refl
before_irrefl (x ∷ xs) = ground (arith, before_irrefl xs)

pub before_trans : (a b c : Bytes) → before a b ≡ true → before b c ≡ true → before a c ≡ true
unfolding before
before_trans a b [] h k = absurd (cc)
before_trans a [] (z ∷ zs) h k = absurd (cc)
before_trans [] (y ∷ ys) (z ∷ zs) h k = refl
before_trans (x ∷ xs) (y ∷ ys) (z ∷ zs) h k = ground (arith, before_trans xs ys zs)

pub before_total : (a b : Bytes) → before a b ≡ false → before b a ≡ false → a ≡ b
unfolding before
before_total [] [] h k = refl
before_total [] (y ∷ ys) h k = absurd (cc)
before_total (x ∷ xs) [] h k = absurd (cc)
before_total (x ∷ xs) (y ∷ ys) h k = ground (arith, before_total xs ys)

pub before_asym : (a b : Bytes) → before a b ≡ true → before b a ≡ false
unfolding before
before_asym a [] h = absurd (cc)
before_asym [] (y ∷ ys) h = refl
before_asym (x ∷ xs) (y ∷ ys) h = ground (arith, before_asym xs ys)

pub all_behind_trans :
    (j k : Bytes) (es : List Entry)
    → before j k ≡ true
    → all_behind k es ≡ true
    → all_behind j es ≡ true
unfolding all_behind
all_behind_trans j k [] h a = refl
all_behind_trans j k ((i, v) ∷ es) h a = ground (arith, before_trans j k i, all_behind_trans j k es)

all_behind-set_value :
    (j k v : Bytes) (es : List Entry)
    → before j k ≡ true
    → all_behind j es ≡ true
    → all_behind j (set_value k v es) ≡ true
unfolding all_behind set_value
all_behind-set_value j k v [] h a = ground arith
all_behind-set_value j k v ((i, w) ∷ es) h a = ground (arith, all_behind-set_value j k v es)

pub set_value-ascending :
    (k v : Bytes) (es : List Entry) → ascending es ≡ true → ascending (set_value k v es) ≡ true
unfolding ascending set_value all_behind
set_value-ascending k v [] h = refl
set_value-ascending k v ((j, w) ∷ es) h = ground (
  arith,
  bytes_eq_iff j k,
  before_total j k,
  all_behind_trans k j es,
  all_behind-set_value j k v es,
  set_value-ascending k v es,
)

pub value_at-set_value :
    (k j v : Bytes) (es : List Entry)
    → value_at j (set_value k v es) ≡ (if bytes_eq k j then some v else value_at j es)
unfolding value_at set_value
value_at-set_value k j v [] = refl
value_at-set_value k j v ((i, w) ∷ es) =
    ground
      (arith, bytes_eq_iff i k, bytes_eq_iff k j, bytes_eq_iff i j, value_at-set_value k j v es)

-- The key of an entry that lies behind is another key.
pub value_at-behind : (k : Bytes) (es : List Entry) → all_behind k es ≡ true → value_at k es ≡ none
unfolding value_at all_behind
value_at-behind k [] h = refl
value_at-behind k ((j, v) ∷ es) h =
    ground (arith, bytes_eq_iff j k, before_irrefl k, value_at-behind k es)
