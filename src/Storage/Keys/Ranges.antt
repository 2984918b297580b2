-- ===== src/Storage/Keys/Ranges.antt =====
-- A scan from a prefix on sees the entries with the prefix, and no others.
use qonduit.Common.{ℕ, ◌≡◌, refl, List, [], ◌∷◌, true, false, arith, Bool-cases, inl, inr}
use qonduit.Bytes.{Bytes}
use qonduit.Storage.Keys.{
  Entry, before, all_behind, ascending, from_key, has_prefix, with_prefix, scan_prefix, KeysOf,
}
use qonduit.Storage.Keys.Order.{before_trans}

-- A key before a prefix does not start with it.
pub no_prefix_before : (p k : Bytes) → before k p ≡ true → has_prefix p k ≡ false
unfolding before has_prefix
no_prefix_before [] k h = absurd (cc)
no_prefix_before (a ∷ ps) [] h = refl
no_prefix_before (a ∷ ps) (b ∷ ks) h = ground (arith, no_prefix_before ps ks)

-- Behind the keys with a prefix no key starts with it.
no_prefix_behind :
    (p k j : Bytes)
    → before k p ≡ false
    → has_prefix p k ≡ false
    → before k j ≡ true
    → has_prefix p j ≡ false
unfolding before has_prefix
no_prefix_behind [] k j h n l = absurd (cc)
no_prefix_behind (a ∷ ps) [] j h n l = absurd (cc)
no_prefix_behind (a ∷ ps) (b ∷ ks) [] h n l = refl
no_prefix_behind (a ∷ ps) (b ∷ ks) (c ∷ js) h n l = ground (arith, no_prefix_behind ps ks js)

pub with_prefix_behind :
    (p k : Bytes) (es : List Entry)
    → before k p ≡ false
    → has_prefix p k ≡ false
    → all_behind k es ≡ true
    → with_prefix p es ≡ []
unfolding with_prefix all_behind
with_prefix_behind p k [] h n l = refl
with_prefix_behind p k ((j, v) ∷ es) h n l =
    ground (arith, no_prefix_behind p k j, with_prefix_behind p k es)

pub scan_prefix-run :
    (n : ℕ) (p k v : Bytes) (es : List Entry)
    → KeysOf n ((k, v) ∷ es)
    → ascending ((k, v) ∷ es) ≡ true
    → before k p ≡ false
    → scan_prefix n p ((k, v) ∷ es) ≡ with_prefix p ((k, v) ∷ es)
unfolding scan_prefix with_prefix ascending all_behind KeysOf
scan_prefix-run n p k v [] ((l, b), ls) a h = ground arith
scan_prefix-run n p k v ((j, w) ∷ es) ((l, b), ls) a h = elim (Bool-cases (has_prefix p k)) [
  | inl here ↦
      let later : before j p ≡ false = ground (arith, before_trans k j p) in
      ground (arith, scan_prefix-run n p j w es ls)
  | inr stop ↦ ground (arith, no_prefix_behind p k j, with_prefix_behind p k es)
]

-- Forward from the prefix, the scan returns the entries with the prefix, in order.
pub scan_prefix-from_key :
    (n : ℕ) (p : Bytes) (es : List Entry)
    → KeysOf n es
    → ascending es ≡ true
    → scan_prefix n p (from_key p es) ≡ with_prefix p es
unfolding from_key KeysOf
scan_prefix-from_key n p [] l a = unfold scan_prefix with_prefix in refl
scan_prefix-from_key n p ((k, v) ∷ es) (l, ls) a = elim (Bool-cases (before k p)) [
  | inl early ↦
      let rest : ascending es ≡ true = unfold ascending in ground arith in
      rw (early, scan_prefix-from_key n p es ls rest)
        (unfold with_prefix in ground (arith, no_prefix_before p k))
  | inr found ↦ rw found (scan_prefix-run n p k v es (l, ls) a found)
]
