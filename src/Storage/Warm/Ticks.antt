-- ===== src/Storage/Warm/Ticks.antt =====
-- The reads of whole column families with numbered keys: the range of ticks, and the latest tick,
-- list of computors and oracle entry.
use qonduit.Common.{
  ℕ, ◌^◌, ◌<◌, ◌≡◌, refl, sym, ap, ◌∙◌, List, [], ◌∷◌, ◌++◌, reverse, true, ltb, length, ==_iff,
  ◌||◌, Option, none, some, if◌then◌else◌, arith, Bool-cases, inl, inr, All-append_right, subst,
}
use qonduit.Bytes.{Bytes, to_be, from_be}
use qonduit.Bytes.Endian.{length-to_be, from_be-to_be}
use qonduit.Storage.Keys.{
  Entry, ascending, before, value_at, from_key, has_prefix, with_prefix, KeysOf,
}
use qonduit.Storage.Keys.Numbers.{to_be-IsBytes, before-from_be, from_be-lt, to_be-from_be}
use qonduit.Storage.Keys.Rows.{Row, IsListing, rows, rows-ascending, rows-below, row_at-rows}
use qonduit.Storage.Keys.Windows.{
  rows_to, row_at-rows_from, row_at-rows_to, rows_from-ascending, rows_to-ascending, rows-from_key,
  All-rows_from, All-rows_to, value_at-after_last, value_at-last,
}
use qonduit.Storage.Database.{Cf, cf_tick, cf_computors, cf_oracle, start, end, Database, IsLawful}
use qonduit.Storage.Warm.{get_tick, get_computors, get_oracle}
use qonduit.Storage.Warm.Scans.{
  collect_ticks, get_tick_range, first_number, get_latest_tick, get_latest_computors,
  get_latest_oracle,
}
use qonduit.Storage.Warm.Valid.{IsValid}
use mathlib.Core.List.{reverse-cons, reverse-reverse}
use mathlib.Core.Path.{fun_ext}

collect_ticks-rows_to :
    (to : ℕ) (es : List Entry) → KeysOf 4 es → collect_ticks to es ≡ rows_to to (rows [] es)
unfolding collect_ticks rows_to rows with_prefix KeysOf has_prefix
collect_ticks-rows_to to [] ls = refl
collect_ticks-rows_to to ((k, v) ∷ es) ((l, b), ls) = rw (l, collect_ticks-rows_to to es ls)

KeysOf-from_key : (n : ℕ) (k : Bytes) (es : List Entry) → KeysOf n es → KeysOf n (from_key k es)
unfolding KeysOf from_key
KeysOf-from_key n k [] ls = tt
KeysOf-from_key n k ((j, v) ∷ es) (l, ls) = elim (Bool-cases (before j k)) [
  | inl early ↦ rw early (KeysOf-from_key n k es ls)
  | inr found ↦ rw found (l, ls)
]

-- A result is the greatest number with a value, together with the value, or there is none.
pub data IsGreatest (at : ℕ → Option Bytes) (bound : ℕ) : Option Row → Type 0 where
  empty : ((i : ℕ) → i < bound → at i ≡ none) → IsGreatest at bound none
  found :
      (t : ℕ) (v : Bytes)
      → t < bound
      → at t ≡ some v
      → ((i : ℕ) → t < i → i < bound → at i ≡ none)
      → IsGreatest at bound (some (t, v))

first_number-reverse-IsGreatest :
    (n : ℕ) (es ys : List Entry)
    → KeysOf n es
    → ascending es ≡ true
    → es ≡ reverse ys
    → IsGreatest (λ i. value_at (to_be n i) es) (256 ^ n) (first_number n ys)
unfolding first_number KeysOf
first_number-reverse-IsGreatest n es [] ls a h =
    IsGreatest.empty (λ i lt. ap (value_at (to_be n i)) h ∙ (unfold value_at in refl))
first_number-reverse-IsGreatest n es ((k, v) ∷ ys) ls a h =
    let split : es ≡ reverse ys ++ (k, v) ∷ [] = h ∙ reverse-cons (k, v) ys in
    let order : ascending (reverse ys ++ (k, v) ∷ []) ≡ true = ap ascending (sym split) ∙ a in
    let fit : KeysOf n ((k, v) ∷ []) =
      All-append_right _ (reverse ys) ((k, v) ∷ []) (subst (λ l. KeysOf n l) split ls) in
    let ((l, b), _) = fit in
    let back : to_be n (from_be k) ≡ k = to_be-from_be n k l b in
    let same : value_at (to_be n (from_be k)) es ≡ some v =
      ap (λ j. value_at j es) back ∙ ap (value_at k) split ∙ value_at-last k v (reverse ys) order in
    let later : (i : ℕ) → from_be k < i → i < 256 ^ n → value_at (to_be n i) es ≡ none =
      λ i above lt.
        ap (value_at (to_be n i)) split
        ∙ value_at-after_last (to_be n i) k v (reverse ys) order (
            before-from_be k (to_be n i) (l ∙ sym (length-to_be n i)) b (to_be-IsBytes n i)
            ∙ ground (arith, from_be-to_be n i lt)) in
    rw ((==_iff (length k) n).1 l) (
      IsGreatest.found (from_be k) v (subst (λ m. from_be k < 256 ^ m) l (from_be-lt k b)) same
        later)

module _ (db : Database) (laws : IsLawful db) (s : db.Store) where
  first_number-end-IsGreatest :
      (n : ℕ) (c : Cf)
      → KeysOf n (db.iterator_cf s c start)
      → IsGreatest
          (λ i. db.get_cf s c (to_be n i))
          (256 ^ n)
          (first_number n (db.iterator_cf s c end))
  first_number-end-IsGreatest n c keys =
      let es = db.iterator_cf s c start in
      rw (fun_ext (λ i. laws.get_iterator s c (to_be n i)), laws.from_end s c)
        (first_number-reverse-IsGreatest n es (reverse es) keys (laws.sorted s c)
          (sym (reverse-reverse es)))

  -- The range of ticks is empty or ascending; a tick is in it, with its stored data, just when it
  -- lies between the two bounds, both included, and is stored.
  pub get_tick_range-IsListing :
      (from to : ℕ)
      → from < 2 ^ 32
      → IsValid db s
      → IsListing
          (λ t. if ltb t from || ltb to t then none else get_tick db t s)
          (2 ^ 32)
          (get_tick_range db from to s)
  unfolding get_tick_range get_tick
  get_tick_range-IsListing from to lt valid =
      let es = db.iterator_cf s cf_tick start in
      let keys : KeysOf 4 es = unfold KeysOf in valid cf_tick in
      let all = rows-ascending [] 4 es keys (laws.sorted s cf_tick) in
      rw
        (
          laws.from_forward s cf_tick (to_be 4 from),
          collect_ticks-rows_to to (from_key (to_be 4 from) es)
              (KeysOf-from_key 4 (to_be 4 from) es keys),
          rows-from_key 4 from es lt keys,
        )
        (record {
          in_order = rows_to-ascending to _ (rows_from-ascending from _ all);
          below = All-rows_to _ to _ (All-rows_from _ from (rows [] es) (rows-below [] 4 es keys));
          complete = λ t below. ground (
            arith,
            row_at-rows_to to t _ (rows_from-ascending from _ all),
            row_at-rows_from from t (rows [] es) all,
            row_at-rows [] 4 t es below keys,
            laws.get_iterator s cf_tick (to_be 4 t),
          );
        })

  -- The latest tick, list of computors and oracle entry are those of the greatest number that is
  -- stored, with what is stored there, or there is none and nothing is stored.
  pub get_latest-IsGreatest :
      IsValid db s
      → ((v : Option Row) × IsGreatest (λ t. get_tick db t s) (2 ^ 32) v
          × (get_latest_tick db s ≡ elim v [ none ↦ none | some (t, bytes) ↦ some t ]))
        × IsGreatest (λ e. get_computors db e s) (2 ^ 16) (get_latest_computors db s)
        × IsGreatest (λ t. get_oracle db t s) (2 ^ 32) (get_latest_oracle db s)
  unfolding get_latest_tick get_latest_computors get_latest_oracle get_tick get_computors get_oracle
      KeysOf
  get_latest-IsGreatest valid = (
    (
      first_number 4 (db.iterator_cf s cf_tick end),
      first_number-end-IsGreatest 4 cf_tick (valid cf_tick),
      refl,
    ),
    first_number-end-IsGreatest 2 cf_computors (valid cf_computors),
    first_number-end-IsGreatest 4 cf_oracle (valid cf_oracle),
  )
