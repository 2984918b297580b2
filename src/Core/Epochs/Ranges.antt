-- ===== src/Core/Epochs/Ranges.antt =====
-- What the cached ranges say of an epoch.
use qonduit.Common.{
  ℕ, ◌+◌, ◌-◌, ◌^◌, ◌≤◌, ◌≡◌, ◌≢◌, ◌⊎◌, inl, inr, refl, ap, sym, subst, ◌∙◌, min, max, List, [],
  ◌∷◌, map, ◌==◌, leb, Option, none, some, if◌then◌else◌, arith, All, All-weaken, Bool-cases,
}
use qonduit.Core.Epochs.{
  EpochRange, IntervalEntry, Span, merge_entry, merge_entries, range_of, insert_by_epoch,
  sort_by_epoch, set_epoch_ranges, get_epoch_range,
}

span_in : ℕ → List (ℕ × Span) → Option Span
span_in k [] = none
span_in k ((e, s) ∷ m) = if e == k then some s else span_in k m

-- The smallest span that holds two.
abbrev hull : Option Span → Option Span → Option Span
hull none s = s
hull (some s) none = some s
hull (some (f, l)) (some (f', l')) = some (min f f', max l l')

abbrev entry_span : ℕ → IntervalEntry → Option Span
entry_span k x = if x.epoch == k then some (x.first_tick, x.last_tick) else none

-- The smallest span that holds all entries of the epoch `k`, if there are any.
unfoldable pub span_of : ℕ → List IntervalEntry → Option Span
span_of k [] = none
span_of k (x ∷ xs) = hull (entry_span k x) (span_of k xs)

hull_assoc : (a b c : Option Span) → hull (hull a b) c ≡ hull a (hull b c)
hull_assoc none b c = refl
hull_assoc (some s) none c = refl
hull_assoc (some s) (some t) none = refl
hull_assoc (some (f, l)) (some (f', l')) (some (f'', l'')) =
    let low : min (min f f') f'' ≡ min f (min f' f'') = omega arith in
    let high : max (max l l') l'' ≡ max l (max l' l'') = omega arith in rw (low, high)

hull-none : (a : Option Span) → hull a none ≡ a
hull-none none = refl
hull-none (some s) = refl

span_in-merge_entry :
    (k : ℕ) (x : IntervalEntry) (m : List (ℕ × Span))
    → span_in k (merge_entry x m) ≡ hull (span_in k m) (entry_span k x)
unfolding span_in merge_entry
span_in-merge_entry k x [] = ground arith
span_in-merge_entry k x ((e, (f, l)) ∷ m) =
    ground (arith, span_in-merge_entry k x m, hull-none (some (f, l)))

span_in-merge_entries :
    (k : ℕ) (xs : List IntervalEntry) (m : List (ℕ × Span))
    → span_in k (merge_entries xs m) ≡ hull (span_in k m) (span_of k xs)
unfolding merge_entries span_of
span_in-merge_entries k [] m = sym (hull-none (span_in k m))
span_in-merge_entries k (x ∷ xs) m =
    span_in-merge_entries k xs (merge_entry x m)
    ∙ ap (λ s. hull s (span_of k xs)) (span_in-merge_entry k x m)
    ∙ hull_assoc (span_in k m) (entry_span k x) (span_of k xs)

get-insert_by_epoch :
    (k : ℕ) (r : EpochRange) (rs : List EpochRange)
    → get_epoch_range (insert_by_epoch r rs) k
      ≡ (if r.epoch == k then some r else get_epoch_range rs k)
unfolding get_epoch_range insert_by_epoch
get-insert_by_epoch k r [] = refl
get-insert_by_epoch k r (s ∷ rs) = ground (arith, get-insert_by_epoch k r rs)

get-sort_by_epoch :
    (k : ℕ) (rs : List EpochRange) → get_epoch_range (sort_by_epoch rs) k ≡ get_epoch_range rs k
unfolding sort_by_epoch get_epoch_range
get-sort_by_epoch k [] = refl
get-sort_by_epoch k (r ∷ rs) =
    get-insert_by_epoch k r (sort_by_epoch rs)
    ∙ ap (λ o. if r.epoch == k then some r else o) (get-sort_by_epoch k rs)

abbrev pub range_at : ℕ → Option Span → Option EpochRange
range_at k none = none
range_at k (some s) = some (range_of (k, s))

get-range_of :
    (k : ℕ) (m : List (ℕ × Span)) → get_epoch_range (map range_of m) k ≡ range_at k (span_in k m)
unfolding get_epoch_range span_in range_of
get-range_of k [] = refl
get-range_of k ((e, (f, l)) ∷ m) = ground (arith, get-range_of k m)

get-set_epoch_ranges :
    (k : ℕ) (entries : List IntervalEntry)
    → get_epoch_range (set_epoch_ranges entries) k ≡ range_at k (span_of k entries)
unfolding set_epoch_ranges span_in
get-set_epoch_ranges k entries =
    get-sort_by_epoch k (map range_of (merge_entries entries []))
    ∙ get-range_of k (merge_entries entries [])
    ∙ ap (range_at k) (span_in-merge_entries k entries [])

-- Some entry has the property.
abbrev pub SomeEntry : (IntervalEntry → Type 0) → List IntervalEntry → Type 0
SomeEntry P [] = ⊥
SomeEntry P (x ∷ xs) = P x ⊎ SomeEntry P xs

-- The ticks from `first` to `last` hold every entry of the epoch `k`, and both ends are needed.
abbrev pub Encloses : ℕ → List IntervalEntry → ℕ → ℕ → Type 0
Encloses k xs first last =
    All (λ (x : IntervalEntry). x.epoch ≡ k → (first ≤ x.first_tick) × (x.last_tick ≤ last)) xs
    × SomeEntry (λ x. (x.epoch ≡ k) × (x.first_tick ≡ first)) xs
    × SomeEntry (λ x. (x.epoch ≡ k) × (x.last_tick ≡ last)) xs

-- The cached range of the epoch `k`: none if no entry is of the epoch, and otherwise the smallest
-- one that holds all its entries, with the number of its ticks, at least 1 and at most the greatest
-- u32.
abbrev pub IsRangeOf : ℕ → List IntervalEntry → Option EpochRange → Type 0
IsRangeOf k xs none = All (λ (x : IntervalEntry). x.epoch ≢ k) xs
IsRangeOf k xs (some r) =
    (r.epoch ≡ k)
    × Encloses k xs r.first_tick r.last_tick
    × (r.tick_count ≡ min (max (r.last_tick + 1 - r.first_tick) 1) (2 ^ 32 - 1))

abbrev IsSpan : ℕ → List IntervalEntry → Option Span → Type 0
IsSpan k xs none = All (λ (x : IntervalEntry). x.epoch ≢ k) xs
IsSpan k xs (some (first, last)) = Encloses k xs first last

span-cons :
    (k : ℕ) (x : IntervalEntry) (xs : List IntervalEntry) (o : Option Span)
    → IsSpan k xs o
    → IsSpan k (x ∷ xs) (hull (entry_span k x) o)
span-cons k x xs o h = elim (Bool-cases (x.epoch == k)) [
  | inl same ↦ rw same (joined k x xs o (ground arith) h)
  | inr other ↦ rw other (passed k x xs o (ground arith) h)
]
  where
    joined :
        (k : ℕ) (x : IntervalEntry) (xs : List IntervalEntry) (o : Option Span)
        → x.epoch ≡ k
        → IsSpan k xs o
        → IsSpan k (x ∷ xs) (hull (some (x.first_tick, x.last_tick)) o)
    joined k x xs none e h = (
      (λ _. (omega arith, omega arith), All-weaken (λ y ne same. absurd (ne same)) xs h),
      inl (e, refl),
      inl (e, refl),
    )
    joined k x xs (some (f, l)) e (all, low, high) = (
      (
        λ _. (omega arith, omega arith),
        All-weaken {P = λ (y : IntervalEntry). y.epoch ≡ k → (f ≤ y.first_tick) × (y.last_tick ≤ l)}
            (λ y within same. let (a, b) = within same in (omega (arith, a), omega (arith, b))) xs
            all,
      ),
      elim (Bool-cases (leb x.first_tick f)) [
        | inl le ↦ inl (e, ground arith)
        | inr gt ↦
            let same : min x.first_tick f ≡ f = ground arith in
            inr (subst (λ t. SomeEntry (λ y. (y.epoch ≡ k) × (y.first_tick ≡ t)) xs) (sym same) low)
      ],
      elim (Bool-cases (leb l x.last_tick)) [
        | inl le ↦ inl (e, ground arith)
        | inr gt ↦
            let same : max x.last_tick l ≡ l = ground arith in
            inr (subst (λ t. SomeEntry (λ y. (y.epoch ≡ k) × (y.last_tick ≡ t)) xs) (sym same) high)
      ],
    )

    passed :
        (k : ℕ) (x : IntervalEntry) (xs : List IntervalEntry) (o : Option Span)
        → x.epoch ≢ k
        → IsSpan k xs o
        → IsSpan k (x ∷ xs) o
    passed k x xs none ne h = (ne, h)
    passed k x xs (some (f, l)) ne (all, low, high) = ((λ e. absurd (ne e), all), inr low, inr high)

span_of-IsSpan : (k : ℕ) (xs : List IntervalEntry) → IsSpan k xs (span_of k xs)
unfolding span_of
span_of-IsSpan k [] = tt
span_of-IsSpan k (x ∷ xs) = span-cons k x xs (span_of k xs) (span_of-IsSpan k xs)

range_at-IsRangeOf :
    (k : ℕ) (xs : List IntervalEntry) (o : Option Span)
    → IsSpan k xs o
    → IsRangeOf k xs (range_at k o)
unfolding range_of
range_at-IsRangeOf k xs none h = h
range_at-IsRangeOf k xs (some (first, last)) h = (refl, h, omega arith)

-- After the ranges are set, an epoch without an interval has no range, and the range of another
-- begins at the least first tick and ends at the greatest last tick of its intervals, in whatever
-- order they come; its tick count is the number of its ticks, at least 1 and at most 2^32 - 1.
pub get_epoch_range-set_epoch_ranges :
    (k : ℕ) (entries : List IntervalEntry)
    → IsRangeOf k entries (get_epoch_range (set_epoch_ranges entries) k)
get_epoch_range-set_epoch_ranges k entries =
    subst (IsRangeOf k entries) (sym (get-set_epoch_ranges k entries))
      (range_at-IsRangeOf k entries (span_of k entries) (span_of-IsSpan k entries))
