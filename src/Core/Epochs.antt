-- ===== src/Core/Epochs.antt =====
-- crates/core/src/epoch_intervals.rs: the tick ranges of epochs. The global cell is the argument
-- and the result of the operations; a hash map is an association list, whose order has no meaning.
-- The percentage of `epoch_progress_pct`, a floating-point number, is left out.
pub mod Ranges
use qonduit.Common.{
  ℕ, ◌+◌, ◌-◌, ◌^◌, min, max, List, [], ◌∷◌, map, Bool, ◌==◌, leb, Option, none, some,
  if◌then◌else◌,
}

pub record EpochRange : Type 0 where
  pub epoch : ℕ
  pub first_tick : ℕ
  pub last_tick : ℕ
  pub tick_count : ℕ

pub record IntervalEntry : Type 0 where
  pub epoch : ℕ
  pub first_tick : ℕ
  pub last_tick : ℕ

-- The first and the last tick of an epoch.
abbrev pub Span : Type 0
Span = ℕ × ℕ

-- `map.entry(epoch).and_modify(…).or_insert(…)`
unfoldable pub merge_entry : IntervalEntry → List (ℕ × Span) → List (ℕ × Span)
merge_entry x [] = (x.epoch, (x.first_tick, x.last_tick)) ∷ []
merge_entry x ((e, (first, last)) ∷ m) =
    if e == x.epoch
    then (e, (min first x.first_tick, max last x.last_tick)) ∷ m
    else (e, (first, last)) ∷ merge_entry x m

unfoldable pub merge_entries : List IntervalEntry → List (ℕ × Span) → List (ℕ × Span)
merge_entries [] m = m
merge_entries (x ∷ xs) m = merge_entries xs (merge_entry x m)

-- The tick count saturates at both ends of u32.
unfoldable pub range_of : ℕ × Span → EpochRange
range_of (e, (first, last)) = record {
  epoch = e;
  first_tick = first;
  last_tick = last;
  tick_count = min (last - first + 1) (2 ^ 32 - 1);
}

unfoldable pub insert_by_epoch : EpochRange → List EpochRange → List EpochRange
insert_by_epoch r [] = r ∷ []
insert_by_epoch r (s ∷ rs) = if leb r.epoch s.epoch then r ∷ (s ∷ rs) else s ∷ insert_by_epoch r rs

-- `sort_by_key(|r| r.epoch)`
unfoldable pub sort_by_epoch : List EpochRange → List EpochRange
sort_by_epoch [] = []
sort_by_epoch (r ∷ rs) = insert_by_epoch r (sort_by_epoch rs)

-- The new contents of the cell.
unfoldable pub set_epoch_ranges : List IntervalEntry → List EpochRange
set_epoch_ranges entries = sort_by_epoch (map range_of (merge_entries entries []))

unfoldable pub get_epoch_range : List EpochRange → ℕ → Option EpochRange
get_epoch_range [] epoch = none
get_epoch_range (r ∷ rs) epoch = if r.epoch == epoch then some r else get_epoch_range rs epoch

unfoldable pub total_known_ticks : List EpochRange → ℕ
total_known_ticks [] = 0
total_known_ticks (r ∷ rs) = r.tick_count + total_known_ticks rs

unfoldable pub epochs_fully_indexed : List EpochRange → ℕ → ℕ
epochs_fully_indexed [] indexed_tick = 0
epochs_fully_indexed (r ∷ rs) indexed_tick =
    (if leb r.last_tick indexed_tick then 1 else 0) + epochs_fully_indexed rs indexed_tick
