-- ===== src/Tests/EpochRuns.antt =====
-- Runs of crates/core/src/epoch_intervals.rs.
use qonduit.Common.{◌≡◌, refl, List, [], ◌∷◌, some}
use qonduit.Core.Epochs.{
  IntervalEntry, merge_entry, merge_entries, range_of, insert_by_epoch, sort_by_epoch,
  set_epoch_ranges, get_epoch_range, total_known_ticks, epochs_fully_indexed,
}
use qonduit.Core.Epochs.Ranges.{span_of, IsRangeOf, get_epoch_range-set_epoch_ranges}

-- Two intervals of epoch 150, one of epoch 149, and one whose ends are swapped.
abbrev entries : List IntervalEntry
entries =
    record { epoch = 150; first_tick = 300; last_tick = 400 }
    ∷ record { epoch = 149; first_tick = 100; last_tick = 250 }
    ∷ record { epoch = 150; first_tick = 260; last_tick = 290 }
    ∷ record { epoch = 151; first_tick = 500; last_tick = 450 }
    ∷ []

get_epoch_range-set_epoch_ranges_example :
    IsRangeOf 150 entries (get_epoch_range (set_epoch_ranges entries) 150)
get_epoch_range-set_epoch_ranges_example = get_epoch_range-set_epoch_ranges 150 entries

span_run : span_of 150 entries ≡ some (260, 400)
unfolding span_of
span_run = refl

totals_run :
    (total_known_ticks (set_epoch_ranges entries) ≡ 293)
    × (epochs_fully_indexed (set_epoch_ranges entries) 420 ≡ 2)
unfolding total_known_ticks epochs_fully_indexed set_epoch_ranges merge_entries merge_entry range_of
    sort_by_epoch insert_by_epoch
totals_run = (refl, refl)
