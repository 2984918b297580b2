-- ===== src/Tests/CacheRuns.antt =====
-- Runs of crates/storage/src/hot.rs.
use qonduit.Common.{ℕ, ◌≤◌, ◌≡◌, ◌⊎◌, refl, List, [], ◌∷◌, true, false, some, none, ==_iff, length}
use qonduit.Storage.Hot.{Cached, lookup, contains, oldest, nat_eq, new}
use qonduit.Storage.Hot.Maps.{distinct}
use qonduit.Storage.Hot.Eviction.{victim, AtLeast, HasRoom, Finds, lookup-put}
use qonduit.Storage.Hot.Bounds.{
  Operation, store_tick, store_entity, evict, set_tick, run, IsValid, run-IsValid,
}

abbrev operations : List Operation
operations =
    store_tick 1 10 (7 ∷ [])
    ∷ store_tick 2 11 (8 ∷ [])
    ∷ set_tick 11
    ∷ store_tick 3 12 (9 ∷ [])
    ∷ store_entity 4 (1 ∷ 2 ∷ []) (3 ∷ [])
    ∷ evict 5 4
    ∷ []

run-IsValid_example : IsValid 2 1 (run operations (new 2 1))
run-IsValid_example = run-IsValid 2 1 operations

abbrev full_map : List (ℕ × Cached)
full_map =
    (10, record { contents = 7 ∷ []; cached_at = 4 })
    ∷ (11, record { contents = 8 ∷ []; cached_at = 2 })
    ∷ []

full_map-distinct : distinct (contains nat_eq) full_map ≡ true
unfolding distinct contains
full_map-distinct = refl

lookup-put_example :
    (HasRoom nat_eq ==_iff 2 12 full_map × Finds nat_eq ==_iff 2 5 12 (9 ∷ []) full_map none)
    ⊎ ((2 ≤ length full_map)
        × (contains nat_eq 12 full_map ≡ false)
        × ((v : ℕ) × (e : Cached) × (lookup nat_eq v full_map ≡ some e)
            × AtLeast e.cached_at full_map
            × Finds nat_eq ==_iff 2 5 12 (9 ∷ []) full_map (some v)))
lookup-put_example = lookup-put nat_eq ==_iff 2 5 12 (9 ∷ []) full_map full_map-distinct

victim_run : victim nat_eq ==_iff 2 12 full_map ≡ some 11
unfolding victim contains oldest
victim_run = refl
