-- ===== src/Tests/WarmRuns.antt =====
-- Runs of crates/storage/src/warm.rs over sorted lists.
use qonduit.Common.{
  ◌==◌, ℕ, zero, suc, ◌^◌, ◌<◌, ◌≡◌, refl, List, [], ◌∷◌, reverse, length, take, drop, none, some,
  All, ltb, ◌||◌, if◌then◌else◌, arith,
}
use qonduit.Bytes.{Bytes, IsBytes, ok}
use qonduit.Core.Epochs.{EpochRange}
use qonduit.Storage.Keys.Rows.{Row, IsListing, values}
use qonduit.Storage.Database.{cf_tx_by_tick}
use qonduit.Storage.Database.ListStore.{list_database, list_database-IsLawful}
use qonduit.Storage.Warm.{tick_index_key, get_tick}
use qonduit.Storage.Warm.Scans.{
  get_tx_hashes_for_tick, get_tick_range, get_tx_hashes_for_entity, count_entity_transactions,
  get_entity_history,
}
use qonduit.Storage.Warm.Valid.{IsValid, changes-new-IsValid}
use qonduit.Storage.Warm.Changes.{
  IsKey, Change, tick, tick_vote, tick_batch, tx_batch, computors, custom_message, HasArrays,
  changes,
}
use qonduit.Storage.Warm.ByTick.{get_tx_hashes_for_tick-IsListing}
use qonduit.Storage.Warm.Ticks.{get_tick_range-IsListing}
use qonduit.Storage.Warm.ByEntity.{hash_at, get_tx_hashes_for_entity-IsListing}
use qonduit.Storage.Warm.History.{get_entity_history-IsListing}
use qonduit.Storage.Cold.{Json, export_epoch}
use qonduit.Storage.Cold.Export.{StoredIn, EpochWritten, export_epoch-EpochWritten}
use qonduit.Storage.Warm.Pages.{present, rows_of}

abbrev fill : ℕ → ℕ → Bytes
fill zero b = []
fill (suc n) b = b ∷ fill n b

fill-IsBytes : (n b : ℕ) → b < 256 → IsBytes (fill n b)
fill-IsBytes zero b h = tt
fill-IsBytes (suc n) b h = (h, fill-IsBytes n b h)

abbrev entity_key : Bytes
entity_key = fill 32 9

abbrev written : List Change
written =
    tick_batch 10 3 (1 ∷ [])
    ∷ tx_batch (fill 32 1) (5 ∷ []) 10 0 (some entity_key) none
    ∷ tx_batch (fill 32 2) (6 ∷ []) 10 1 none (some entity_key)
    ∷ tick_batch 300 4 (2 ∷ [])
    ∷ tick 256 (3 ∷ [])
    ∷ tick_vote 10 5 (7 ∷ [])
    ∷ tick_vote 10 2 (8 ∷ [])
    ∷ computors 4 (4 ∷ [])
    ∷ custom_message 10 0 (9 ∷ [])
    ∷ []

written-HasArrays : All HasArrays written
written-HasArrays =
    let key : (b : ℕ) → b < 256 → IsKey 32 (fill 32 b) = λ b h. (refl, fill-IsBytes 32 b h) in
    (
      tt,
      (
        (key 1 (omega arith), key 9 (omega arith), tt),
        ((key 2 (omega arith), tt, key 9 (omega arith)), (tt, (tt, (tt, (tt, (tt, (tt, tt))))))),
      ),
    )

abbrev stored : list_database.Store
stored = changes list_database written list_database.new

stored-IsValid : IsValid list_database stored
stored-IsValid = changes-new-IsValid list_database list_database-IsLawful written written-HasArrays

changes-new-IsValid_example :
    IsValid list_database (changes list_database written list_database.new)
changes-new-IsValid_example =
    changes-new-IsValid list_database list_database-IsLawful written written-HasArrays

get_tx_hashes_for_tick-IsListing_example :
    (rs : List Row) × IsListing
      (λ i. list_database.get_cf stored cf_tx_by_tick (tick_index_key 10 i))
      (2 ^ 32)
      rs
    × (get_tx_hashes_for_tick list_database 10 stored ≡ ok (values rs))
get_tx_hashes_for_tick-IsListing_example =
    get_tx_hashes_for_tick-IsListing list_database list_database-IsLawful stored 10 stored-IsValid

get_tick_range-IsListing_example :
    IsListing
      (λ t. if ltb t 10 || ltb 299 t then none else get_tick list_database t stored)
      (2 ^ 32)
      (get_tick_range list_database 10 299 stored)
get_tick_range-IsListing_example =
    get_tick_range-IsListing list_database list_database-IsLawful stored 10 299 (omega arith)
      stored-IsValid

get_tx_hashes_for_entity-IsListing_example :
    (rs : List Row) × IsListing (hash_at list_database stored entity_key) (2 ^ 64) rs
    × (get_tx_hashes_for_entity list_database entity_key 1 stored
        ≡ ok (take 1 (reverse (values rs))))
    × (count_entity_transactions list_database entity_key stored ≡ length rs)
get_tx_hashes_for_entity-IsListing_example =
    get_tx_hashes_for_entity-IsListing list_database list_database-IsLawful stored entity_key refl
      stored-IsValid 1

abbrev ranges : List EpochRange
ranges = record { epoch = 3; first_tick = 10; last_tick = 299; tick_count = 290 } ∷ []

get_entity_history-IsListing_example :
    (rs : List Row) × IsListing (hash_at list_database stored entity_key) (2 ^ 64) rs
    × (get_entity_history list_database ranges entity_key (some 3) 1 5 stored
        ≡ take 5 (present list_database stored (drop 1 (rows_of ranges (some 3) rs))))
get_entity_history-IsListing_example =
    get_entity_history-IsListing list_database list_database-IsLawful stored entity_key refl
      stored-IsValid ranges (omega arith, tt) (some 3) 1 5

-- A parser that takes every text but one.
abbrev json : Json
json = record {
  Value = Bytes;
  value = λ bytes. if length bytes == 2 then none else some bytes;
  epoch = λ v. some 150;
  timestamp = λ v. none;
  transaction_count = λ v. none;
  input_type = λ v. none;
  source_hex = λ v. none;
  destination_hex = λ v. none;
  amount = λ v. none;
  from_utf8_lossy = λ bytes. bytes;
}

export_epoch-EpochWritten_example :
    (ts : List Row) × IsListing
      (λ t. if ltb t 10 || ltb 11 t then none else get_tick list_database t stored)
      (2 ^ 32)
      ts
    × ((xs : List Row) × StoredIn list_database list_database-IsLawful json stored 2 10 xs
        × EpochWritten list_database list_database-IsLawful json stored ts xs
            (export_epoch list_database json 10 11 stored))
export_epoch-EpochWritten_example =
    export_epoch-EpochWritten list_database list_database-IsLawful json stored 10 11 (omega arith)
      stored-IsValid
