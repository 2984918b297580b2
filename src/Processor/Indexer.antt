-- ===== src/Processor/Indexer.antt =====
-- crates/processor/src/indexer.rs: each message is parsed, written to the warm store and counted. A
-- handler has no point where another one of its stream could run in between, so that it is one step.
-- Its result is the new state and whether it returned Ok. serde_json and hex are parameters. The
-- export of an epoch to the cold store, whose result is only logged, is recorded in the
-- state. Here are ticks and transactions; the child module Records has the other messages.
pub mod Records
pub mod Messages
pub mod Summaries
pub mod Stats
pub mod Hashes
pub mod Writes
pub mod Transactions
pub mod Stored
pub mod Interleaved
use qonduit.Common.{
  ℕ, zero, suc, ◌+◌, ◌%◌, ◌^◌, min, max, List, [], ◌∷◌, Bool, true, false, not, ◌&&◌, ◌==◌, ltb,
  length, Option, none, some, if◌then◌else◌,
}
use qonduit.Bytes.{Bytes}
use qonduit.Core.Identity.{decode_base26, bytes_eq}
use qonduit.Core.Pipeline.{EpochStats, default_stats, PipelineState, increment}
use qonduit.Core.Asset.{AssetRecord}
use qonduit.Ingestion.Decoders.Tick.{TickData}
use qonduit.Ingestion.Decoders.Transaction.{Transaction}
use qonduit.Ingestion.Decoders.Records.{EntityData}
use qonduit.Ingestion.Decoders.Tables.{Computors, ContractIpo}
use qonduit.Ingestion.Decoders.LogEvents.{LogEvent}
use qonduit.Processor.Parsers.{External}
use qonduit.Storage.Database.{Database}
use qonduit.Storage.Warm.{
  get_epoch_stats, put_epoch_stats, batch_put_tick, batch_put_tx, batch_write, put_entity,
  put_spectrum_entry, put_computors, put_asset, put_entity_asset, put_log_event, put_tick_vote,
  put_contract_ipo, put_oracle, put_custom_message,
}
use qonduit.Storage.Warm.Scans.{count_custom_messages_for_tick}

pub record Indexer (db : Database) : Type 0 where
  pub storage : db.Store
  pub pipeline : PipelineState
  pub tx_last_tick : ℕ
  pub tx_counter : ℕ
  -- the epochs handed to the cold store, each with its last tick
  pub exported : List (ℕ × ℕ)

-- The state after a handler and whether it returned Ok.
abbrev pub Outcome : Database → Type 0
Outcome db = Indexer db × Bool

abbrev pub unwrap_or {ℓ} : {A : Type ℓ} → A → Option A → A
unwrap_or a none = a
unwrap_or a (some b) = b

abbrev pub or_else {ℓ} : {A : Type ℓ} → Option A → Option A → Option A
or_else none b = b
or_else (some a) b = some a

-- An array of zeros.
abbrev pub zeros : ℕ → Bytes
zeros zero = []
zeros (suc n) = 0 ∷ zeros n

-- `filter(|b| b.len() == 32)`
abbrev pub of_32 : Option Bytes → Option Bytes
of_32 none = none
of_32 (some b) = if length b == 32 then some b else none

-- The changes of the statistics that the handlers make.
unfoldable pub count_tick : ℕ → EpochStats → EpochStats
count_tick tick stats = record stats {
  tick_count = (stats.tick_count + 1) % 2 ^ 32;
  first_tick = some (min (unwrap_or tick stats.first_tick) tick);
  last_tick = some (max (unwrap_or tick stats.last_tick) tick);
}

unfoldable pub count_tx : EpochStats → EpochStats
count_tx stats = record stats { tx_count = (stats.tx_count + 1) % 2 ^ 64 }

unfoldable pub count_entity : EpochStats → EpochStats
count_entity stats = record stats { entity_count = (stats.entity_count + 1) % 2 ^ 64 }

module _ (db : Database) (lib : External) where
  open lib use {
    Value, value, as_u64, as_str, tick_data, transaction, entity_data, computors, asset_record,
    contract_ipo, log_events, log_event_to_vec, epoch_stats, epoch_stats_to_vec, hex_decode, k12,
  }

  unfoldable pub new : db.Store → PipelineState → Indexer db
  new storage pipeline = record {
    storage = storage;
    pipeline = pipeline;
    tx_last_tick = 0;
    tx_counter = 0;
    exported = [];
  }

  -- The stored statistics of an epoch; those that do not parse count as the default ones.
  unfoldable pub stats_of : ℕ → Option Bytes → EpochStats
  stats_of epoch none = record default_stats { epoch = epoch }
  stats_of epoch (some bytes) = unwrap_or default_stats (epoch_stats bytes)

  -- Printed statistics are stored.
  unfoldable pub save_stats : ℕ → Indexer db → Option Bytes → Outcome db
  save_stats epoch ix none = (ix, false)
  save_stats epoch ix (some json) =
      (record ix { storage = put_epoch_stats db epoch json ix.storage }, true)

  unfoldable pub update_epoch_stats : ℕ → (EpochStats → EpochStats) → Indexer db → Outcome db
  update_epoch_stats epoch f ix =
      save_stats epoch ix
        (epoch_stats_to_vec (f (stats_of epoch (get_epoch_stats db epoch ix.storage))))

  -- The handlers count in the statistics of the current epoch, if it is known.
  unfoldable pub update_current_stats : (EpochStats → EpochStats) → Indexer db → Outcome db
  update_current_stats f ix =
      let epoch = ix.pipeline.indexed_epoch in
      if ltb 0 epoch then update_epoch_stats epoch f ix else (ix, true)

  -- An epoch that follows the previous one sends the previous one to the cold store.
  unfoldable pub export_previous : ℕ → Indexer db → Indexer db
  export_previous epoch ix =
      let previous_epoch = ix.pipeline.indexed_epoch in
      let previous_tick = ix.pipeline.indexed_tick in
      if ltb 0 previous_epoch && (not (epoch == previous_epoch) && epoch == previous_epoch + 1)
      then (if ltb 0 previous_tick
          then record ix { exported = (previous_epoch, previous_tick) ∷ ix.exported }
          else ix)
      else ix

  -- The write of a tick that was parsed, with the export before it and the counters after it.
  unfoldable pub write_tick : Bytes → Indexer db → TickData → Indexer db
  write_tick payload ix tick =
      let batch = batch_put_tick [] tick.tick tick.epoch payload in
      let ix = export_previous tick.epoch ix in
      let p = ix.pipeline in
      record ix {
        storage = batch_write db batch ix.storage;
        pipeline = record p {
          indexed_tick = tick.tick;
          indexed_epoch = tick.epoch;
          ticks_indexed = increment p.ticks_indexed;
          total_ticks_indexed = increment p.total_ticks_indexed;
        };
      }

  unfoldable pub store_tick : Bytes → Indexer db → Option TickData → Outcome db
  store_tick payload ix none = (ix, false)
  store_tick payload ix (some tick) =
      if ltb 1000 tick.epoch
      then (ix, true)
      else update_epoch_stats tick.epoch (count_tick tick.tick) (write_tick payload ix tick)

  unfoldable pub index_tick : Bytes → Indexer db → Outcome db
  index_tick payload ix = store_tick payload ix (tick_data payload)

  -- The key of a transaction: its hash as an identity or in hexadecimal, or else zeros.
  unfoldable pub hash_bytes : Transaction → Bytes
  hash_bytes tx =
      unwrap_or (unwrap_or (zeros 32) (of_32 (hex_decode tx.hash))) (decode_base26 k12 tx.hash)

  unfoldable pub source : Transaction → Option Bytes
  source tx = or_else (decode_base26 k12 tx.source_identity) (of_32 (hex_decode tx.source_hex))

  unfoldable pub destination : Transaction → Option Bytes
  destination tx =
      or_else (decode_base26 k12 tx.destination_identity) (of_32 (hex_decode tx.destination_hex))

  -- The index of a transaction within its tick, if it comes next, and the counter after it.
  unfoldable pub next_index : ℕ → Indexer db → ℕ
  next_index tick ix = if tick == ix.tx_last_tick then ix.tx_counter else 0

  -- The writes of a transaction that was parsed, and the counters after it.
  unfoldable pub write_transaction : Bytes → Indexer db → Transaction → Indexer db
  write_transaction payload ix tx =
      let tx_index = next_index tx.tick ix in
      let batch =
        batch_put_tx [] (hash_bytes tx) payload tx.tick tx_index (source tx) (destination tx) in
      let p = ix.pipeline in
      record ix {
        storage = batch_write db batch ix.storage;
        pipeline = record p { txs_indexed = increment p.txs_indexed };
        tx_last_tick = tx.tick;
        tx_counter = (tx_index + 1) % 2 ^ 32;
      }

  unfoldable pub store_transaction : Bytes → Indexer db → Option Transaction → Outcome db
  store_transaction payload ix none = (ix, false)
  store_transaction payload ix (some tx) =
      update_current_stats count_tx (write_transaction payload ix tx)

  unfoldable pub index_transaction : Bytes → Indexer db → Outcome db
  index_transaction payload ix = store_transaction payload ix (transaction payload)
