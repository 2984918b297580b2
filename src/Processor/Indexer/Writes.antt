-- ===== src/Processor/Indexer/Writes.antt =====
-- What indexing a transaction writes under its tick; the statistics write elsewhere.
use qonduit.Common.{ℕ, ◌≡◌, refl, ◌∙◌, List, [], ltb, Option, none, some, Bool-cases, inl, inr}
use qonduit.Bytes.{Bytes, IsBytes, to_be}
use qonduit.Core.Pipeline.{EpochStats}
use qonduit.Ingestion.Decoders.Transaction.{Transaction}
use qonduit.Storage.Keys.{Entry, set_value}
use qonduit.Storage.Database.{
  cf_tx_by_tick, cf_epoch_stats, start, after_writes, Database, IsLawful,
}
use qonduit.Storage.Warm.{tick_index_key, batch_put_tx, batch_write, entity_write, put_epoch_stats}
use qonduit.Storage.Warm.Valid.{IsValid, change-IsValid}
use qonduit.Storage.Warm.Changes.{tx_batch, epoch_stats, change}
use qonduit.Processor.Parsers.{External}
use qonduit.Processor.Indexer.Hashes.{hash_bytes-IsKey, source-OptionKey, destination-OptionKey}
use qonduit.Processor.Indexer.{
  Indexer, hash_bytes, source, destination, next_index, save_stats, update_epoch_stats,
  update_current_stats, write_transaction,
}

-- Of the writes of a transaction one is for the index of ticks.
after_writes-batch_put_tx :
    (hash bytes : Bytes) (t i : ℕ) (src dst : Option Bytes) (es : List Entry)
    → after_writes cf_tx_by_tick (batch_put_tx [] hash bytes t i src dst) es
      ≡ set_value (tick_index_key t i) hash es
unfolding after_writes batch_put_tx entity_write
after_writes-batch_put_tx hash bytes t i none none es = refl
after_writes-batch_put_tx hash bytes t i none (some b) es = refl
after_writes-batch_put_tx hash bytes t i (some a) none es = refl
after_writes-batch_put_tx hash bytes t i (some a) (some b) es = refl

module _ (db : Database) (lib : External) where
  -- The statistics leave the index of ticks and the counters of transactions as they are.
  pub record Keeps (ix iy : Indexer db) : Type 0 where
    pub valid : IsValid db ix.storage → IsValid db iy.storage
    pub hashes :
        db.iterator_cf iy.storage cf_tx_by_tick start
        ≡ db.iterator_cf ix.storage cf_tx_by_tick start
    pub tick : iy.tx_last_tick ≡ ix.tx_last_tick
    pub counter : iy.tx_counter ≡ ix.tx_counter

  module _ (laws : IsLawful db) where
    save_stats-Keeps :
        (epoch : ℕ) (ix : Indexer db) (json : Option Bytes)
        → Keeps ix (save_stats db lib epoch ix json).0
    unfolding save_stats put_epoch_stats change
    save_stats-Keeps epoch ix none = record {
      valid = λ h. h;
      hashes = refl;
      tick = refl;
      counter = refl;
    }
    save_stats-Keeps epoch ix (some json) = record {
      valid = λ h. change-IsValid db laws (epoch_stats epoch json) ix.storage tt h;
      hashes = laws.after_put ix.storage cf_epoch_stats cf_tx_by_tick (to_be 2 epoch) json;
      tick = refl;
      counter = refl;
    }

    pub update_current_stats-Keeps :
        (f : EpochStats → EpochStats) (ix : Indexer db)
        → Keeps ix (update_current_stats db lib f ix).0
    unfolding update_current_stats update_epoch_stats
    update_current_stats-Keeps f ix = elim (Bool-cases (ltb 0 ix.pipeline.indexed_epoch)) [
      | inl known ↦ rw known (save_stats-Keeps ix.pipeline.indexed_epoch ix _)
      | inr unknown ↦
          rw unknown (record { valid = λ h. h; hashes = refl; tick = refl; counter = refl })
    ]

    module _ (hex_bytes : (s b : Bytes) → lib.hex_decode s ≡ some b → IsBytes b) where
      pub write_transaction-IsValid :
          (payload : Bytes) (ix : Indexer db) (tx : Transaction)
          → IsValid db ix.storage
          → IsValid db (write_transaction db lib payload ix tx).storage
      unfolding write_transaction change
      write_transaction-IsValid payload ix tx h =
          change-IsValid db laws
            (tx_batch (hash_bytes db lib tx) payload tx.tick (next_index db lib tx.tick ix)
              (source db lib tx) (destination db lib tx))
            ix.storage
            (
              hash_bytes-IsKey db lib hex_bytes tx,
              source-OptionKey db lib hex_bytes tx,
              destination-OptionKey db lib hex_bytes tx,
            )
            h

      pub write_transaction-hashes :
          (payload : Bytes) (ix : Indexer db) (tx : Transaction)
          → db.iterator_cf (write_transaction db lib payload ix tx).storage cf_tx_by_tick start
            ≡ set_value
                (tick_index_key tx.tick (next_index db lib tx.tick ix))
                (hash_bytes db lib tx)
                (db.iterator_cf ix.storage cf_tx_by_tick start)
      unfolding write_transaction batch_write
      write_transaction-hashes payload ix tx =
          laws.after_write ix.storage _ cf_tx_by_tick ∙ after_writes-batch_put_tx _ _ _ _ _ _ _
