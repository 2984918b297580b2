-- ===== src/Processor/Indexer/Records.antt =====
-- crates/processor/src/indexer.rs: the handlers of the messages that are neither ticks nor
-- transactions.
use qonduit.Common.{
  ℕ, ◌%◌, ◌^◌, List, [], ◌∷◌, Bool, true, false, ◌==◌, Option, none, some, if◌then◌else◌,
}
use qonduit.Bytes.{Bytes}
use qonduit.Core.Identity.{decode_base26, bytes_eq}
use qonduit.Core.Pipeline.{increment}
use qonduit.Ingestion.Decoders.LogEvents.{LogEvent}
use qonduit.Processor.Parsers.{External}
use qonduit.Storage.Database.{Database}
use qonduit.Storage.Warm.{
  put_entity, put_spectrum_entry, put_computors, put_asset, put_entity_asset, put_log_event,
  put_tick_vote, put_contract_ipo, put_oracle, put_custom_message,
}
use qonduit.Storage.Warm.Scans.{count_custom_messages_for_tick}
use qonduit.Processor.Indexer.{
  Indexer, Outcome, unwrap_or, zeros, update_current_stats, count_entity,
}

abbrev pub tick_field : Bytes
tick_field = b't' ∷ b'i' ∷ b'c' ∷ b'k' ∷ []

abbrev identity_field : Bytes
identity_field = b'i' ∷ b'd' ∷ b'e' ∷ b'n' ∷ b't' ∷ b'i' ∷ b't' ∷ b'y' ∷ []

abbrev computor_index_field : Bytes
computor_index_field =
    b'c' ∷ b'o' ∷ b'm' ∷ b'p' ∷ b'u' ∷ b't' ∷ b'o' ∷ b'r' ∷ b'_' ∷ b'i' ∷ b'n' ∷ b'd' ∷ b'e' ∷ b'x'
    ∷ []

module _ (db : Database) (lib : External) where
  open lib use {
    Value, value, as_u64, as_str, entity_data, computors, asset_record, contract_ipo, log_events,
    log_event_to_vec, k12,
  }

  unfoldable pub index_entity : Bytes → Indexer db → Outcome db
  index_entity payload ix = elim (entity_data payload) [
    | none ↦ (ix, false)
    | some entity ↦ elim (decode_base26 k12 entity.identity) [
      | none ↦ (ix, true)
      | some key ↦
          let p = ix.pipeline in
          update_current_stats db lib count_entity (record ix {
            storage = put_entity db key payload ix.storage;
            pipeline = record p { entities_indexed = increment p.entities_indexed };
          })
    ]
  ]

  unfoldable pub index_spectrum : Bytes → Indexer db → Outcome db
  index_spectrum payload ix = elim (value payload) [
    | none ↦ (ix, false)
    | some entry ↦ elim (decode_base26 k12 (unwrap_or [] (as_str entry identity_field))) [
      | none ↦ (ix, true)
      | some key ↦ (record ix { storage = put_spectrum_entry db key payload ix.storage }, true)
    ]
  ]

  unfoldable pub index_computors : Bytes → Indexer db → Outcome db
  index_computors payload ix = elim (computors payload) [
    | none ↦ (ix, false)
    | some c ↦ (record ix { storage = put_computors db c.epoch payload ix.storage }, true)
  ]

  -- The loop over the three entities of an asset.
  unfoldable pub put_holders : ℕ → List Bytes → db.Store → db.Store
  put_holders index [] s = s
  put_holders index (key ∷ keys) s =
      if bytes_eq key (zeros 32)
      then put_holders index keys s
      else put_holders index keys (put_entity_asset db key index s)

  unfoldable pub index_asset : Bytes → Indexer db → Outcome db
  index_asset payload ix = elim (asset_record payload) [
    | none ↦ (ix, false)
    | some asset ↦
        let keys = asset.issuing_entity ∷ asset.owning_entity ∷ asset.possessing_entity ∷ [] in
        (
          record ix {
            storage =
                put_holders asset.issuance_index keys
                  (put_asset db asset.issuance_index payload ix.storage);
          },
          true,
        )
  ]

  -- The loop over the events; it stops at the first one that cannot be printed.
  unfoldable pub put_events : List LogEvent → db.Store → db.Store × Bool
  put_events [] s = (s, true)
  put_events (event ∷ events) s = elim (log_event_to_vec event) [
    | none ↦ (s, false)
    | some json ↦
        put_events events (put_log_event db event.tick event.tx_index event.event_type json s)
  ]

  unfoldable pub index_log_events : Bytes → Indexer db → Outcome db
  index_log_events payload ix = elim (log_events payload) [
    | none ↦ (ix, false)
    | some events ↦
        let done = put_events events ix.storage in (record ix { storage = done.0 }, done.1)
  ]

  -- A numeric field cut to `w` bits, 0 when it is missing.
  unfoldable pub number_field : ℕ → Bytes → Value → ℕ
  number_field w name v = unwrap_or 0 (as_u64 v name) % 2 ^ w

  unfoldable pub index_tick_vote : Bytes → Indexer db → Outcome db
  index_tick_vote payload ix = elim (value payload) [
    | none ↦ (ix, false)
    | some vote ↦
        let tick = number_field 32 tick_field vote in
        let computor_index = number_field 16 computor_index_field vote in
        (record ix { storage = put_tick_vote db tick computor_index payload ix.storage }, true)
  ]

  unfoldable pub index_contract_ipo : Bytes → Indexer db → Outcome db
  index_contract_ipo payload ix = elim (contract_ipo payload) [
    | none ↦ (ix, false)
    | some ipo ↦
        (record ix { storage = put_contract_ipo db ipo.contract_index payload ix.storage }, true)
  ]

  unfoldable pub index_oracle : Bytes → Indexer db → Outcome db
  index_oracle payload ix = elim (value payload) [
    | none ↦ (ix, false)
    | some entry ↦
        let tick = number_field 32 tick_field entry in
        let tick = if tick == 0 then ix.pipeline.indexed_tick else tick in
        (record ix { storage = put_oracle db tick payload ix.storage }, true)
  ]

  -- A message that was parsed is stored under the next index of its tick.
  unfoldable pub store_custom_message : Bytes → Indexer db → Option Value → Outcome db
  store_custom_message payload ix none = (ix, false)
  store_custom_message payload ix (some msg) =
      let tick = number_field 32 tick_field msg in
      let index = count_custom_messages_for_tick db tick ix.storage % 2 ^ 32 in
      (record ix { storage = put_custom_message db tick index payload ix.storage }, true)

  unfoldable pub index_custom_message : Bytes → Indexer db → Outcome db
  index_custom_message payload ix = store_custom_message payload ix (value payload)
