-- ===== src/Processor/Parsers.antt =====
-- What crates/processor/src/indexer.rs uses of serde_json and hex: parameters of the model.
use qonduit.Common.{ℕ, List, Option}
use qonduit.Bytes.{Bytes}
use qonduit.Core.Pipeline.{EpochStats}
use qonduit.Core.Asset.{AssetRecord}
use qonduit.Ingestion.Decoders.Tick.{TickData}
use qonduit.Ingestion.Decoders.Transaction.{Transaction}
use qonduit.Ingestion.Decoders.Records.{EntityData}
use qonduit.Ingestion.Decoders.Tables.{Computors, ContractIpo}
use qonduit.Ingestion.Decoders.LogEvents.{LogEvent}

-- The parsers and printers of serde_json, `as_u64` and `as_str` of a field of a value, and hex.
pub record External : Type 1 where
  pub Value : Type 0
  pub value : Bytes → Option Value
  pub as_u64 : Value → Bytes → Option ℕ
  pub as_str : Value → Bytes → Option Bytes
  pub tick_data : Bytes → Option TickData
  pub transaction : Bytes → Option Transaction
  pub entity_data : Bytes → Option EntityData
  pub computors : Bytes → Option Computors
  pub asset_record : Bytes → Option AssetRecord
  pub contract_ipo : Bytes → Option ContractIpo
  pub log_events : Bytes → Option (List LogEvent)
  pub log_event_to_vec : LogEvent → Option Bytes
  pub epoch_stats : Bytes → Option EpochStats
  pub epoch_stats_to_vec : EpochStats → Option Bytes
  pub hex_decode : Bytes → Option Bytes
  pub k12 : Bytes → ℕ → Bytes
