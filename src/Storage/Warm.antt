-- ===== src/Storage/Warm.antt =====
-- crates/storage/src/warm.rs: the store of indexed data over the database. Here are the writes, the
-- reads of one key and the batches; the child module Scans has the reads that iterate.
pub mod Scans
pub mod Changes
pub mod Valid
pub mod Ticks
pub mod ByTick
pub mod ByEntity
pub mod Pages
pub mod History
use qonduit.Common.{ℕ, List, [], ◌∷◌, ◌++◌, Bool, ◌==◌, length, Option, none, some, if◌then◌else◌}
use qonduit.Bytes.{Bytes, to_be, from_be}
use qonduit.Storage.Database.{
  Cf, cf_tick, cf_tx, cf_tx_by_tick, cf_tx_by_entity, cf_entity, cf_spectrum, cf_asset,
  cf_computors, cf_contract_ipo, cf_custom_message, cf_entity_asset, cf_log_event, cf_tick_vote,
  cf_meta, cf_oracle, cf_epoch_stats, Write, Database,
}

-- The keys with a tick in front.
abbrev pub tick_index_key : ℕ → ℕ → Bytes
tick_index_key tick index = to_be 4 tick ++ to_be 4 index

abbrev pub tick_vote_key : ℕ → ℕ → Bytes
tick_vote_key tick computor_index = to_be 4 tick ++ to_be 2 computor_index

abbrev pub log_event_key : ℕ → ℕ → ℕ → Bytes
log_event_key tick tx_index event_type = to_be 4 tick ++ (to_be 4 tx_index ++ to_be 1 event_type)

-- The keys with an entity in front.
abbrev pub entity_tx_key : Bytes → ℕ → ℕ → Bytes
entity_tx_key entity tick tx_index = entity ++ (to_be 4 tick ++ to_be 4 tx_index)

abbrev pub entity_asset_key : Bytes → ℕ → Bytes
entity_asset_key entity asset_index = entity ++ to_be 4 asset_index

abbrev pub current_tick_key : Bytes
current_tick_key =
    b'c' ∷ b'u' ∷ b'r' ∷ b'r' ∷ b'e' ∷ b'n' ∷ b't' ∷ b'_' ∷ b't' ∷ b'i' ∷ b'c' ∷ b'k' ∷ []

abbrev pub current_epoch_key : Bytes
current_epoch_key =
    b'c' ∷ b'u' ∷ b'r' ∷ b'r' ∷ b'e' ∷ b'n' ∷ b't' ∷ b'_' ∷ b'e' ∷ b'p' ∷ b'o' ∷ b'c' ∷ b'h' ∷ []

-- A number in the metadata, if it has the length of its type.
unfoldable pub meta_number : ℕ → Option Bytes → Option ℕ
meta_number n none = none
meta_number n (some bytes) = if length bytes == n then some (from_be bytes) else none

module _ (db : Database) where
  open db use {Store, put_cf, get_cf, write}

  unfoldable pub put_tick : ℕ → Bytes → Store → Store
  put_tick tick bytes s = put_cf s cf_tick (to_be 4 tick) bytes

  unfoldable pub get_tick : ℕ → Store → Option Bytes
  get_tick tick s = get_cf s cf_tick (to_be 4 tick)

  unfoldable pub put_tx : Bytes → Bytes → Store → Store
  put_tx hash bytes s = put_cf s cf_tx hash bytes

  unfoldable pub get_tx : Bytes → Store → Option Bytes
  get_tx hash s = get_cf s cf_tx hash

  unfoldable pub put_tx_for_tick : ℕ → ℕ → Bytes → Store → Store
  put_tx_for_tick tick tx_index tx_hash s =
      put_cf s cf_tx_by_tick (tick_index_key tick tx_index) tx_hash

  unfoldable pub put_tx_for_entity : Bytes → ℕ → ℕ → Bytes → Store → Store
  put_tx_for_entity entity tick tx_index tx_hash s =
      put_cf s cf_tx_by_entity (entity_tx_key entity tick tx_index) tx_hash

  unfoldable pub put_entity : Bytes → Bytes → Store → Store
  put_entity identity bytes s = put_cf s cf_entity identity bytes

  unfoldable pub get_entity : Bytes → Store → Option Bytes
  get_entity identity s = get_cf s cf_entity identity

  unfoldable pub put_spectrum_entry : Bytes → Bytes → Store → Store
  put_spectrum_entry identity bytes s = put_cf s cf_spectrum identity bytes

  unfoldable pub get_spectrum_entry : Bytes → Store → Option Bytes
  get_spectrum_entry identity s = get_cf s cf_spectrum identity

  unfoldable pub put_asset : ℕ → Bytes → Store → Store
  put_asset index bytes s = put_cf s cf_asset (to_be 4 index) bytes

  unfoldable pub get_asset : ℕ → Store → Option Bytes
  get_asset index s = get_cf s cf_asset (to_be 4 index)

  unfoldable pub put_computors : ℕ → Bytes → Store → Store
  put_computors epoch bytes s = put_cf s cf_computors (to_be 2 epoch) bytes

  unfoldable pub get_computors : ℕ → Store → Option Bytes
  get_computors epoch s = get_cf s cf_computors (to_be 2 epoch)

  unfoldable pub put_contract_ipo : ℕ → Bytes → Store → Store
  put_contract_ipo contract_index bytes s = put_cf s cf_contract_ipo (to_be 4 contract_index) bytes

  unfoldable pub get_contract_ipo : ℕ → Store → Option Bytes
  get_contract_ipo contract_index s = get_cf s cf_contract_ipo (to_be 4 contract_index)

  unfoldable pub put_custom_message : ℕ → ℕ → Bytes → Store → Store
  put_custom_message tick index bytes s =
      put_cf s cf_custom_message (tick_index_key tick index) bytes

  unfoldable pub put_entity_asset : Bytes → ℕ → Store → Store
  put_entity_asset entity asset_index s =
      put_cf s cf_entity_asset (entity_asset_key entity asset_index) []

  unfoldable pub put_log_event : ℕ → ℕ → ℕ → Bytes → Store → Store
  put_log_event tick tx_index event_type bytes s =
      put_cf s cf_log_event (log_event_key tick tx_index event_type) bytes

  unfoldable pub put_tick_vote : ℕ → ℕ → Bytes → Store → Store
  put_tick_vote tick computor_index bytes s =
      put_cf s cf_tick_vote (tick_vote_key tick computor_index) bytes

  unfoldable pub put_meta : Bytes → Bytes → Store → Store
  put_meta key value s = put_cf s cf_meta key value

  unfoldable pub get_meta : Bytes → Store → Option Bytes
  get_meta key s = get_cf s cf_meta key

  unfoldable pub get_current_tick : Store → Option ℕ
  get_current_tick s = meta_number 4 (get_meta current_tick_key s)

  unfoldable pub set_current_tick : ℕ → Store → Store
  set_current_tick tick s = put_meta current_tick_key (to_be 4 tick) s

  unfoldable pub get_current_epoch : Store → Option ℕ
  get_current_epoch s = meta_number 2 (get_meta current_epoch_key s)

  unfoldable pub set_current_epoch : ℕ → Store → Store
  set_current_epoch epoch s = put_meta current_epoch_key (to_be 2 epoch) s

  unfoldable pub put_oracle : ℕ → Bytes → Store → Store
  put_oracle tick bytes s = put_cf s cf_oracle (to_be 4 tick) bytes

  unfoldable pub get_oracle : ℕ → Store → Option Bytes
  get_oracle tick s = get_cf s cf_oracle (to_be 4 tick)

  unfoldable pub put_epoch_stats : ℕ → Bytes → Store → Store
  put_epoch_stats epoch bytes s = put_cf s cf_epoch_stats (to_be 2 epoch) bytes

  unfoldable pub get_epoch_stats : ℕ → Store → Option Bytes
  get_epoch_stats epoch s = get_cf s cf_epoch_stats (to_be 2 epoch)

  unfoldable pub batch_write : List Write → Store → Store
  batch_write batch s = write s batch

-- The entity index of one side of a transaction, if its key is known.
unfoldable pub entity_write : Option Bytes → ℕ → ℕ → Bytes → List Write
entity_write none tick tx_index hash = []
entity_write (some entity) tick tx_index hash =
    record { cf = cf_tx_by_entity; key = entity_tx_key entity tick tx_index; value = hash } ∷ []

-- The writes of a transaction, added to the batch.
unfoldable pub batch_put_tx :
    List Write → Bytes → Bytes → ℕ → ℕ → Option Bytes → Option Bytes → List Write
batch_put_tx batch hash bytes tick tx_index source destination =
    batch
    ++ (record { cf = cf_tx; key = hash; value = bytes }
        ∷ record { cf = cf_tx_by_tick; key = tick_index_key tick tx_index; value = hash }
        ∷ (entity_write source tick tx_index hash ++ entity_write destination tick tx_index hash))

unfoldable pub batch_put_tick : List Write → ℕ → ℕ → Bytes → List Write
batch_put_tick batch tick epoch bytes =
    batch
    ++ (record { cf = cf_tick; key = to_be 4 tick; value = bytes }
        ∷ record { cf = cf_meta; key = current_tick_key; value = to_be 4 tick }
        ∷ record { cf = cf_meta; key = current_epoch_key; value = to_be 2 epoch }
        ∷ [])
