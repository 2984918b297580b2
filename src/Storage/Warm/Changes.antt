-- ===== src/Storage/Warm/Changes.antt =====
-- The operations of crates/storage/src/warm.rs that write, as values, and what the entries of each
-- column family look like.
use qonduit.Common.{ℕ, ◌≡◌, List, [], ◌∷◌, length, Option, none, some}
use qonduit.Bytes.{Bytes, IsBytes}
use qonduit.Storage.Keys.{Entry}
use qonduit.Storage.Database.{
  Cf, cf_tick, cf_tx, cf_tx_by_tick, cf_tx_by_entity, cf_entity, cf_spectrum, cf_asset,
  cf_computors, cf_contract_ipo, cf_custom_message, cf_entity_asset, cf_log_event, cf_tick_vote,
  cf_meta, cf_oracle, cf_epoch_stats, Database,
}
use qonduit.Storage.Warm.{
  put_tick, put_tx, put_tx_for_tick, put_tx_for_entity, put_entity, put_spectrum_entry, put_asset,
  put_computors, put_contract_ipo, put_custom_message, put_entity_asset, put_log_event,
  put_tick_vote, put_meta, put_oracle, put_epoch_stats, batch_write, batch_put_tx, batch_put_tick,
}

-- A key of `n` bytes.
abbrev pub IsKey : ℕ → Bytes → Type 0
IsKey n k = (length k ≡ n) × IsBytes k

-- What an entry of a column family looks like.
abbrev pub Fits : Cf → Entry → Type 0
Fits cf_tick e = IsKey 4 e.0
Fits cf_tx e = IsKey 32 e.0
Fits cf_tx_by_tick e = IsKey 8 e.0 × (length e.1 ≡ 32)
Fits cf_tx_by_entity e = IsKey 40 e.0 × (length e.1 ≡ 32)
Fits cf_entity e = IsKey 32 e.0
Fits cf_spectrum e = IsKey 32 e.0
Fits cf_asset e = IsKey 4 e.0
Fits cf_computors e = IsKey 2 e.0
Fits cf_contract_ipo e = IsKey 4 e.0
Fits cf_custom_message e = IsKey 8 e.0
Fits cf_entity_asset e = IsKey 36 e.0
Fits cf_log_event e = IsKey 9 e.0
Fits cf_tick_vote e = IsKey 6 e.0
Fits cf_meta e = Unit
Fits cf_oracle e = IsKey 4 e.0
Fits cf_epoch_stats e = IsKey 2 e.0

-- The operations that write.
pub data Change : Type 0 where
  tick : ℕ → Bytes → Change
  tx : Bytes → Bytes → Change
  tx_for_tick : ℕ → ℕ → Bytes → Change
  tx_for_entity : Bytes → ℕ → ℕ → Bytes → Change
  entity : Bytes → Bytes → Change
  spectrum_entry : Bytes → Bytes → Change
  asset : ℕ → Bytes → Change
  computors : ℕ → Bytes → Change
  contract_ipo : ℕ → Bytes → Change
  custom_message : ℕ → ℕ → Bytes → Change
  entity_asset : Bytes → ℕ → Change
  log_event : ℕ → ℕ → ℕ → Bytes → Change
  tick_vote : ℕ → ℕ → Bytes → Change
  meta : Bytes → Bytes → Change
  oracle : ℕ → Bytes → Change
  epoch_stats : ℕ → Bytes → Change
  tx_batch : Bytes → Bytes → ℕ → ℕ → Option Bytes → Option Bytes → Change
  tick_batch : ℕ → ℕ → Bytes → Change

abbrev pub OptionKey : Option Bytes → Type 0
OptionKey none = Unit
OptionKey (some k) = IsKey 32 k

-- Hashes and identities are arrays of 32 bytes.
abbrev pub HasArrays : Change → Type 0
HasArrays (tx hash bytes) = IsKey 32 hash
HasArrays (tx_for_tick t i hash) = IsKey 32 hash
HasArrays (tx_for_entity e t i hash) = IsKey 32 e × IsKey 32 hash
HasArrays (entity identity bytes) = IsKey 32 identity
HasArrays (spectrum_entry identity bytes) = IsKey 32 identity
HasArrays (entity_asset e i) = IsKey 32 e
HasArrays (tx_batch hash bytes t i source destination) =
    IsKey 32 hash × OptionKey source × OptionKey destination
HasArrays _ = Unit

module _ (db : Database) where
  unfoldable pub change : Change → db.Store → db.Store
  change (tick t bytes) s = put_tick db t bytes s
  change (tx hash bytes) s = put_tx db hash bytes s
  change (tx_for_tick t i hash) s = put_tx_for_tick db t i hash s
  change (tx_for_entity e t i hash) s = put_tx_for_entity db e t i hash s
  change (entity identity bytes) s = put_entity db identity bytes s
  change (spectrum_entry identity bytes) s = put_spectrum_entry db identity bytes s
  change (asset i bytes) s = put_asset db i bytes s
  change (computors e bytes) s = put_computors db e bytes s
  change (contract_ipo i bytes) s = put_contract_ipo db i bytes s
  change (custom_message t i bytes) s = put_custom_message db t i bytes s
  change (entity_asset e i) s = put_entity_asset db e i s
  change (log_event t i ty bytes) s = put_log_event db t i ty bytes s
  change (tick_vote t i bytes) s = put_tick_vote db t i bytes s
  change (meta key value) s = put_meta db key value s
  change (oracle t bytes) s = put_oracle db t bytes s
  change (epoch_stats e bytes) s = put_epoch_stats db e bytes s
  change (tx_batch hash bytes t i source destination) s =
      batch_write db (batch_put_tx [] hash bytes t i source destination) s
  change (tick_batch t e bytes) s = batch_write db (batch_put_tick [] t e bytes) s

  unfoldable pub changes : List Change → db.Store → db.Store
  changes [] s = s
  changes (c ∷ cs) s = changes cs (change c s)
