-- ===== src/Query/Rpc/Lookups.antt =====
-- What the methods of crates/query/src/rpc.rs do, one function for each kind of method.
use Prim.Native.String.{String}
use qonduit.Common.{
  ℕ, min, List, [], ◌∷◌, map, ◌++◌, ◌==◌, length, Option, none, some, if◌then◌else◌,
}
use qonduit.Bytes.{Bytes, Result, ok, err, panic}
use qonduit.Core.Epochs.{EpochRange}
use qonduit.Core.Identity.{decode_base26, encode_base26}
use qonduit.Storage.Database.{Database}
use qonduit.Storage.Warm
use qonduit.Storage.Warm.Scans
use qonduit.Query.Values.{External}
use qonduit.Query.Rest.{parse_all, transactions_of, seconds, history_value}
use qonduit.Query.Rpc.Params.{
  RpcResult, value, fails, panics, ◌>>=◌, ok_or, invalid_identity, invalid_hash_length, hex_failed,
  json_failed, extract_string_param, extract_u32_param, extract_optional_u16_param, u32_param_or,
}

module _ (db : Database) (lib : External) where
  open db use {Store}
  open lib use {Value, from_slice}

  -- `get_current_tick()?.unwrap_or(0)` and its like.
  abbrev pub or_zero : Option ℕ → ℕ
  or_zero none = 0
  or_zero (some n) = n

  abbrev pub tick_now : Store → Value
  tick_now s = lib.number (or_zero (Warm.get_current_tick db s))

  abbrev pub epoch_now : Store → Value
  epoch_now s = lib.number (or_zero (Warm.get_current_epoch db s))

  unfoldable pub parsed : Bytes → RpcResult Value
  parsed bytes = ok_or (from_slice bytes) (json_failed bytes)

  -- The stored value, or null.
  unfoldable pub stored_or_null : Option Bytes → RpcResult Value
  stored_or_null none = value lib.null
  stored_or_null (some bytes) = parsed bytes

  -- A stored value of which a part is used, or another value.
  unfoldable pub stored_or : Option Bytes → (Value → Value) → Value → RpcResult Value
  stored_or none f otherwise = value otherwise
  stored_or (some bytes) f otherwise = do entry ← parsed bytes; value (f entry)

  -- The key of the identity that is the first parameter, with the identity.
  unfoldable pub identity_param : Option Value → RpcResult (Bytes × Bytes)
  identity_param params = do
    id ← extract_string_param lib params 0
    key ← ok_or (decode_base26 lib.k12 id) invalid_identity
    value (id, key)

  abbrev pub with_identity : Option Value → (Bytes → Bytes → RpcResult Value) → RpcResult Value
  with_identity params f = do (id, key) ← identity_param params; f id key

  -- `json!(entry.get("balance"))`
  abbrev pub field_or_null : Option Value → Value
  field_or_null none = lib.null
  field_or_null (some v) = v

  abbrev pub balance_or_zero : Option Value → Value
  balance_or_zero none = lib.number 0
  balance_or_zero (some v) = v

  abbrev pub found_hashes : Result (List Bytes) → RpcResult (List Bytes)
  found_hashes (ok hashes) = value hashes
  found_hashes (err e) = panics
  found_hashes panic = panics

  -- "getTransactionsForTick", "getTickTransactions" and "qonduit_getTickTransactions"
  unfoldable pub tick_transactions : Option Value → Store → RpcResult Value
  tick_transactions params s = do
    tick ← extract_u32_param lib params 0
    hashes ← found_hashes (Scans.get_tx_hashes_for_tick db tick s)
    value (lib.array (transactions_of db lib hashes s))

  -- "getTransaction"
  unfoldable pub transaction : Option Value → Store → RpcResult Value
  transaction params s = do
    hash_str ← extract_string_param lib params 0
    hash ← ok_or (lib.hex_decode hash_str) (hex_failed hash_str)
    if length hash == 32 then stored_or_null (Warm.get_tx db hash s) else fails invalid_hash_length

  -- "getBlock" and "qonduit_getTick"
  unfoldable pub tick_data : Option Value → Store → RpcResult Value
  tick_data params s = do
    tick ← extract_u32_param lib params 0
    stored_or_null (Warm.get_tick db tick s)

  -- "getContractIPO" and "getIPOBids"
  unfoldable pub contract_ipo : Option Value → Store → RpcResult Value
  contract_ipo params s = do
    index ← extract_u32_param lib params 0
    stored_or_null (Warm.get_contract_ipo db index s)

  -- `if let Ok(val) = from_slice(&data) { assets.push(val) }` of a value that is there.
  abbrev pub push_asset : List Value → Option Bytes → List Value
  push_asset assets none = assets
  push_asset assets (some bytes) = elim (from_slice bytes) [
    | none ↦ assets
    | some v ↦ assets ++ (v ∷ [])
  ]

  -- `for idx in indices { … }`, with what was pushed before.
  unfoldable pub push_assets : List ℕ → List Value → Store → List Value
  push_assets [] assets s = assets
  push_assets (idx ∷ indices) assets s =
      push_assets indices (push_asset assets (Warm.get_asset db idx s)) s

  -- `.filter(|v| v.get(field) == Some(&entity_json))`
  unfoldable pub filter_field : String → Value → List Value → List Value
  filter_field field entity_json [] = []
  filter_field field entity_json (v ∷ vs) =
      let rest = filter_field field entity_json vs in
      elim (lib.get v field) [
        | none ↦ rest
        | some w ↦ if lib.value_eq w entity_json then v ∷ rest else rest
      ]

  -- The assets in the index of the entity first, and the scan of all assets if it has none.
  unfoldable pub indexed_or_scanned : String → Bytes → List ℕ → Store → List Value
  indexed_or_scanned field key (idx ∷ indices) s = push_assets (idx ∷ indices) [] s
  indexed_or_scanned field key [] s =
      filter_field field (lib.array (map lib.number key))
        (parse_all db lib (seconds db lib (Scans.get_all_assets db 10000 s)))

  -- "getOwnedAssets", "getAssetsByOwner" and "getPossessedAssets"
  unfoldable pub entity_assets : String → Option Value → Store → RpcResult Value
  entity_assets field params s = with_identity params λ id key.
      value (lib.array (indexed_or_scanned field key (Scans.get_assets_for_entity db key s) s))

  -- "getBalance"
  unfoldable pub balance : Option Value → Store → RpcResult Value
  balance params s = with_identity params λ id key.
      stored_or (Warm.get_spectrum_entry db key s)
        (λ entry. lib.object (("balance", field_or_null (lib.get entry "balance")) ∷ []))
        (lib.object (("balance", lib.number 0) ∷ []))

  -- "qonduit_getEntityActivity"
  unfoldable pub entity_activity : Option Value → Store → RpcResult Value
  entity_activity params s = do
    id ← extract_string_param lib params 0
    let limit = u32_param_or lib (extract_u32_param lib params 1) 100
    key ← ok_or (decode_base26 lib.k12 id) invalid_identity
    hashes ← found_hashes (Scans.get_tx_hashes_for_entity db key limit s)
    value (lib.array (transactions_of db lib hashes s))

  -- "qonduit_getEntityHistory"
  unfoldable pub entity_history : List EpochRange → Option Value → Store → RpcResult Value
  entity_history ranges params s = do
    id ← extract_string_param lib params 0
    let limit = u32_param_or lib (extract_u32_param lib params 1) 50
    let offset = u32_param_or lib (extract_u32_param lib params 2) 0
    epoch ← extract_optional_u16_param lib params 3
    key ← ok_or (decode_base26 lib.k12 id) invalid_identity
    let capped = min limit 500
    let history = Scans.get_entity_history db ranges key epoch offset capped s
    value (
        history_value db lib (parse_all db lib (seconds db lib history))
          (Scans.count_entity_transactions db key s) offset capped)

  -- "qonduit_getAssetHolders"
  unfoldable pub asset_holders : Option Value → Store → RpcResult Value
  asset_holders params s = do
    asset_index ← extract_u32_param lib params 0
    let identities =
        map (λ key. lib.object (("identity", lib.text (encode_base26 lib.k12 key)) ∷ []))
          (Scans.get_holders_for_asset db asset_index s)
    value (
        lib.object
          (("asset_index", lib.number asset_index) ∷ ("holders", lib.array identities) ∷ []))

  -- "qonduit_getCustomMessages"
  unfoldable pub custom_messages : Option Value → Store → RpcResult Value
  custom_messages params s = do
    tick ← extract_u32_param lib params 0
    value (lib.array (parse_all db lib (Scans.get_custom_messages_for_tick db tick s)))

  -- "qonduit_getLogEvents": the number of custom messages.
  unfoldable pub log_events : Option Value → Store → RpcResult Value
  log_events params s = do
    tick ← extract_u32_param lib params 0
    value (lib.number (length (Scans.get_custom_messages_for_tick db tick s)))

  unfoldable pub oracle_value : Option (ℕ × Bytes) → RpcResult Value
  oracle_value none = value (
      lib.object (
        ("data", lib.null)
        ∷ (
          "note",
          lib.literal
              "Oracle data has not been indexed yet. The QONDUIT_ORACLE stream exists but no data has been received.",
        )
        ∷ []))
  oracle_value (some (tick, bytes)) = do
    v ← parsed bytes
    value (lib.insert v "indexed_tick" (lib.number tick))
