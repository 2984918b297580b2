-- ===== src/Query/Rpc/Methods.antt =====
-- `dispatch_method` of crates/query/src/rpc.rs: the names of the methods.
use Prim.Native.String.{String}
use qonduit.Common.{ℕ, List, [], ◌∷◌, Bool, false, ◌||◌, Option, none, some, if◌then◌else◌}
use qonduit.Bytes.{Bytes}
use qonduit.Core.Epochs.{EpochRange}
use qonduit.Core.Identity.{bytes_eq}
use qonduit.Storage.Database.{Database}
use qonduit.Storage.Warm
use qonduit.Storage.Warm.Scans
use qonduit.Query.Values.{External}
use qonduit.Query.Texts.{codes}
use qonduit.Query.Rest.{parse_all, seconds}
use qonduit.Query.Rpc.Params.{
  RpcResult, value, fails, ◌>>=◌, method_not_found, not_supported, extract_string_param,
  extract_u16_param,
}
use qonduit.Query.Rpc.Lookups.{
  tick_now, epoch_now, stored_or_null, stored_or, with_identity, balance_or_zero, tick_transactions,
  transaction, tick_data, contract_ipo, entity_assets, balance, entity_activity, entity_history,
  asset_holders, custom_messages, log_events, oracle_value,
}
use qonduit.Query.Rpc.Search.{search_method}

abbrev pub is : String → Bytes → Bool
is name method = bytes_eq method (codes name)

module _ (db : Database) (lib : External) where
  open db use {Store}
  open lib use {Value}

  unfoldable pub latest_computors : Option (ℕ × Bytes) → RpcResult Value
  latest_computors none = value lib.null
  latest_computors (some (epoch, bytes)) = stored_or_null db lib (some bytes)

  -- "getSpectrum" and "qonduit_getEntityBalances"
  unfoldable pub spectrum_entry : Option Value → Store → RpcResult Value
  spectrum_entry params s =
      with_identity db lib params λ id key. stored_or_null db lib (Warm.get_spectrum_entry db key s)

  -- "qonduit_getEntityTokens"
  unfoldable pub entity_tokens : Option Value → Store → RpcResult Value
  entity_tokens params s = with_identity db lib params λ id key.
      stored_or db lib (Warm.get_spectrum_entry db key s)
        (λ entry. lib.object (
          ("identity", lib.text id)
          ∷ ("balance", balance_or_zero db lib (lib.get entry "balance"))
          ∷ (
            "note",
            lib.literal
                "Returns Qubic balance from spectrum. Token and contract balances not yet indexed.",
          )
          ∷ []))
        (lib.object (
          ("identity", lib.text id)
          ∷ ("balance", lib.number 0)
          ∷ ("note", lib.literal "Entity not found in spectrum")
          ∷ []))

  -- "qonduit_getDeFiPositions"
  unfoldable pub defi_positions : Option Value → Store → RpcResult Value
  defi_positions params s = do
    id ← extract_string_param lib params 0
    value (
        lib.object (
          ("positions", lib.array [])
          ∷ (
            "note",
            lib.literal
                "DeFi position indexing is not yet implemented. This endpoint will be populated once DeFi contract state indexing is added.",
          )
          ∷ []))

  -- "getEpochStats"
  unfoldable pub epoch_stats : Option Value → Store → RpcResult Value
  epoch_stats params s = do
    epoch ← extract_u16_param lib params 0
    stored_or_null db lib (Warm.get_epoch_stats db epoch s)

  -- "qonduit_getSpectrumChanges"
  unfoldable pub spectrum_changes : Option Value → Store → RpcResult Value
  spectrum_changes params s = with_identity db lib params λ id key.
      stored_or db lib (Warm.get_spectrum_entry db key s)
        (λ entry. lib.object (
          ("identity", lib.text id)
          ∷ ("current_balance", balance_or_zero db lib (lib.get entry "balance"))
          ∷ ("changes", lib.array [])
          ∷ (
            "note",
            lib.literal
                "Returns current spectrum balance. Historical change tracking is not yet indexed.",
          )
          ∷ []))
        (lib.object (
          ("identity", lib.text id)
          ∷ ("current_balance", lib.number 0)
          ∷ ("changes", lib.array [])
          ∷ ("note", lib.literal "Entity not found in spectrum")
          ∷ []))

  -- "getEntity"
  unfoldable pub stored_entity : Option Value → Store → RpcResult Value
  stored_entity params s =
      with_identity db lib params λ id key. stored_or_null db lib (Warm.get_entity db key s)

  -- The methods from "qonduit_getTick" on.
  unfoldable pub dispatch_native : List EpochRange → Bytes → Option Value → Store → RpcResult Value
  dispatch_native ranges method params s =
      if is "qonduit_getTick" method
      then tick_data db lib params s
      else if is "qonduit_getTickTransactions" method
      then tick_transactions db lib params s
      else if is "qonduit_getEntityActivity" method
      then entity_activity db lib params s
      else if is "qonduit_getEntityHistory" method
      then entity_history db lib ranges params s
      else if is "qonduit_search" method
      then search_method db lib params s
      else if is "qonduit_getAssetHolders" method
      then asset_holders db lib params s
      else if is "qonduit_getCustomMessages" method
      then custom_messages db lib params s
      else if is "qonduit_getOracleData" method
      then oracle_value db lib (Scans.get_latest_oracle db s)
      else if is "qonduit_getEntityTokens" method
      then entity_tokens params s
      else if is "qonduit_getDeFiPositions" method
      then defi_positions params s
      else if is "qonduit_getEpochInfo" method
      then value
          (lib.object (("epoch", epoch_now db lib s) ∷ ("currentTick", tick_now db lib s) ∷ []))
      else if is "getEpochStats" method
      then epoch_stats params s
      else if is "listEpochStats" method
      then value (lib.array (parse_all db lib (seconds db lib (Scans.list_epoch_stats db s))))
      else if is "qonduit_getLogEvents" method
      then log_events db lib params s
      else if is "qonduit_getSpectrumChanges" method
      then spectrum_changes params s
      else if is "qonduit_getEntityBalances" method
      then spectrum_entry params s
      else fails (method_not_found method)

  -- `version` is the version of the package.
  unfoldable pub dispatch_method :
      Value → List EpochRange → Bytes → Option Value → Store → RpcResult Value
  dispatch_method version ranges method params s =
      if is "getTickInfo" method
      then value (lib.object (("tick", tick_now db lib s) ∷ ("epoch", epoch_now db lib s) ∷ []))
      else if is "getCurrentTickInfo" method
      then value (lib.object (("epoch", epoch_now db lib s) ∷ ("tick", tick_now db lib s) ∷ []))
      else if is "getEntity" method
      then stored_entity params s
      else if is "getBalance" method
      then balance db lib params s
      else if is "getTransactionsForTick" method || is "getTickTransactions" method
      then tick_transactions db lib params s
      else if is "getTransaction" method
      then transaction db lib params s
      else if is "getBlock" method
      then tick_data db lib params s
      else if is "getQubicInfo" method
      then value (
          lib.object (
            ("epoch", epoch_now db lib s)
            ∷ ("tick", tick_now db lib s)
            ∷ ("version", version)
            ∷ []))
      else if is "getSystemInfo" method
      then value (
          lib.object
            (("currentTick", tick_now db lib s) ∷ ("currentEpoch", epoch_now db lib s) ∷ []))
      else if is "getComputors" method
      then latest_computors (Scans.get_latest_computors db s)
      else if is "getContractIPO" method
      then contract_ipo db lib params s
      else if is "getIssuedAssets" method
      then value (lib.array (parse_all db lib (seconds db lib (Scans.get_all_assets db 1000 s))))
      else if is "getOwnedAssets" method
      then entity_assets db lib "owning_entity" params s
      else if is "getPossessedAssets" method
      then entity_assets db lib "possessing_entity" params s
      else if is "getAssetsByOwner" method
      then entity_assets db lib "owning_entity" params s
      else if is "getSpectrumStats" method
      then value (
          lib.object (
            ("tick", tick_now db lib s)
            ∷ ("epoch", epoch_now db lib s)
            ∷ ("numberOfEntities", lib.number 0)
            ∷ []))
      else if is "getSpectrum" method
      then spectrum_entry params s
      else if is "getProposal" method || is "getBallot" method
      then value lib.null
      else if is "getVotesForProposal" method || is "getVotesForVoter" method
      then value (lib.array [])
      else if is "getActiveIPOs" method
      then value
          (lib.array (parse_all db lib (seconds db lib (Scans.get_all_contract_ipos db 1000 s))))
      else if is "getIPOBids" method
      then contract_ipo db lib params s
      else if is "getContractFunction" method
      then fails (
          not_supported
            "getContractFunction is not yet supported. This requires TCP forwarding to a Qubic node. TODO: Implement via NATS request/reply through the ingestion layer.")
      else if is "getSyncState" method
      then value
          (lib.object (("syncing", lib.boolean false) ∷ ("currentTick", tick_now db lib s) ∷ []))
      else if is "getContractFunctionResult" method
      then fails (
          not_supported
            "getContractFunctionResult is not yet supported. This requires a pending-response cache for contract function calls. TODO: Implement via NATS subscription + dejavu-keyed cache.")
      else dispatch_native ranges method params s
