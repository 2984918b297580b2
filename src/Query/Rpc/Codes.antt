-- ===== src/Query/Rpc/Codes.antt =====
-- The codes of the errors of crates/query/src/rpc.rs.
use qonduit.Common.{ℕ, zero, suc, ◌≡◌, refl, List, [], ◌∷◌, ◌++◌, false, All, Option, none, some}
use Prim.Native.String.{String}
use qonduit.Bytes.{Bytes, ℤ, negsuc}
use qonduit.Core.Epochs.{EpochRange}
use qonduit.Storage.Database.{Database}
use qonduit.Storage.Keys.{has_prefix}
use qonduit.Query.Values.{External}
use qonduit.Query.Texts.{codes}
use qonduit.Query.Rpc.{JsonRpcRequest, error_code, respond, handle_rpc}
use qonduit.Query.Rpc.Params.{
  RpcError, method_not_found, missing_params, params_must_be_array, missing_param, invalid_identity,
  invalid_hash_length, hex_failed, json_failed, not_supported, message, fails,
}
use qonduit.Query.Rpc.Methods.{is, dispatch_method, dispatch_native}

-- The codes of JSON-RPC 2.0: an unknown method, invalid parameters, and any other error.
abbrev pub expected_code : RpcError → ℤ
expected_code (method_not_found method) = negsuc 32600
expected_code missing_params = negsuc 32601
expected_code params_must_be_array = negsuc 32601
expected_code (missing_param index) = negsuc 32601
expected_code invalid_identity = negsuc 31999
expected_code invalid_hash_length = negsuc 31999
expected_code (hex_failed s) = negsuc 31999
expected_code (json_failed s) = negsuc 31999
expected_code (not_supported s) = negsuc 31999

-- A message that none of the tested texts begins.
abbrev pub IsOther : Bytes → Type 0
IsOther msg =
    (has_prefix (codes "Method not found") msg ≡ false)
    × (has_prefix (codes "Missing params") msg ≡ false)
    × (has_prefix (codes "Params must be array") msg ≡ false)
    × (has_prefix (codes "Missing param at index") msg ≡ false)

abbrev pub HasOtherText : External → RpcError → Type 0
HasOtherText lib (method_not_found method) = Unit
HasOtherText lib missing_params = Unit
HasOtherText lib params_must_be_array = Unit
HasOtherText lib (missing_param index) = Unit
HasOtherText lib invalid_identity = Unit
HasOtherText lib invalid_hash_length = Unit
HasOtherText lib (hex_failed s) = IsOther (lib.hex_error s)
HasOtherText lib (json_failed s) = IsOther (lib.json_error s)
HasOtherText lib (not_supported s) = IsOther (codes s)

error_code-message :
    (lib : External) (e : RpcError)
    → HasOtherText lib e
    → error_code (message lib e) ≡ expected_code e
unfolding message error_code has_prefix
error_code-message lib (method_not_found method) h = refl
error_code-message lib missing_params h = refl
error_code-message lib params_must_be_array h = refl
error_code-message lib (missing_param index) h = refl
error_code-message lib invalid_identity h = refl
error_code-message lib invalid_hash_length h = refl
error_code-message lib (hex_failed s) (a, b, c, d) = rw (a, b, c, d) refl
error_code-message lib (json_failed s) (a, b, c, d) = rw (a, b, c, d) refl
error_code-message lib (not_supported s) (a, b, c, d) = rw (a, b, c, d) refl

-- The methods that the server knows.
abbrev pub method_names : List String
method_names =
    "getTickInfo" ∷ "getCurrentTickInfo" ∷ "getEntity" ∷ "getBalance" ∷ "getTransactionsForTick"
    ∷ "getTickTransactions" ∷ "getTransaction" ∷ "getBlock" ∷ "getQubicInfo" ∷ "getSystemInfo"
    ∷ "getComputors" ∷ "getContractIPO" ∷ "getIssuedAssets" ∷ "getOwnedAssets"
    ∷ "getPossessedAssets" ∷ "getAssetsByOwner" ∷ "getSpectrumStats" ∷ "getSpectrum" ∷ "getProposal"
    ∷ "getBallot" ∷ "getVotesForProposal" ∷ "getVotesForVoter" ∷ "getActiveIPOs" ∷ "getIPOBids"
    ∷ "getContractFunction" ∷ "getSyncState" ∷ "getContractFunctionResult" ∷ "qonduit_getTick"
    ∷ "qonduit_getTickTransactions" ∷ "qonduit_getEntityActivity" ∷ "qonduit_getEntityHistory"
    ∷ "qonduit_search" ∷ "qonduit_getAssetHolders" ∷ "qonduit_getCustomMessages"
    ∷ "qonduit_getOracleData" ∷ "qonduit_getEntityTokens" ∷ "qonduit_getDeFiPositions"
    ∷ "qonduit_getEpochInfo" ∷ "getEpochStats" ∷ "listEpochStats" ∷ "qonduit_getLogEvents"
    ∷ "qonduit_getSpectrumChanges" ∷ "qonduit_getEntityBalances" ∷ []

abbrev name_at : ℕ → List String → String
name_at i [] = "getTickInfo"
name_at zero (name ∷ names) = name
name_at (suc i) (name ∷ names) = name_at i names

All-name_at :
    (P : String → Type 0) (i : ℕ) (names : List String)
    → P "getTickInfo"
    → All P names
    → P (name_at i names)
All-name_at P i [] p ps = p
All-name_at P zero (name ∷ names) p (q, qs) = q
All-name_at P (suc i) (name ∷ names) p (q, qs) = All-name_at P i names p qs

module _ (db : Database) (lib : External) where
  dispatch-unknown :
      (version : lib.Value) (ranges : List EpochRange) (method : Bytes) (params : Option lib.Value)
      (s : db.Store)
      → All (λ name. is name method ≡ false) method_names
      → dispatch_method db lib version ranges method params s ≡ fails (method_not_found method)
  unfolding dispatch_method dispatch_native
  dispatch-unknown version ranges method params s h =
      let no : (i : ℕ) → is (name_at i method_names) method ≡ false =
        λ i. All-name_at (λ name. is name method ≡ false) i method_names h.0 h in
      rw
        (
          no 0,
          no 1,
          no 2,
          no 3,
          no 4,
          no 5,
          no 6,
          no 7,
          no 8,
          no 9,
          no 10,
          no 11,
          no 12,
          no 13,
          no 14,
          no 15,
          no 16,
          no 17,
          no 18,
          no 19,
          no 20,
          no 21,
          no 22,
          no 23,
          no 24,
          no 25,
          no 26,
          no 27,
          no 28,
          no 29,
          no 30,
          no 31,
          no 32,
          no 33,
          no 34,
          no 35,
          no 36,
          no 37,
          no 38,
          no 39,
          no 40,
          no 41,
          no 42,
        )
        refl

  -- A request of a method that the server does not know is answered with the code -32601, the name
  -- of the method and the id of the request, whatever its parameters are.
  pub handle_rpc-unknown :
      (version : lib.Value) (ranges : List EpochRange) (request : JsonRpcRequest lib.Value)
      (s : db.Store)
      → All (λ name. is name request.method ≡ false) method_names
      → handle_rpc db lib version ranges request s
        ≡ some (record {
          result = none;
          error = some (record {
            code = negsuc 32600;
            message = codes "Method not found: " ++ request.method;
          });
          id = request.id;
        })
  unfolding handle_rpc respond message error_code has_prefix
  handle_rpc-unknown version ranges request s h =
      rw (dispatch-unknown version ranges request.method request.params s h) refl

  -- Every error is answered with its code: -32601 for an unknown method, -32602 for parameters that
  -- are missing or no array or have no such element, and -32000 for any other error whose text does
  -- not begin like one of these.
  pub respond-fails :
      (id : Option lib.Value) (e : RpcError)
      → HasOtherText lib e
      → respond db lib id (fails e)
        ≡ some (record {
          result = none;
          error = some (record { code = expected_code e; message = message lib e });
          id = id;
        })
  unfolding respond
  respond-fails id e h = rw (error_code-message lib e h) refl
