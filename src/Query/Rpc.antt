-- ===== src/Query/Rpc.antt =====
-- crates/query/src/rpc.rs: the JSON-RPC methods over the warm store. That the store can fail with an
-- I/O error is left out; what panics is the copying of hashes.
pub mod Params
pub mod Lookups
pub mod Search
pub mod Methods
pub mod Codes
use qonduit.Common.{List, Option, none, some, Bool, ◌||◌, if◌then◌else◌}
use qonduit.Bytes.{Bytes, ℤ, negsuc}
use qonduit.Core.Epochs.{EpochRange}
use qonduit.Storage.Database.{Database}
use qonduit.Storage.Keys.{has_prefix}
use qonduit.Query.Values.{External}
use qonduit.Query.Texts.{codes}
use qonduit.Query.Rpc.Params.{RpcError, RpcResult, value, fails, panics, message}
use qonduit.Query.Rpc.Methods.{dispatch_method}

-- A request of version 2.0, whose version the code does not check.
pub record JsonRpcRequest (V : Type 0) : Type 0 where
  pub jsonrpc : Bytes
  pub method : Bytes
  pub params : Option V
  pub id : Option V

pub record JsonRpcError : Type 0 where
  pub code : ℤ
  pub message : Bytes

-- The response, always of version "2.0" and without data in an error.
pub record JsonRpcResponse (V : Type 0) : Type 0 where
  pub result : Option V
  pub error : Option JsonRpcError
  pub id : Option V

-- The code of an error by the beginning of its message: -32601, -32602 or -32000.
unfoldable pub error_code : Bytes → ℤ
error_code msg =
    if has_prefix (codes "Method not found") msg
    then negsuc 32600
    else if has_prefix (codes "Missing params") msg
        || has_prefix (codes "Params must be array") msg
        || has_prefix (codes "Missing param at index") msg
    then negsuc 32601
    else negsuc 31999

module _ (db : Database) (lib : External) where
  open db use {Store}
  open lib use {Value}

  -- None stands for a panic of the handler.
  unfoldable pub respond : Option Value → RpcResult Value → Option (JsonRpcResponse Value)
  respond id (value v) = some (record { result = some v; error = none; id = id })
  respond id (fails e) =
      let msg = message lib e in
      some (record {
        result = none;
        error = some (record { code = error_code msg; message = msg });
        id = id;
      })
  respond id panics = none

  unfoldable pub handle_rpc :
      Value → List EpochRange → JsonRpcRequest Value → Store → Option (JsonRpcResponse Value)
  handle_rpc version ranges request s =
      respond request.id (dispatch_method db lib version ranges request.method request.params s)
