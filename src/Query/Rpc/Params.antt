-- ===== src/Query/Rpc/Params.antt =====
-- The errors of the methods of crates/query/src/rpc.rs, and the extraction of parameters.
use Prim.Native.String.{String}
use qonduit.Common.{ℕ, ◌%◌, ◌^◌, List, ◌++◌, Option, none, some, get_elem?}
use qonduit.Bytes.{Bytes}
use qonduit.Query.Values.{External}
use qonduit.Query.Texts.{codes, decimal}

-- An `anyhow` error by the place where it arises; `hex_failed` and `json_failed` carry their input.
pub data RpcError : Type 0 where
  method_not_found : Bytes → RpcError
  missing_params : RpcError
  params_must_be_array : RpcError
  missing_param : ℕ → RpcError
  invalid_identity : RpcError
  invalid_hash_length : RpcError
  hex_failed : Bytes → RpcError
  json_failed : Bytes → RpcError
  not_supported : String → RpcError

-- What a method ends with.
pub data RpcResult (A : Type 0) : Type 0 where
  value : A → RpcResult A
  fails : RpcError → RpcResult A
  panics : RpcResult A

infixl 5 ◌>>=◌
abbrev pub ◌>>=◌ : {A B : Type 0} → RpcResult A → (A → RpcResult B) → RpcResult B
value a >>= f = f a
fails e >>= f = fails e
panics >>= f = panics

-- `ok_or_else`
abbrev pub ok_or : {A : Type 0} → Option A → RpcError → RpcResult A
ok_or none e = fails e
ok_or (some a) e = value a

abbrev pub and_then : {A B : Type 0} → Option A → (A → Option B) → Option B
and_then none f = none
and_then (some a) f = f a

module _ (lib : External) where
  open lib use {Value, as_array, as_str, as_u64}

  -- `to_string` of an error.
  unfoldable pub message : RpcError → Bytes
  message (method_not_found method) = codes "Method not found: " ++ method
  message missing_params = codes "Missing params"
  message params_must_be_array = codes "Params must be array"
  message (missing_param index) = codes "Missing param at index " ++ decimal index
  message invalid_identity = codes "Invalid identity"
  message invalid_hash_length = codes "Invalid hash length"
  message (hex_failed s) = lib.hex_error s
  message (json_failed s) = lib.json_error s
  message (not_supported s) = codes s

  unfoldable pub param_array : Option Value → RpcResult (List Value)
  param_array params = do p ← ok_or params missing_params; ok_or (as_array p) params_must_be_array

  unfoldable pub extract_string_param : Option Value → ℕ → RpcResult Bytes
  unfolding param_array
  extract_string_param params index = do
    arr ← param_array params
    ok_or (and_then (get_elem? arr index) as_str) (missing_param index)

  -- `n as u32` drops the high bits.
  unfoldable pub extract_u32_param : Option Value → ℕ → RpcResult ℕ
  unfolding param_array
  extract_u32_param params index = do
    arr ← param_array params
    n ← ok_or (and_then (get_elem? arr index) as_u64) (missing_param index)
    value (n % 2 ^ 32)

  unfoldable pub extract_optional_u16_param : Option Value → ℕ → RpcResult (Option ℕ)
  unfolding param_array
  extract_optional_u16_param params index = do
    arr ← param_array params
    value (and_then (and_then (get_elem? arr index) as_u64) (λ n. some (n % 2 ^ 16)))

  unfoldable pub extract_u16_param : Option Value → ℕ → RpcResult ℕ
  unfolding param_array
  extract_u16_param params index = do
    arr ← param_array params
    n ← ok_or (and_then (get_elem? arr index) as_u64) (missing_param index)
    value (n % 2 ^ 16)

  -- `extract_u32_param(…).unwrap_or(default)`
  unfoldable pub u32_param_or : RpcResult ℕ → ℕ → ℕ
  u32_param_or (value n) default = n
  u32_param_or (fails e) default = default
  u32_param_or panics default = default
