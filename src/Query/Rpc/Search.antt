-- ===== src/Query/Rpc/Search.antt =====
-- "qonduit_search" of crates/query/src/rpc.rs: all that is found by tick, hash and identity.
use Prim.Native.String.{String}
use qonduit.Common.{
  ℕ, List, [], ◌∷◌, ◌++◌, ◌&&◌, ◌==◌, leb, ltb, length, Option, none, some, if◌then◌else◌,
}
use qonduit.Bytes.{Bytes}
use qonduit.Core.Identity.{is_ascii_uppercase, decode_base26, encode_base26}
use qonduit.Storage.Database.{Database}
use qonduit.Storage.Keys.{has_prefix}
use qonduit.Storage.Warm
use qonduit.Storage.Warm.Scans
use qonduit.Query.Values.{External}
use qonduit.Query.Texts.{all_chars, is_ascii_digit, is_ascii_hexdigit, parse_u32, trim}
use qonduit.Query.Rpc.Params.{RpcResult, value, ◌>>=◌, extract_string_param}

module _ (db : Database) (lib : External) where
  open db use {Store}
  open lib use {Value, from_slice}

  abbrev parsed : Option Bytes → Option Value
  parsed none = none
  parsed (some bytes) = from_slice bytes

  -- One result of a kind, if there is one.
  unfoldable pub result_of : String → Option Value → List Value
  result_of kind none = []
  result_of kind (some v) = lib.object (("type", lib.literal kind) ∷ ("data", v) ∷ []) ∷ []

  abbrev tick_of : Store → Option ℕ → Option Value
  tick_of s none = none
  tick_of s (some tick) = parsed (Warm.get_tick db tick s)

  unfoldable pub tick_results : Bytes → Store → List Value
  tick_results q s =
      if all_chars is_ascii_digit q then result_of "tick" (tick_of s (parse_u32 q)) else []

  abbrev transaction_of : Store → Option Bytes → Option Value
  transaction_of s none = none
  transaction_of s (some hash) = if length hash == 32 then parsed (Warm.get_tx db hash s) else none

  unfoldable pub hash_results : Bytes → Store → List Value
  hash_results q s =
      if length q == 64 && all_chars is_ascii_hexdigit q
      then result_of "transaction" (transaction_of s (lib.hex_decode q))
      else []

  abbrev entity_of : Store → Option Bytes → Option Value
  entity_of s none = none
  entity_of s (some key) = parsed (Warm.get_entity db key s)

  -- The entities whose identity begins with the prefix and whose record parses.
  unfoldable pub prefix_results : Bytes → List Bytes → Store → List Value
  prefix_results prefix [] s = []
  prefix_results prefix (key ∷ keys) s =
      let rest = prefix_results prefix keys s in
      if has_prefix prefix (encode_base26 lib.k12 key)
      then result_of "entity" (parsed (Warm.get_entity db key s)) ++ rest
      else rest

  unfoldable pub identity_results : Bytes → Store → List Value
  identity_results q s =
      if all_chars is_ascii_uppercase q
      then (if length q == 60
          then result_of "entity" (entity_of s (decode_base26 lib.k12 q))
          else [])
        ++ (if leb 4 (length q) && ltb (length q) 60
            then prefix_results q (Scans.get_all_entity_keys db 10000 s) s
            else [])
      else []

  unfoldable pub results_of : Bytes → Store → List Value
  results_of [] s = []
  results_of (c ∷ cs) s =
      let q = c ∷ cs in tick_results q s ++ (hash_results q s ++ identity_results q s)

  unfoldable pub search_method : Option Value → Store → RpcResult Value
  search_method params s = do
    query ← extract_string_param lib params 0
    value (lib.object (("results", lib.array (results_of (trim query) s)) ∷ []))
