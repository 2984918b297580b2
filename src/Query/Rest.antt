-- ===== src/Query/Rest.antt =====
-- The handlers of crates/query/src/rest.rs over the warm store, without the metrics, the health
-- check and the system information. That the store can fail with an I/O error is left out, and so
-- are the answers with status 500; what panics is the copying of hashes.
pub mod Search
pub mod Endpoints
use Prim.Native.String.{String}
use qonduit.Common.{
  ℕ, suc, min, List, [], ◌∷◌, ◌++◌, map, Bool, false, ◌==◌, length, Option, none, some,
  if◌then◌else◌,
}
use qonduit.Bytes.{Bytes, Result, ok, err, panic, ◌>>=◌}
use qonduit.Core.Identity.{decode_base26}
use qonduit.Core.Epochs.{EpochRange}
use qonduit.Storage.Database.{Database}
use qonduit.Storage.Warm
use qonduit.Storage.Warm.Scans
use qonduit.Query.Values.{External}
use qonduit.Query.Texts.{parse_u32, parse_u16}

-- Status 200 with stored bytes or with a value that is printed, 404, and 400 with its message.
pub data Response (V : Type 0) : Type 0 where
  raw : Bytes → Response V
  not_found : Response V
  bad_request : String → Response V
  json : V → Response V

unfoldable pub json_or_404 : {V : Type 0} → Option Bytes → Response V
json_or_404 (some bytes) = raw bytes
json_or_404 none = not_found

-- `match … { Ok(x) => …, _ => return bad_request(msg) }`
unfoldable pub or_bad_request : {V A : Type 0} → String → Option A → (A → Response V) → Response V
or_bad_request msg none f = bad_request msg
or_bad_request msg (some a) f = f a

pub record EntityHistoryParams : Type 0 where
  pub offset : ℕ
  pub limit : ℕ
  pub epoch : Option ℕ

-- `default_limit`
abbrev pub default_limit : ℕ
default_limit = 50

abbrev pub invalid_tick : String
invalid_tick = "Invalid tick: must be a valid u32"

abbrev pub invalid_identity : String
invalid_identity = "Invalid identity: must be a valid base26-encoded string"

module _ (db : Database) (lib : External) where
  open db use {Store}
  open lib use {Value, from_slice}

  -- `serde_json::from_slice`, the failures dropped.
  unfoldable pub push_parsed : Option Value → List Value → List Value
  push_parsed none vs = vs
  push_parsed (some v) vs = v ∷ vs

  -- `filter_map(|data| from_slice(&data).ok())`
  unfoldable pub parse_all : List Bytes → List Value
  parse_all [] = []
  parse_all (bytes ∷ rest) = push_parsed (from_slice bytes) (parse_all rest)

  unfoldable pub push_stored : Option Bytes → List Value → List Value
  push_stored none vs = vs
  push_stored (some bytes) vs = push_parsed (from_slice bytes) vs

  -- The loop over hashes: what is stored and parses.
  unfoldable pub transactions_of : List Bytes → Store → List Value
  transactions_of [] s = []
  transactions_of (hash ∷ hashes) s = push_stored (Warm.get_tx db hash s) (transactions_of hashes s)

  -- The loop over asset indices.
  unfoldable pub assets_at : List ℕ → Store → List Value
  assets_at [] s = []
  assets_at (i ∷ is) s = push_stored (Warm.get_asset db i s) (assets_at is s)

  abbrev pub array_response : List Value → Response Value
  array_response vs = json (lib.array vs)

  abbrev of_tick : Store → Option ℕ → Response Value
  of_tick s none = not_found
  of_tick s (some tick) = json_or_404 (Warm.get_tick db tick s)

  unfoldable pub current_tick : Store → Response Value
  current_tick s = of_tick s (Warm.get_current_tick db s)

  unfoldable pub get_tick : Bytes → Store → Response Value
  get_tick tick_str s =
      or_bad_request invalid_tick (parse_u32 tick_str)
        (λ tick. json_or_404 (Warm.get_tick db tick s))

  abbrev pub transactions_response : Store → Result (List Bytes) → Result (Response Value)
  transactions_response s r = do hashes ← r; ok (array_response (transactions_of hashes s))

  abbrev tick_transactions : Store → Option ℕ → Result (Response Value)
  tick_transactions s none = ok (bad_request invalid_tick)
  tick_transactions s (some tick) = transactions_response s (Scans.get_tx_hashes_for_tick db tick s)

  unfoldable pub get_tick_transactions : Bytes → Store → Result (Response Value)
  get_tick_transactions tick_str s = tick_transactions s (parse_u32 tick_str)

  -- The bytes of a hash, if there are 32.
  abbrev hash_of : Option Bytes → Option Bytes
  hash_of none = none
  hash_of (some bytes) = if length bytes == 32 then some bytes else none

  unfoldable pub get_transaction : Bytes → Store → Response Value
  get_transaction hash_str s =
      or_bad_request "Invalid transaction hash: must be 64 hex characters"
        (hash_of (lib.hex_decode hash_str)) (λ hash. json_or_404 (Warm.get_tx db hash s))

  unfoldable pub get_entity : Bytes → Store → Response Value
  get_entity id s =
      or_bad_request invalid_identity (decode_base26 lib.k12 id)
        (λ key. json_or_404 (Warm.get_entity db key s))

  unfoldable pub get_spectrum_entry : Bytes → Store → Response Value
  get_spectrum_entry id s =
      or_bad_request invalid_identity (decode_base26 lib.k12 id)
        (λ key. json_or_404 (Warm.get_spectrum_entry db key s))

  abbrev stored_computors : Option (ℕ × Bytes) → Response Value
  stored_computors none = not_found
  stored_computors (some (epoch, bytes)) = json_or_404 (some bytes)

  unfoldable pub get_computors : Store → Response Value
  get_computors s = stored_computors (Scans.get_latest_computors db s)

  unfoldable pub get_computors_epoch : Bytes → Store → Response Value
  get_computors_epoch epoch_str s =
      or_bad_request "Invalid epoch: must be a valid u16" (parse_u16 epoch_str)
        (λ epoch. json_or_404 (Warm.get_computors db epoch s))

  abbrev pub seconds : List (ℕ × Bytes) → List Bytes
  seconds = map (λ (r : ℕ × Bytes). r.1)

  unfoldable pub get_issued_assets : Store → Response Value
  get_issued_assets s = array_response (parse_all (seconds (Scans.get_all_assets db 1000 s)))

  -- `v.get(field) == Some(&entity_json)`
  abbrev pub field_is : String → Value → Value → Bool
  field_is field entity_json v = elim (lib.get v field) [
    | none ↦ false
    | some w ↦ lib.value_eq w entity_json
  ]

  -- The values whose field is the entity.
  unfoldable pub held_by : String → Value → List Value → List Value
  held_by field entity_json [] = []
  held_by field entity_json (v ∷ vs) =
      let rest = held_by field entity_json vs in
      if field_is field entity_json v then v ∷ rest else rest

  -- The index of the entity's assets first, and the scan of all assets if it has none.
  unfoldable pub assets_of_entity : String → Bytes → Store → List ℕ → List Value
  assets_of_entity field key s (i ∷ is) = assets_at (i ∷ is) s
  assets_of_entity field key s [] =
      held_by field (lib.array (map lib.number key))
        (parse_all (seconds (Scans.get_all_assets db 10000 s)))

  unfoldable pub get_owned_assets : Bytes → Store → Response Value
  get_owned_assets id s = or_bad_request invalid_identity (decode_base26 lib.k12 id) (λ key.
      array_response
        (assets_of_entity "owning_entity" key s (Scans.get_assets_for_entity db key s)))

  unfoldable pub get_possessed_assets : Bytes → Store → Response Value
  get_possessed_assets id s = or_bad_request invalid_identity (decode_base26 lib.k12 id) (λ key.
      array_response
        (assets_of_entity "possessing_entity" key s (Scans.get_assets_for_entity db key s)))

  unfoldable pub get_asset : Bytes → Store → Response Value
  get_asset index_str s =
      or_bad_request "Invalid asset index: must be a valid u32" (parse_u32 index_str)
        (λ index. json_or_404 (Warm.get_asset db index s))

  unfoldable pub get_contract_ipo : Bytes → Store → Response Value
  get_contract_ipo index_str s =
      or_bad_request "Invalid contract IPO index: must be a valid u32" (parse_u32 index_str)
        (λ index. json_or_404 (Warm.get_contract_ipo db index s))

  unfoldable pub get_active_ipos : Store → Response Value
  get_active_ipos s = array_response (parse_all (seconds (Scans.get_all_contract_ipos db 1000 s)))

  unfoldable pub list_epochs : Store → Response Value
  list_epochs s = array_response (parse_all (seconds (Scans.list_epoch_stats db s)))

  unfoldable pub get_epoch : Bytes → Store → Response Value
  get_epoch epoch_str s =
      or_bad_request "Invalid epoch: must be a valid u16" (parse_u16 epoch_str)
        (λ epoch. json_or_404 (Warm.get_epoch_stats db epoch s))

  abbrev entity_transactions : Store → Option Bytes → Result (Response Value)
  entity_transactions s none = ok (bad_request invalid_identity)
  entity_transactions s (some key) =
      transactions_response s (Scans.get_tx_hashes_for_entity db key 100 s)

  unfoldable pub get_entity_transactions : Bytes → Store → Result (Response Value)
  get_entity_transactions id s = entity_transactions s (decode_base26 lib.k12 id)

  -- The object that both interfaces return for a page; `limit` is capped already.
  abbrev pub history_value : List Value → ℕ → ℕ → ℕ → Value
  history_value transactions total offset limit = lib.object (
      ("transactions", lib.array transactions)
      ∷ ("total", lib.number total)
      ∷ ("offset", lib.number offset)
      ∷ ("limit", lib.number limit)
      ∷ [])

  -- `ranges` are the cached epoch ranges.
  unfoldable pub get_entity_history :
      List EpochRange → Bytes → EntityHistoryParams → Store → Response Value
  get_entity_history ranges id params s =
      or_bad_request invalid_identity (decode_base26 lib.k12 id) (λ key.
        let limit = min params.limit 500 in
        let history = Scans.get_entity_history db ranges key params.epoch params.offset limit s in
        json (
          history_value (parse_all (seconds history)) (Scans.count_entity_transactions db key s)
            params.offset limit))
