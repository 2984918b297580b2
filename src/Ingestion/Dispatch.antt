-- ===== src/Ingestion/Dispatch.antt =====
-- `PacketDecoder::decode_and_publish` of crates/ingestion/src/decoder.rs and its handlers. What is
-- handed to the publisher is listed in order; the publisher is a parameter that says whether it
-- takes a message. `reserves` says for which capacities the allocator has room. The metrics are left
-- out.
pub mod Panics
use qonduit.Common.{ℕ, List, [], ◌∷◌, map, Bool, ◌==◌, if◌then◌else◌}
use qonduit.Bytes.{Bytes, Result, ok, err, panic, publish_failed}
use qonduit.Core.Hash.{External}
use qonduit.Ingestion.Decoders.Records.{
  EntityData, OracleDataResponse, decode_entity, decode_current_tick_info, decode_system_info,
  decode_oracle_data, decode_pruning_log_response, decode_log_state_digest,
}
use qonduit.Ingestion.Decoders.Mining.{
  CustomMiningTask, CustomMiningSolution, decode_custom_mining_task, decode_custom_mining_solution,
}
use qonduit.Ingestion.Decoders.Tables.{
  Computors, ContractIpo, decode_computors, decode_contract_ipo, decode_tx_status,
  decode_all_log_id_ranges,
}
use qonduit.Ingestion.Decoders.Transaction.{Transaction, decode_transaction}
use qonduit.Ingestion.Decoders.Tick.{TickData, decode_tick}
use qonduit.Ingestion.Decoders.LogEvents.{LogEvent, decode_log_events}
use qonduit.Ingestion.Votes.Handler.{Message, VoteState, decode_tick_vote}

-- The messages of the publisher's methods, most with the current epoch.
pub data Published : Type 0 where
  vote : Message → Published
  tick_data : ℕ → TickData → Published
  transaction : ℕ → Transaction → Published
  computors : ℕ → Computors → Published
  entity : ℕ → EntityData → Published
  contract_ipo : ℕ → ContractIpo → Published
  contract_fn : ℕ → ℕ → Bytes → Published
  log_events : ℕ → List LogEvent → Published
  -- the epoch, the tick, the event type and the data in hexadecimal
  custom_message : ℕ → ℕ → ℕ → Bytes → Published
  log_state_digest : Bytes → Published
  oracle_data : ℕ → OracleDataResponse → Published
  mining_task : ℕ → CustomMiningTask → Published
  mining_solution : ℕ → CustomMiningSolution → Published

-- The messages handed over, and how the handler ends.
pub record Sent : Type 0 where
  pub messages : List Published
  pub outcome : Result (Unit {0})

-- A handler that decodes and only logs.
unfoldable pub log_only : {A : Type 0} → Result A → Sent
log_only (ok a) = record { messages = []; outcome = ok tt }
log_only (err e) = record { messages = []; outcome = err e }
log_only panic = record { messages = []; outcome = panic }

module _ (lib : External) (publish : Published → Bool) where
  open lib use {hex_encode}

  -- Publish a message, and go on with `rest` if that succeeds.
  unfoldable pub send_then : Published → Sent → Sent
  send_then m rest =
      if publish m
      then record { messages = m ∷ rest.messages; outcome = rest.outcome }
      else record { messages = m ∷ []; outcome = err publish_failed }

  abbrev pub nothing : Sent
  nothing = record { messages = []; outcome = ok tt }

  -- A handler that decodes and publishes.
  unfoldable pub publish_one : {A : Type 0} → Result A → (A → Published) → Sent
  publish_one (ok a) f = send_then (f a) nothing
  publish_one (err e) f = record { messages = []; outcome = err e }
  publish_one panic f = record { messages = []; outcome = panic }

  unfoldable pub publish_events : ℕ → List LogEvent → Sent
  publish_events current_epoch [] = nothing
  publish_events current_epoch (e ∷ es) =
      let rest = publish_events current_epoch es in
      send_then (custom_message current_epoch e.tick e.event_type (hex_encode e.event_data)) rest

  unfoldable pub decode_broadcast_message : ℕ → Result (List LogEvent) → Sent
  decode_broadcast_message current_epoch (ok []) = nothing
  decode_broadcast_message current_epoch (ok (e ∷ es)) =
      send_then (log_events current_epoch (e ∷ es)) (publish_events current_epoch (e ∷ es))
  decode_broadcast_message current_epoch (err e) = record { messages = []; outcome = err e }
  decode_broadcast_message current_epoch panic = record { messages = []; outcome = panic }

  -- The arms of the match other than votes (3) and ticks (8).
  unfoldable pub handle_other : (ℕ → Bool) → ℕ → ℕ → Bytes → ℕ → Sent
  handle_other reserves msg_type dejavu payload current_epoch =
      if msg_type == 24
      then publish_one (decode_transaction lib payload) (transaction current_epoch)
      else if msg_type == 2
      then publish_one (decode_computors lib payload) (computors current_epoch)
      else if msg_type == 32
      then publish_one (decode_entity lib payload) (entity current_epoch)
      else if msg_type == 34
      then publish_one (decode_contract_ipo lib payload) (contract_ipo current_epoch)
      else if msg_type == 47
      then log_only (decode_system_info lib payload)
      else if msg_type == 28
      then log_only (decode_current_tick_info payload)
      else if msg_type == 43
      then send_then (contract_fn current_epoch dejavu payload) nothing
      else if msg_type == 51
      then log_only (decode_all_log_id_ranges payload 0)
      else if msg_type == 1
      then decode_broadcast_message current_epoch (decode_log_events payload)
      else if msg_type == 57
      then log_only (decode_pruning_log_response payload)
      else if msg_type == 59
      then publish_one (decode_log_state_digest lib payload) log_state_digest
      else if msg_type == 67
      then publish_one (decode_oracle_data lib payload) (oracle_data current_epoch)
      else if msg_type == 68
      then publish_one (decode_custom_mining_task lib payload) (mining_task current_epoch)
      else if msg_type == 69
      then publish_one (decode_custom_mining_solution lib payload) (mining_solution current_epoch)
      else if msg_type == 202
      then log_only (decode_tx_status lib reserves payload 0)
      else nothing

  -- The votes change the state of the decoder, the other messages do not.
  unfoldable pub decode_and_publish : (ℕ → Bool) → VoteState → ℕ → ℕ → Bytes → ℕ → VoteState × Sent
  decode_and_publish reserves s msg_type dejavu payload current_epoch =
      if msg_type == 3
      then (let (s', messages, outcome) =
            decode_tick_vote (λ m. publish (vote m)) s payload current_epoch in
          (s', record { messages = map vote messages; outcome = outcome }))
      else if msg_type == 8
      then (s, publish_one (decode_tick lib payload) (tick_data current_epoch))
      else (s, handle_other reserves msg_type dejavu payload current_epoch)
