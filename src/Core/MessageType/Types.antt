-- ===== src/Core/MessageType/Types.antt =====
-- The enum of crates/core/src/message_type.rs and its discriminants.
use qonduit.Common.{ℕ}

pub data NetworkMessageType : Type 0 where
  exchange_public_peers : NetworkMessageType
  broadcast_message : NetworkMessageType
  broadcast_computors : NetworkMessageType
  broadcast_tick : NetworkMessageType
  broadcast_future_tick_data : NetworkMessageType
  request_computors : NetworkMessageType
  request_quorum_tick : NetworkMessageType
  request_tick_data : NetworkMessageType
  broadcast_transaction : NetworkMessageType
  request_transaction_info : NetworkMessageType
  request_current_tick_info : NetworkMessageType
  respond_current_tick_info : NetworkMessageType
  request_tick_transactions : NetworkMessageType
  request_entity : NetworkMessageType
  respond_entity : NetworkMessageType
  request_contract_ipo : NetworkMessageType
  respond_contract_ipo : NetworkMessageType
  end_response : NetworkMessageType
  request_issued_assets : NetworkMessageType
  respond_issued_assets : NetworkMessageType
  request_owned_assets : NetworkMessageType
  respond_owned_assets : NetworkMessageType
  request_possessed_assets : NetworkMessageType
  respond_possessed_assets : NetworkMessageType
  request_contract_function : NetworkMessageType
  respond_contract_function : NetworkMessageType
  request_log : NetworkMessageType
  respond_log : NetworkMessageType
  request_system_info : NetworkMessageType
  respond_system_info : NetworkMessageType
  request_log_id_range_from_tx : NetworkMessageType
  respond_log_id_range_from_tx : NetworkMessageType
  request_all_log_id_ranges_from_tx : NetworkMessageType
  respond_all_log_id_ranges_from_tx : NetworkMessageType
  request_assets : NetworkMessageType
  respond_assets : NetworkMessageType
  try_again : NetworkMessageType
  request_pruning_log : NetworkMessageType
  respond_pruning_log : NetworkMessageType
  request_log_state_digest : NetworkMessageType
  respond_log_state_digest : NetworkMessageType
  request_active_ipos : NetworkMessageType
  respond_active_ipo : NetworkMessageType
  request_oracle_data : NetworkMessageType
  respond_oracle_data : NetworkMessageType
  broadcast_custom_mining_task : NetworkMessageType
  broadcast_custom_mining_solution : NetworkMessageType
  request_tx_status : NetworkMessageType
  respond_tx_status : NetworkMessageType
  special_command : NetworkMessageType

-- The discriminants of the `repr(u8)` enum.
unfoldable pub to_u8 : NetworkMessageType → ℕ
to_u8 exchange_public_peers = 0
to_u8 broadcast_message = 1
to_u8 broadcast_computors = 2
to_u8 broadcast_tick = 3
to_u8 broadcast_future_tick_data = 8
to_u8 request_computors = 11
to_u8 request_quorum_tick = 14
to_u8 request_tick_data = 16
to_u8 broadcast_transaction = 24
to_u8 request_transaction_info = 26
to_u8 request_current_tick_info = 27
to_u8 respond_current_tick_info = 28
to_u8 request_tick_transactions = 29
to_u8 request_entity = 31
to_u8 respond_entity = 32
to_u8 request_contract_ipo = 33
to_u8 respond_contract_ipo = 34
to_u8 end_response = 35
to_u8 request_issued_assets = 36
to_u8 respond_issued_assets = 37
to_u8 request_owned_assets = 38
to_u8 respond_owned_assets = 39
to_u8 request_possessed_assets = 40
to_u8 respond_possessed_assets = 41
to_u8 request_contract_function = 42
to_u8 respond_contract_function = 43
to_u8 request_log = 44
to_u8 respond_log = 45
to_u8 request_system_info = 46
to_u8 respond_system_info = 47
to_u8 request_log_id_range_from_tx = 48
to_u8 respond_log_id_range_from_tx = 49
to_u8 request_all_log_id_ranges_from_tx = 50
to_u8 respond_all_log_id_ranges_from_tx = 51
to_u8 request_assets = 52
to_u8 respond_assets = 53
to_u8 try_again = 54
to_u8 request_pruning_log = 56
to_u8 respond_pruning_log = 57
to_u8 request_log_state_digest = 58
to_u8 respond_log_state_digest = 59
to_u8 request_active_ipos = 64
to_u8 respond_active_ipo = 65
to_u8 request_oracle_data = 66
to_u8 respond_oracle_data = 67
to_u8 broadcast_custom_mining_task = 68
to_u8 broadcast_custom_mining_solution = 69
to_u8 request_tx_status = 201
to_u8 respond_tx_status = 202
to_u8 special_command = 255
