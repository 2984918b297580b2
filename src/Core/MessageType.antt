-- ===== src/Core/MessageType.antt =====
-- crates/core/src/message_type.rs: the message types of the wire protocol, their numbers and their
-- classification as requests, responses and broadcasts.
mod Types
unfoldable pub use Types.*
pub mod Codes
use qonduit.Common.{ℕ, Bool, true, false, Option, none, some, ◌==◌, if◌then◌else◌}

unfoldable pub from_u8 : ℕ → Option NetworkMessageType
from_u8 v =
    if v == 0
    then some exchange_public_peers
    else if v == 1
    then some broadcast_message
    else if v == 2
    then some broadcast_computors
    else if v == 3
    then some broadcast_tick
    else if v == 8
    then some broadcast_future_tick_data
    else if v == 11
    then some request_computors
    else if v == 14
    then some request_quorum_tick
    else if v == 16
    then some request_tick_data
    else if v == 24
    then some broadcast_transaction
    else if v == 26
    then some request_transaction_info
    else if v == 27
    then some request_current_tick_info
    else if v == 28
    then some respond_current_tick_info
    else if v == 29
    then some request_tick_transactions
    else if v == 31
    then some request_entity
    else if v == 32
    then some respond_entity
    else if v == 33
    then some request_contract_ipo
    else if v == 34
    then some respond_contract_ipo
    else if v == 35
    then some end_response
    else if v == 36
    then some request_issued_assets
    else if v == 37
    then some respond_issued_assets
    else if v == 38
    then some request_owned_assets
    else if v == 39
    then some respond_owned_assets
    else if v == 40
    then some request_possessed_assets
    else if v == 41
    then some respond_possessed_assets
    else if v == 42
    then some request_contract_function
    else if v == 43
    then some respond_contract_function
    else if v == 44
    then some request_log
    else if v == 45
    then some respond_log
    else if v == 46
    then some request_system_info
    else if v == 47
    then some respond_system_info
    else if v == 48
    then some request_log_id_range_from_tx
    else if v == 49
    then some respond_log_id_range_from_tx
    else if v == 50
    then some request_all_log_id_ranges_from_tx
    else if v == 51
    then some respond_all_log_id_ranges_from_tx
    else if v == 52
    then some request_assets
    else if v == 53
    then some respond_assets
    else if v == 54
    then some try_again
    else if v == 56
    then some request_pruning_log
    else if v == 57
    then some respond_pruning_log
    else if v == 58
    then some request_log_state_digest
    else if v == 59
    then some respond_log_state_digest
    else if v == 64
    then some request_active_ipos
    else if v == 65
    then some respond_active_ipo
    else if v == 66
    then some request_oracle_data
    else if v == 67
    then some respond_oracle_data
    else if v == 68
    then some broadcast_custom_mining_task
    else if v == 69
    then some broadcast_custom_mining_solution
    else if v == 201
    then some request_tx_status
    else if v == 202
    then some respond_tx_status
    else if v == 255
    then some special_command
    else none

pub is_request : NetworkMessageType → Bool
is_request request_computors = true
is_request request_quorum_tick = true
is_request request_tick_data = true
is_request request_transaction_info = true
is_request request_current_tick_info = true
is_request request_tick_transactions = true
is_request request_entity = true
is_request request_contract_ipo = true
is_request request_issued_assets = true
is_request request_owned_assets = true
is_request request_possessed_assets = true
is_request request_contract_function = true
is_request request_log = true
is_request request_system_info = true
is_request request_log_id_range_from_tx = true
is_request request_all_log_id_ranges_from_tx = true
is_request request_assets = true
is_request request_pruning_log = true
is_request request_log_state_digest = true
is_request request_active_ipos = true
is_request request_oracle_data = true
is_request request_tx_status = true
is_request _ = false

pub is_response : NetworkMessageType → Bool
is_response respond_current_tick_info = true
is_response respond_entity = true
is_response respond_contract_ipo = true
is_response respond_issued_assets = true
is_response respond_owned_assets = true
is_response respond_possessed_assets = true
is_response respond_contract_function = true
is_response respond_log = true
is_response respond_system_info = true
is_response respond_log_id_range_from_tx = true
is_response respond_all_log_id_ranges_from_tx = true
is_response respond_assets = true
is_response respond_pruning_log = true
is_response respond_log_state_digest = true
is_response respond_active_ipo = true
is_response respond_oracle_data = true
is_response respond_tx_status = true
is_response end_response = true
is_response try_again = true
is_response _ = false

pub is_broadcast : NetworkMessageType → Bool
is_broadcast broadcast_message = true
is_broadcast broadcast_computors = true
is_broadcast broadcast_tick = true
is_broadcast broadcast_future_tick_data = true
is_broadcast broadcast_transaction = true
is_broadcast broadcast_custom_mining_task = true
is_broadcast broadcast_custom_mining_solution = true
is_broadcast _ = false
