-- ===== src/Ingestion/Decoders/Records.antt =====
-- The decoders of fixed records: entity, current tick info, system info, oracle data and metadata,
-- pruning log, log state digest.
pub mod Totality
pub mod Layouts
use qonduit.Common.{ℕ, ◌+◌, [], Bool, ltb, leb, length, if◌then◌else◌}
use qonduit.Bytes.{Bytes, Result, ok, err, read_le, read_u8, slice, signed, ℤ, ◌>>=◌}
use qonduit.Core.Hash.{External}
use qonduit.Core.Identity.{encode_base26}
use qonduit.Ingestion.Decoders.Guards.{at_least, hex_if}

pub record EntityData : Type 0 where
  pub identity : Bytes
  pub incoming : ℤ
  pub outgoing : ℤ
  pub number_of_incoming_transfers : ℕ
  pub number_of_outgoing_transfers : ℕ
  pub latest_incoming_transfer_tick : ℕ
  pub latest_outgoing_transfer_tick : ℕ

pub record CurrentTickInfo : Type 0 where
  pub epoch : ℕ
  pub tick : ℕ
  pub number_of_aligned_votes : ℕ
  pub number_of_misaligned_votes : ℕ
  pub initial_tick : ℕ
  pub latest_voting_tick : ℕ
  pub time_since_last_voting_tick : ℕ

pub record SystemInfoReply : Type 0 where
  pub version : ℤ
  pub epoch : ℕ
  pub tick : ℕ
  pub initial_tick : ℕ
  pub latest_created_tick : ℕ
  pub initial_millisecond : ℕ
  pub initial_second : ℕ
  pub initial_minute : ℕ
  pub initial_hour : ℕ
  pub initial_day : ℕ
  pub initial_month : ℕ
  pub initial_year : ℕ
  pub number_of_entities : ℕ
  pub number_of_transactions : ℕ
  pub random_mining_seed_hex : Bytes
  pub solution_threshold : ℤ
  pub total_spectrum_amount : ℕ
  pub current_entity_balance_dust_threshold : ℕ
  pub target_tick_vote_signature : ℕ
  pub computor_packet_signature : ℕ
  pub solution_additional_threshold : ℕ

pub record OracleDataResponse : Type 0 where
  pub res_type : ℕ
  pub payload_hex : Bytes

pub record OracleQueryMetadata : Type 0 where
  pub query_id : ℤ
  pub query_type : ℕ
  pub status : ℕ
  pub status_flags : ℕ
  pub query_tick : ℕ
  pub querying_entity_hex : Bytes
  pub timeout : ℕ
  pub interface_index : ℕ
  pub subscription_id : ℤ
  pub reveal_tick : ℕ
  pub total_commits : ℕ
  pub agreeing_commits : ℕ

-- An integer of n bytes at `a`, which only longer payloads have.
unfoldable pub read_from : ℕ → Bytes → ℕ → ℕ → Result ℕ
read_from size payload a n = if leb size (length payload) then read_le payload a n else ok 0

unfoldable pub decode_current_tick_info : Bytes → Result CurrentTickInfo
decode_current_tick_info payload = at_least 16 payload (do
  _tick_duration ← read_le payload 0 2
  epoch ← read_le payload 2 2
  tick ← read_le payload 4 4
  number_of_aligned_votes ← read_le payload 8 2
  number_of_misaligned_votes ← read_le payload 10 2
  initial_tick ← read_le payload 12 4
  latest_voting_tick ← read_from 20 payload 16 4
  time_since_last_voting_tick ← read_from 28 payload 20 8
  ok (record {
    epoch = epoch;
    tick = tick;
    number_of_aligned_votes = number_of_aligned_votes;
    number_of_misaligned_votes = number_of_misaligned_votes;
    initial_tick = initial_tick;
    latest_voting_tick = latest_voting_tick;
    time_since_last_voting_tick = time_since_last_voting_tick;
  }))

-- `success` is an i64; 0 means success.
unfoldable pub decode_pruning_log_response : Bytes → Result ℤ
decode_pruning_log_response payload =
    at_least 8 payload (do success ← read_le payload 0 8; ok (signed 64 success))

module _ (lib : External) where
  open lib use {k12, hex_encode}

  unfoldable pub decode_entity : Bytes → Result EntityData
  decode_entity payload = at_least 64 payload (do
    pub_key ← slice payload 0 32
    incoming ← read_le payload 32 8
    outgoing ← read_le payload 40 8
    number_of_incoming_transfers ← read_le payload 48 4
    number_of_outgoing_transfers ← read_le payload 52 4
    latest_incoming_transfer_tick ← read_le payload 56 4
    latest_outgoing_transfer_tick ← read_le payload 60 4
    ok (record {
      identity = encode_base26 k12 pub_key;
      incoming = signed 64 incoming;
      outgoing = signed 64 outgoing;
      number_of_incoming_transfers = number_of_incoming_transfers;
      number_of_outgoing_transfers = number_of_outgoing_transfers;
      latest_incoming_transfer_tick = latest_incoming_transfer_tick;
      latest_outgoing_transfer_tick = latest_outgoing_transfer_tick;
    }))

  unfoldable pub decode_system_info : Bytes → Result SystemInfoReply
  decode_system_info payload = at_least 128 payload (do
    version ← read_le payload 0 2
    epoch ← read_le payload 2 2
    tick ← read_le payload 4 4
    initial_tick ← read_le payload 8 4
    latest_created_tick ← read_le payload 12 4
    initial_millisecond ← read_le payload 16 2
    initial_second ← read_u8 payload 18
    initial_minute ← read_u8 payload 19
    initial_hour ← read_u8 payload 20
    initial_day ← read_u8 payload 21
    initial_month ← read_u8 payload 22
    initial_year ← read_u8 payload 23
    number_of_entities ← read_le payload 24 4
    number_of_transactions ← read_le payload 28 4
    random_mining_seed ← slice payload 32 64
    solution_threshold ← read_le payload 64 4
    total_spectrum_amount ← read_le payload 68 8
    current_entity_balance_dust_threshold ← read_le payload 76 8
    target_tick_vote_signature ← read_le payload 84 4
    computor_packet_signature ← read_le payload 88 8
    solution_additional_threshold ← read_le payload 96 8
    ok (record {
      version = signed 16 version;
      epoch = epoch;
      tick = tick;
      initial_tick = initial_tick;
      latest_created_tick = latest_created_tick;
      initial_millisecond = initial_millisecond;
      initial_second = initial_second;
      initial_minute = initial_minute;
      initial_hour = initial_hour;
      initial_day = initial_day;
      initial_month = initial_month;
      initial_year = initial_year;
      number_of_entities = number_of_entities;
      number_of_transactions = number_of_transactions;
      random_mining_seed_hex = hex_encode random_mining_seed;
      solution_threshold = signed 32 solution_threshold;
      total_spectrum_amount = total_spectrum_amount;
      current_entity_balance_dust_threshold = current_entity_balance_dust_threshold;
      target_tick_vote_signature = target_tick_vote_signature;
      computor_packet_signature = computor_packet_signature;
      solution_additional_threshold = solution_additional_threshold;
    }))

  unfoldable pub decode_oracle_data : Bytes → Result OracleDataResponse
  decode_oracle_data payload = at_least 4 payload (do
    res_type ← read_le payload 0 4
    payload_hex ← hex_if hex_encode (ltb 4 (length payload)) payload 4 (length payload)
    ok (record { res_type = res_type; payload_hex = payload_hex }))

  unfoldable pub decode_oracle_query_metadata : Bytes → Result OracleQueryMetadata
  decode_oracle_query_metadata payload = at_least 72 payload (do
    query_id ← read_le payload 0 8
    query_type ← read_u8 payload 8
    status ← read_u8 payload 9
    status_flags ← read_le payload 10 2
    query_tick ← read_le payload 12 4
    querying_entity ← slice payload 16 48
    timeout ← read_le payload 48 8
    interface_index ← read_le payload 56 4
    subscription_id ← read_le payload 60 4
    reveal_tick ← read_le payload 64 4
    total_commits ← read_le payload 68 2
    agreeing_commits ← read_le payload 70 2
    ok (record {
      query_id = signed 64 query_id;
      query_type = query_type;
      status = status;
      status_flags = status_flags;
      query_tick = query_tick;
      querying_entity_hex = hex_encode querying_entity;
      timeout = timeout;
      interface_index = interface_index;
      subscription_id = signed 32 subscription_id;
      reveal_tick = reveal_tick;
      total_commits = total_commits;
      agreeing_commits = agreeing_commits;
    }))

  -- The digest, as hexadecimal text.
  unfoldable pub decode_log_state_digest : Bytes → Result Bytes
  decode_log_state_digest payload =
      at_least 32 payload (do digest ← slice payload 0 32; ok (hex_encode digest))
