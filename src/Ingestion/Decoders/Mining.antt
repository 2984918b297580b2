-- ===== src/Ingestion/Decoders/Mining.antt =====
-- The decoders of custom mining tasks and solutions: a header, a payload of any length and a
-- signature in the last 64 bytes.
use qonduit.Common.{ℕ, ◌-◌, length, arith}
use qonduit.Bytes.{Bytes, Result, ok, read_le, read_u8, slice, ◌>>=◌}
use qonduit.Core.Hash.{External}
use qonduit.Ingestion.Decoders.Guards.{
  at_least, is_ok, Decoded, Decoded-intro, then_read, then_slice,
}

pub record CustomMiningTask : Type 0 where
  pub source_public_key_hex : Bytes
  pub code_file_trailer_digest_hex : Bytes
  pub data_file_trailer_digest_hex : Bytes
  pub job_id : ℕ
  pub custom_mining_type : ℕ
  pub payload_hex : Bytes
  pub signature_hex : Bytes

pub record CustomMiningSolution : Type 0 where
  pub source_public_key_hex : Bytes
  pub miner_public_key_hex : Bytes
  pub job_id : ℕ
  pub custom_mining_type : ℕ
  pub payload_hex : Bytes
  pub signature_hex : Bytes

module _ (lib : External) where
  open lib use {hex_encode}

  unfoldable pub decode_custom_mining_task : Bytes → Result CustomMiningTask
  decode_custom_mining_task payload = at_least 233 payload (do
    source_public_key ← slice payload 0 32
    code_file_trailer_digest ← slice payload 96 128
    data_file_trailer_digest ← slice payload 128 160
    job_id ← read_le payload 160 8
    custom_mining_type ← read_u8 payload 168
    let sig_start = length payload - 64
    task ← slice payload 169 sig_start
    signature ← slice payload sig_start (length payload)
    ok (record {
      source_public_key_hex = hex_encode source_public_key;
      code_file_trailer_digest_hex = hex_encode code_file_trailer_digest;
      data_file_trailer_digest_hex = hex_encode data_file_trailer_digest;
      job_id = job_id;
      custom_mining_type = custom_mining_type;
      payload_hex = hex_encode task;
      signature_hex = hex_encode signature;
    }))

  unfoldable pub decode_custom_mining_solution : Bytes → Result CustomMiningSolution
  decode_custom_mining_solution payload = at_least 201 payload (do
    source_public_key ← slice payload 0 32
    miner_public_key ← slice payload 96 128
    job_id ← read_le payload 128 8
    custom_mining_type ← read_u8 payload 136
    let sig_start = length payload - 64
    solution ← slice payload 137 sig_start
    signature ← slice payload sig_start (length payload)
    ok (record {
      source_public_key_hex = hex_encode source_public_key;
      miner_public_key_hex = hex_encode miner_public_key;
      job_id = job_id;
      custom_mining_type = custom_mining_type;
      payload_hex = hex_encode solution;
      signature_hex = hex_encode signature;
    }))

  pub decode_custom_mining_task-Decoded : (p : Bytes) → Decoded 233 p (decode_custom_mining_task p)
  unfolding decode_custom_mining_task
  decode_custom_mining_task-Decoded p = Decoded-intro 233 p _ λ h.
      then_slice p 0 32 _ (omega arith) (omega arith) λ _.
        then_slice p 96 128 _ (omega arith) (omega arith) λ _.
          then_slice p 128 160 _ (omega arith) (omega arith) λ _.
            then_read p 160 8 _ (omega arith) λ _. then_read p 168 1 _ (omega arith) λ _.
              then_slice p 169 (length p - 64) _ (omega arith) (omega arith) λ _.
                then_slice p (length p - 64) (length p) _ (omega arith) (omega arith) λ _. is_ok _

  pub decode_custom_mining_solution-Decoded :
      (p : Bytes) → Decoded 201 p (decode_custom_mining_solution p)
  unfolding decode_custom_mining_solution
  decode_custom_mining_solution-Decoded p = Decoded-intro 201 p _ λ h.
      then_slice p 0 32 _ (omega arith) (omega arith) λ _.
        then_slice p 96 128 _ (omega arith) (omega arith) λ _.
          then_read p 128 8 _ (omega arith) λ _. then_read p 136 1 _ (omega arith) λ _.
            then_slice p 137 (length p - 64) _ (omega arith) (omega arith) λ _.
              then_slice p (length p - 64) (length p) _ (omega arith) (omega arith) λ _. is_ok _
