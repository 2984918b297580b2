-- ===== src/Ingestion/Decoders/Records/Totality.antt =====
-- No fixed-record decoder panics: below its size it answers with the length error, from there on
-- with a value.
use qonduit.Common.{ℕ, ◌+◌, ◌≤◌, leb, length, arith, Bool-cases, inl, inr}
use qonduit.Bytes.{Bytes, read_le}
use qonduit.Bytes.Slices.{word, read_le-word}
use qonduit.Core.Hash.{External}
use qonduit.Ingestion.Decoders.Guards.{
  IsOk, is_ok, Decoded, Decoded-intro, then_read, then_slice, then-IsOk, hex_if-IsOk,
}
use qonduit.Ingestion.Decoders.Records.{
  read_from, decode_current_tick_info, decode_pruning_log_response, decode_entity,
  decode_system_info, decode_oracle_data, decode_oracle_query_metadata, decode_log_state_digest,
}

read_from-IsOk : (size : ℕ) (p : Bytes) (a n : ℕ) → a + n ≤ size → IsOk (read_from size p a n)
unfolding read_from
read_from-IsOk size p a n h = elim (Bool-cases (leb size (length p))) [
  | inl long ↦ rw long (then_ok_read (ground arith))
  | inr short ↦ rw short (is_ok 0)
]
  where
    then_ok_read : a + n ≤ length p → IsOk (read_le p a n)
    then_ok_read k = rw (read_le-word p a n k) (is_ok (word p a n))

pub decode_current_tick_info-Decoded : (p : Bytes) → Decoded 16 p (decode_current_tick_info p)
unfolding decode_current_tick_info
decode_current_tick_info-Decoded p = Decoded-intro 16 p _ λ h. then_read p 0 2 _ (omega arith) λ _.
    then_read p 2 2 _ (omega arith) λ _. then_read p 4 4 _ (omega arith) λ _.
      then_read p 8 2 _ (omega arith) λ _. then_read p 10 2 _ (omega arith) λ _.
        then_read p 12 4 _ (omega arith) λ _.
          then-IsOk _ _ (read_from-IsOk 20 p 16 4 (omega arith))
            λ _. then-IsOk _ _ (read_from-IsOk 28 p 20 8 (omega arith)) λ _. is_ok _

pub decode_pruning_log_response-Decoded : (p : Bytes) → Decoded 8 p (decode_pruning_log_response p)
unfolding decode_pruning_log_response
decode_pruning_log_response-Decoded p =
    Decoded-intro 8 p _ λ h. then_read p 0 8 _ (omega arith) λ _. is_ok _

module _ (lib : External) where
  pub decode_entity-Decoded : (p : Bytes) → Decoded 64 p (decode_entity lib p)
  unfolding decode_entity
  decode_entity-Decoded p = Decoded-intro 64 p _ λ h.
      then_slice p 0 32 _ (omega arith) (omega arith) λ _. then_read p 32 8 _ (omega arith) λ _.
        then_read p 40 8 _ (omega arith) λ _. then_read p 48 4 _ (omega arith) λ _.
          then_read p 52 4 _ (omega arith)
            λ _. then_read p 56 4 _ (omega arith) λ _. then_read p 60 4 _ (omega arith) λ _. is_ok _

  pub decode_system_info-Decoded : (p : Bytes) → Decoded 128 p (decode_system_info lib p)
  unfolding decode_system_info
  decode_system_info-Decoded p = Decoded-intro 128 p _ λ h. then_read p 0 2 _ (omega arith) λ _.
      then_read p 2 2 _ (omega arith) λ _. then_read p 4 4 _ (omega arith) λ _.
        then_read p 8 4 _ (omega arith) λ _. then_read p 12 4 _ (omega arith) λ _.
          then_read p 16 2 _ (omega arith) λ _. then_read p 18 1 _ (omega arith) λ _.
            then_read p 19 1 _ (omega arith) λ _. then_read p 20 1 _ (omega arith) λ _.
              then_read p 21 1 _ (omega arith) λ _. then_read p 22 1 _ (omega arith) λ _.
                then_read p 23 1 _ (omega arith) λ _. then_read p 24 4 _ (omega arith) λ _.
                  then_read p 28 4 _ (omega arith) λ _.
                    then_slice p 32 64 _ (omega arith) (omega arith) λ _.
                      then_read p 64 4 _ (omega arith) λ _. then_read p 68 8 _ (omega arith) λ _.
                        then_read p 76 8 _ (omega arith) λ _. then_read p 84 4 _ (omega arith) λ _.
                          then_read p 88 8 _ (omega arith)
                            λ _. then_read p 96 8 _ (omega arith) λ _. is_ok _

  pub decode_oracle_data-Decoded : (p : Bytes) → Decoded 4 p (decode_oracle_data lib p)
  unfolding decode_oracle_data
  decode_oracle_data-Decoded p = Decoded-intro 4 p _ λ h. then_read p 0 4 _ (omega arith) λ _.
      then-IsOk _ _ (hex_if-IsOk lib.hex_encode _ p 4 (length p) (λ _. (h, omega arith)))
        λ _. is_ok _

  pub decode_oracle_query_metadata-Decoded :
      (p : Bytes) → Decoded 72 p (decode_oracle_query_metadata lib p)
  unfolding decode_oracle_query_metadata
  decode_oracle_query_metadata-Decoded p = Decoded-intro 72 p _ λ h.
      then_read p 0 8 _ (omega arith) λ _. then_read p 8 1 _ (omega arith) λ _.
        then_read p 9 1 _ (omega arith) λ _. then_read p 10 2 _ (omega arith) λ _.
          then_read p 12 4 _ (omega arith) λ _.
            then_slice p 16 48 _ (omega arith) (omega arith) λ _.
              then_read p 48 8 _ (omega arith) λ _. then_read p 56 4 _ (omega arith) λ _.
                then_read p 60 4 _ (omega arith) λ _. then_read p 64 4 _ (omega arith) λ _.
                  then_read p 68 2 _ (omega arith)
                    λ _. then_read p 70 2 _ (omega arith) λ _. is_ok _

  pub decode_log_state_digest-Decoded : (p : Bytes) → Decoded 32 p (decode_log_state_digest lib p)
  unfolding decode_log_state_digest
  decode_log_state_digest-Decoded p =
      Decoded-intro 32 p _ λ h. then_slice p 0 32 _ (omega arith) (omega arith) λ _. is_ok _
