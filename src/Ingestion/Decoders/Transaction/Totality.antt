-- ===== src/Ingestion/Decoders/Transaction/Totality.antt =====
-- The transaction decoder never panics.
use qonduit.Common.{◌+◌, ◌&&◌, ltb, leb, length, arith}
use qonduit.Bytes.{Bytes}
use qonduit.Core.Hash.{External}
use qonduit.Ingestion.Decoders.Guards.{
  is_ok, Decoded, Decoded-intro, then_read, then_slice, then-IsOk, hex_if-IsOk,
}
use qonduit.Ingestion.Decoders.Transaction.{decode_transaction}

pub decode_transaction-Decoded :
    (lib : External) (p : Bytes) → Decoded 80 p (decode_transaction lib p)
unfolding decode_transaction
decode_transaction-Decoded lib p = Decoded-intro 80 p _ λ h.
    then_slice p 0 32 _ (omega arith) (omega arith) λ _.
      then_slice p 32 64 _ (omega arith) (omega arith) λ _. then_read p 64 8 _ (omega arith) λ _.
        then_read p 72 4 _ (omega arith) λ _. then_read p 76 2 _ (omega arith) λ _.
          then_read p 78 2 _ (omega arith) λ n.
            then-IsOk _ _
              (hex_if-IsOk lib.hex_encode (ltb 0 n && leb (80 + n) (length p)) p 80 (80 + n)
                (λ e. (omega arith, ground arith)))
              λ _.
                then-IsOk _ _
                  (hex_if-IsOk lib.hex_encode (leb (80 + n + 64) (length p)) p (80 + n)
                    (80 + n + 64) (λ e. (omega arith, ground arith)))
                  λ _. is_ok _
