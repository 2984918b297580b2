-- ===== src/Ingestion/Decoders/Transaction.antt =====
-- The decoder of transactions: an 80-byte header, the input and the signature.
pub mod Totality
pub mod Layouts
use Prim.Native.String.{String}
use qonduit.Common.{ℕ, ◌+◌, [], ◌&&◌, ltb, leb, length, if◌then◌else◌}
use qonduit.Bytes.{Bytes, Result, ok, read_le, slice, signed, ℤ, ◌>>=◌}
use qonduit.Core.Hash.{External, compute_tx_hash, hash_to_hex}
use qonduit.Core.Identity.{encode_base26}
use qonduit.Core.InputType.{classify, label}
use qonduit.Ingestion.Decoders.Guards.{at_least, hex_if}

abbrev pub tx_header_size : ℕ
tx_header_size = 80

abbrev pub signature_size : ℕ
signature_size = 64

pub record Transaction : Type 0 where
  pub hash : Bytes
  pub source_hex : Bytes
  pub source_identity : Bytes
  pub destination_hex : Bytes
  pub destination_identity : Bytes
  pub amount : ℤ
  pub tick : ℕ
  pub input_type : ℕ
  pub input_size : ℕ
  pub input_hex : Bytes
  pub input_type_name : String
  pub signature_hex : Bytes

module _ (lib : External) where
  open lib use {k12, hex_encode}

  unfoldable pub decode_transaction : Bytes → Result Transaction
  decode_transaction payload = at_least tx_header_size payload (do
    source ← slice payload 0 32
    destination ← slice payload 32 64
    amount ← read_le payload 64 8
    tick ← read_le payload 72 4
    input_type ← read_le payload 76 2
    input_size ← read_le payload 78 2
    let input_end = tx_header_size + input_size
    input_hex ←
        hex_if hex_encode (ltb 0 input_size && leb input_end (length payload)) payload
          tx_header_size input_end
    let sig_start = input_end
    let sig_end = sig_start + signature_size
    signature_hex ← hex_if hex_encode (leb sig_end (length payload)) payload sig_start sig_end
    let hash =
        if leb input_end (length payload)
        then hash_to_hex lib (compute_tx_hash lib payload input_size)
        else []
    ok (record {
      hash = hash;
      source_hex = hex_encode source;
      source_identity = encode_base26 k12 source;
      destination_hex = hex_encode destination;
      destination_identity = encode_base26 k12 destination;
      amount = signed 64 amount;
      tick = tick;
      input_type = input_type;
      input_size = input_size;
      input_hex = input_hex;
      input_type_name = label (classify input_type);
      signature_hex = signature_hex;
    }))
