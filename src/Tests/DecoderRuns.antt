-- ===== src/Tests/DecoderRuns.antt =====
-- Runs of crates/ingestion/src/decoders.rs.
use qonduit.Common.{◌+◌, ◌*◌, ◌≡◌, ◌↔◌, ◌++◌, refl, [], ◌∷◌, length, map, take, arith}
use qonduit.Bytes.{Bytes, ok, panic, signed, to_le}
use qonduit.Bytes.Endian.{length-to_le}
use qonduit.Bytes.Layout.{packed}
use qonduit.Core.Hash.{External}
use qonduit.Core.Identity.{encode_base26}
use qonduit.Core.InputType.{classify, label}
use qonduit.Ingestion.Decoders.Guards.{Decoded}
use qonduit.Ingestion.Decoders.Transaction.{decode_transaction}
use qonduit.Ingestion.Decoders.Transaction.Layouts.{
  transaction_fields, input_text, decode_transaction-packed,
}
use qonduit.Ingestion.Decoders.Tick.{
  decode_tick, qubic_date_to_unix, add_years, add_months, index, is_leap_year,
}
use qonduit.Ingestion.Decoders.Tick.Calendar.{next_day, date_of, qubic_date_to_unix-date_of}
use qonduit.Ingestion.Decoders.Tick.Dates.{month_length, gregorian_leap}
use qonduit.Ingestion.Decoders.Tick.Totality.{HasBadMonth, decode_tick-panic_iff}
use qonduit.Ingestion.Decoders.LogEvents.{decode_log_events}
use qonduit.Ingestion.Decoders.LogEvents.Layouts.{decode_log_events-wire}
use qonduit.Ingestion.Decoders.LogEvents.Wire.{
  WireEvent, IsEvent, HasSize, size_of, wire, decoded_event,
}
use qonduit.Ingestion.Decoders.LogEvents.Totality.{decode_log_events-Decoded}

-- Hash functions and a text for the runs.
abbrev lib : External
lib = record {
  k12 = λ bytes n. take n bytes;
  sha256 = λ bytes. take 32 bytes;
  hex_encode = λ bytes. bytes;
}

abbrev key : Bytes
key =
    1 ∷ 2 ∷ 3 ∷ 4 ∷ 5 ∷ 6 ∷ 7 ∷ 8 ∷ 1 ∷ 2 ∷ 3 ∷ 4 ∷ 5 ∷ 6 ∷ 7 ∷ 8 ∷ 1 ∷ 2 ∷ 3 ∷ 4 ∷ 5 ∷ 6 ∷ 7 ∷ 8
    ∷ 1 ∷ 2 ∷ 3 ∷ 4 ∷ 5 ∷ 6 ∷ 7 ∷ 8 ∷ []

abbrev input : Bytes
input = 4 ∷ 5 ∷ []

decode_transaction-packed_example :
    decode_transaction lib
      (packed (transaction_fields key key 1000 5 1 input) ++ ((key ++ key) ++ []))
    ≡ ok (record {
      hash = lib.hex_encode (lib.sha256 (packed (transaction_fields key key 1000 5 1 input)));
      source_hex = lib.hex_encode key;
      source_identity = encode_base26 lib.k12 key;
      destination_hex = lib.hex_encode key;
      destination_identity = encode_base26 lib.k12 key;
      amount = signed 64 1000;
      tick = 5;
      input_type = 1;
      input_size = length input;
      input_hex = input_text lib.hex_encode input;
      input_type_name = label (classify 1);
      signature_hex = lib.hex_encode (key ++ key);
    })
decode_transaction-packed_example =
    decode_transaction-packed lib key key input (key ++ key) [] 1000 5 1 refl refl (omega arith)
      refl (omega arith) (omega arith) (omega arith)

decode_tick-panic_iff_example :
    (decode_tick lib (key ++ key) ≡ panic) ↔ HasBadMonth lib (key ++ key)
decode_tick-panic_iff_example = decode_tick-panic_iff lib (key ++ key)

qubic_date_to_unix-date_of_example :
    qubic_date_to_unix (date_of 789).0 (date_of 789).1 (date_of 789).2 1 2 3
    ≡ ok (789 * 86400 + (1 * 3600 + 2 * 60 + 3))
qubic_date_to_unix-date_of_example = qubic_date_to_unix-date_of 789 1 2 3

leap_day : date_of 789 ≡ (1972, 2, 29)
unfolding date_of next_day month_length gregorian_leap
leap_day = refl

date_run : qubic_date_to_unix 2024 3 1 0 0 0 ≡ ok 1709251200
unfolding qubic_date_to_unix add_years add_months index is_leap_year
date_run = refl

decode_log_events-Decoded_example : Decoded 8 key (decode_log_events key)
decode_log_events-Decoded_example = decode_log_events-Decoded key

-- An event of fixed size, a text, and an event of an unknown type.
abbrev burning : WireEvent
burning = record {
  tick = 9;
  tx_index = 1;
  epoch = 150;
  amount = 77;
  event_type = 8;
  size_byte = 0;
  reserved = to_le 6 0;
  contents = to_le 8 77;
}

abbrev message : WireEvent
message = record {
  tick = 9;
  tx_index = 2;
  epoch = 150;
  amount = 0;
  event_type = 6;
  size_byte = 0;
  reserved = to_le 6 0;
  contents = to_le 2 3 ++ (104 ∷ 101 ∷ 121 ∷ []);
}

abbrev unknown : WireEvent
unknown = record {
  tick = 9;
  tx_index = 3;
  epoch = 150;
  amount = 0;
  event_type = 99;
  size_byte = 2;
  reserved = to_le 6 0;
  contents = 1 ∷ 2 ∷ [];
}

burning-IsEvent : IsEvent burning
unfolding HasSize size_of to_le
burning-IsEvent = record {
  tick_lt = omega arith;
  tx_index_lt = omega arith;
  epoch_lt = omega arith;
  amount_lt = omega arith;
  type_lt = omega arith;
  size_byte_lt = omega arith;
  reserved_length = refl;
  has_size = refl;
}

message-IsEvent : IsEvent message
unfolding HasSize size_of to_le
message-IsEvent = record {
  tick_lt = omega arith;
  tx_index_lt = omega arith;
  epoch_lt = omega arith;
  amount_lt = omega arith;
  type_lt = omega arith;
  size_byte_lt = omega arith;
  reserved_length = refl;
  has_size = (3, 104 ∷ 101 ∷ 121 ∷ [], omega arith, refl, refl);
}

unknown-IsEvent : IsEvent unknown
unfolding HasSize size_of to_le
unknown-IsEvent = record {
  tick_lt = omega arith;
  tx_index_lt = omega arith;
  epoch_lt = omega arith;
  amount_lt = omega arith;
  type_lt = omega arith;
  size_byte_lt = omega arith;
  reserved_length = refl;
  has_size = (refl, omega arith);
}

decode_log_events-wire_example :
    decode_log_events (to_le 8 9 ++ (wire (burning ∷ message ∷ unknown ∷ []) ++ (5 ∷ [])))
    ≡ ok (map decoded_event (burning ∷ message ∷ unknown ∷ []))
decode_log_events-wire_example =
    decode_log_events-wire (to_le 8 9) (5 ∷ []) (burning ∷ message ∷ unknown ∷ [])
      (length-to_le 8 9) (omega arith) (burning-IsEvent, (message-IsEvent, (unknown-IsEvent, tt)))
