-- ===== src/Ingestion/Decoders/Records/Layouts.antt =====
-- The fixed records, written field by field as their structures lay them out, read back.
use qonduit.Common.{ℕ, ◌≤◌, ◌<◌, ◌^◌, ◌≡◌, refl, List, [], ◌∷◌, ◌++◌, length, length-append, arith}
use qonduit.Bytes.{Bytes, ok, signed, to_le}
use qonduit.Bytes.Layout.{packed, slice-packed, read-packed, length-packed, sizes}
use qonduit.Core.Hash.{External}
use qonduit.Core.Identity.{encode_base26}
use qonduit.Ingestion.Decoders.Guards.{at_least_enough}
use qonduit.Ingestion.Decoders.Records.{decode_entity}

-- An entity record on the wire.
pub entity_fields : Bytes → ℕ → ℕ → ℕ → ℕ → ℕ → ℕ → List Bytes
entity_fields key incoming outgoing n_in n_out last_in last_out =
    key
    ∷ to_le 8 incoming
    ∷ to_le 8 outgoing
    ∷ to_le 4 n_in
    ∷ to_le 4 n_out
    ∷ to_le 4 last_in
    ∷ to_le 4 last_out
    ∷ []

-- An entity record that is laid out as the node's structure decodes to the identity of its key and
-- to its fields, whatever follows it in the payload.
pub decode_entity-packed :
    (lib : External) (key rest : Bytes) (incoming outgoing n_in n_out last_in last_out : ℕ)
    → length key ≡ 32
    → incoming < 2 ^ 64
    → outgoing < 2 ^ 64
    → n_in < 2 ^ 32
    → n_out < 2 ^ 32
    → last_in < 2 ^ 32
    → last_out < 2 ^ 32
    → decode_entity lib
        (packed (entity_fields key incoming outgoing n_in n_out last_in last_out) ++ rest)
      ≡ ok (record {
        identity = encode_base26 lib.k12 key;
        incoming = signed 64 incoming;
        outgoing = signed 64 outgoing;
        number_of_incoming_transfers = n_in;
        number_of_outgoing_transfers = n_out;
        latest_incoming_transfer_tick = last_in;
        latest_outgoing_transfer_tick = last_out;
      })
unfolding decode_entity entity_fields
decode_entity-packed lib key rest i o ni nu li lo hk hi ho hni hno hli hlo = rw (
  at_least_enough 64 (packed fs ++ rest) _ long,
  slice-packed fs rest key 0 0 32 refl refl (omega arith),
  read-packed fs rest 8 i 1 32 refl (omega arith) hi,
  read-packed fs rest 8 o 2 40 refl (omega sizes) ho,
  read-packed fs rest 4 ni 3 48 refl (omega sizes) hni,
  read-packed fs rest 4 nu 4 52 refl (omega sizes) hno,
  read-packed fs rest 4 li 5 56 refl (omega sizes) hli,
  read-packed fs rest 4 lo 6 60 refl (omega sizes) hlo,
)
  where
    fs : List Bytes
    fs = entity_fields key i o ni nu li lo

    long : 64 ≤ length (packed fs ++ rest)
    long = omega (sizes, length-append (packed fs) rest, length-packed fs)
