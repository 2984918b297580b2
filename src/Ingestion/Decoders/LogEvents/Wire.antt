-- ===== src/Ingestion/Decoders/LogEvents/Wire.antt =====
-- The layout of log events on the wire.
use qonduit.Common.{
  ℕ, ◌<◌, ◌^◌, ◌≡◌, List, [], ◌∷◌, ◌++◌, ◌&&◌, ◌||◌, ◌==◌, leb, length, if◌then◌else◌,
}
use qonduit.Bytes.{Bytes, signed, to_le}
use qonduit.Bytes.Layout.{packed}
use qonduit.Ingestion.Decoders.LogEvents.{LogEvent}

-- An event as a node sends it; `size_byte` is the first of the seven reserved bytes.
pub record WireEvent : Type 0 where
  pub tick : ℕ
  pub tx_index : ℕ
  pub epoch : ℕ
  pub amount : ℕ
  pub event_type : ℕ
  pub size_byte : ℕ
  pub reserved : Bytes
  pub contents : Bytes

-- How the length of the contents is known.
pub data Size : Type 0 where
  fixed : ℕ → Size
  length_prefix : Size
  in_size_byte : Size

-- The events of fixed size, those that start with a length of two bytes, and the others.
unfoldable pub size_of : ℕ → Size
size_of t =
    if t == 0 || t == 2 || t == 3 || t == 11 || t == 12
    then fixed 64
    else if t == 1
    then fixed 816
    else if t == 10
    then fixed 224
    else if t == 8 || t == 9 || t == 13 || t == 14
    then fixed 8
    else if (leb 4 t && leb t 7) || t == 15 || t == 255
    then length_prefix
    else in_size_byte

unfoldable pub HasSize : Size → WireEvent → Type 0
HasSize (fixed n) e = length e.contents ≡ n
HasSize length_prefix e =
    (n : ℕ) × (text : Bytes) × (n < 2 ^ 16) × (length text ≡ n) × (e.contents ≡ to_le 2 n ++ text)
HasSize in_size_byte e = (length e.contents ≡ e.size_byte) × (0 < e.size_byte)

-- The fields fit their widths, and the contents have the size of their type.
pub record IsEvent (e : WireEvent) : Type 0 where
  pub tick_lt : e.tick < 2 ^ 32
  pub tx_index_lt : e.tx_index < 2 ^ 32
  pub epoch_lt : e.epoch < 2 ^ 16
  pub amount_lt : e.amount < 2 ^ 64
  pub type_lt : e.event_type < 2 ^ 8
  pub size_byte_lt : e.size_byte < 2 ^ 8
  pub reserved_length : length e.reserved ≡ 6
  pub has_size : HasSize (size_of e.event_type) e

-- The fields of an event, behind the bytes `before`.
abbrev pub event_fields : Bytes → WireEvent → List Bytes
event_fields before e =
    before
    ∷ to_le 4 e.tick
    ∷ to_le 4 e.tx_index
    ∷ to_le 2 e.epoch
    ∷ to_le 8 e.amount
    ∷ to_le 1 e.event_type
    ∷ to_le 1 e.size_byte
    ∷ e.reserved
    ∷ e.contents
    ∷ []

unfoldable pub event_bytes : WireEvent → Bytes
event_bytes e = packed (event_fields [] e)

unfoldable pub decoded_event : WireEvent → LogEvent
decoded_event e = record {
  tick = e.tick;
  tx_index = e.tx_index;
  epoch = e.epoch;
  amount = signed 64 e.amount;
  event_type = e.event_type;
  event_data = e.contents;
}

-- Events one behind the other.
unfoldable pub wire : List WireEvent → Bytes
wire [] = []
wire (e ∷ es) = event_bytes e ++ wire es
