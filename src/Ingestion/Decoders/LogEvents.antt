-- ===== src/Ingestion/Decoders/LogEvents.antt =====
-- The decoder of broadcast messages: packed log events of a 26-byte header and variable data.
pub mod Totality
pub mod Wire
pub mod Layouts
use qonduit.Common.{
  ℕ, zero, suc, ◌+◌, List, [], ◌∷◌, ◌&&◌, ◌||◌, ◌==◌, Option, none, some, ltb, leb, length,
  if◌then◌else◌,
}
use qonduit.Bytes.{Bytes, Result, ok, err, out_of_fuel, read_le, read_u8, slice, signed, ℤ, ◌>>=◌}
use qonduit.Ingestion.Decoders.Guards.{at_least}

pub record LogEvent : Type 0 where
  pub tick : ℕ
  pub tx_index : ℕ
  pub epoch : ℕ
  pub amount : ℤ
  pub event_type : ℕ
  pub event_data : Bytes

abbrev pub log_header_size : ℕ
log_header_size = 26

-- The size of a string or message from its two length bytes; `none` is a `break`.
unfoldable pub prefixed_size : Bytes → ℕ → Result (Option ℕ)
prefixed_size payload data_start =
    if leb (data_start + 2) (length payload)
    then (do n ← read_le payload data_start 2; ok (some (n + 2)))
    else ok none

-- An unknown type: the size byte behind the event type, if it is not zero.
unfoldable pub unknown_size : Bytes → ℕ → Result (Option ℕ)
unknown_size payload offset =
    if ltb (offset + 19) (length payload)
    then (do
      size_byte ← read_u8 payload (offset + 19)
      ok (if ltb 0 size_byte then some size_byte else none))
    else ok none

-- The size of the data of an event at `offset`.
unfoldable pub data_size : Bytes → ℕ → ℕ → Result (Option ℕ)
data_size payload offset event_type =
    let data_start = offset + log_header_size in
    if event_type == 0
    then ok (some 64)
    else if event_type == 1
    then ok (some 816)
    else if event_type == 2
    then ok (some 64)
    else if event_type == 3
    then ok (some 64)
    else if leb 4 event_type && leb event_type 7
    then prefixed_size payload data_start
    else if event_type == 8
    then ok (some 8)
    else if event_type == 9
    then ok (some 8)
    else if event_type == 10
    then ok (some 224)
    else if event_type == 11
    then ok (some 64)
    else if event_type == 12
    then ok (some 64)
    else if event_type == 13
    then ok (some 8)
    else if event_type == 14
    then ok (some 8)
    else if event_type == 15
    then prefixed_size payload data_start
    else if event_type == 255
    then prefixed_size payload data_start
    else unknown_size payload offset

-- The event header at `offset`, without its data.
unfoldable pub event_header : Bytes → ℕ → Result LogEvent
event_header payload offset = do
  event_tick ← read_le payload offset 4
  tx_index ← read_le payload (offset + 4) 4
  event_epoch ← read_le payload (offset + 8) 2
  amount ← read_le payload (offset + 10) 8
  event_type ← read_u8 payload (offset + 18)
  ok (record {
    tick = event_tick;
    tx_index = tx_index;
    epoch = event_epoch;
    amount = signed 64 amount;
    event_type = event_type;
    event_data = [];
  })

-- One round of the loop: the event at `offset` and the offset behind it, or the end of the loop.
unfoldable pub next_event : Bytes → ℕ → Result (Option (LogEvent × ℕ))
next_event payload offset =
    if leb (offset + log_header_size) (length payload)
    then (do
      event ← event_header payload offset
      size ← data_size payload offset event.event_type
      elim size [
        | none ↦ ok none
        | some n ↦
            let data_start = offset + log_header_size in
            let data_end = data_start + n in
            if ltb (length payload) data_end then ok none else (do
              bytes ← slice payload data_start data_end
              ok (some (record event { event_data = bytes }, data_end)))
      ])
    else ok none

-- The loop from `offset` on. The fuel counts rounds; running out of it is no outcome of the code.
unfoldable pub parse_events : ℕ → Bytes → ℕ → Result (List LogEvent)
parse_events zero payload offset = err out_of_fuel
parse_events (suc fuel) payload offset = do
  next ← next_event payload offset
  elim next [
    | none ↦ ok []
    | some (event, data_end) ↦ do rest ← parse_events fuel payload data_end; ok (event ∷ rest)
  ]

-- Each round takes 26 bytes at least, so the length of the payload is enough fuel.
unfoldable pub decode_log_events : Bytes → Result (List LogEvent)
decode_log_events payload =
    at_least 8 payload (do _tick ← read_le payload 0 4; parse_events (length payload) payload 8)
