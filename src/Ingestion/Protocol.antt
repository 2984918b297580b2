-- ===== src/Ingestion/Protocol.antt =====
-- crates/ingestion/src/protocol.rs: packets on the TCP stream, and the request loops. The stream is
-- the list of bytes still to be read. A request loop reads the outcomes of its rounds of
-- `timeout(remaining, read_packet(stream))` from a list; an exhausted deadline counts as `elapsed`.
-- Random correlation ids are arguments.
pub mod Framing
pub mod Replies
pub mod Requests
use qonduit.Common.{
  ℕ, ◌+◌, ◌%◌, ◌^◌, max, List, [], ◌∷◌, ◌++◌, Bool, ◌&&◌, ◌||◌, ◌==◌, leb, ltb, length, take, drop,
  if◌then◌else◌,
}
use qonduit.Bytes.{Bytes, Result, ok, err, unexpected_eof, to_le, ◌>>=◌}
use qonduit.Bytes.Slices.{cut}
use qonduit.Bytes.Layout.{packed}
use qonduit.Core.Header.{msg_type, dejavu, payload_size, new_request, to_bytes, of_bytes}

pub record Packet : Type 0 where
  pub msg_type : ℕ
  pub dejavu : ℕ
  pub payload : Bytes

-- The bytes that `send_raw` writes.
unfoldable pub send_raw : ℕ → Bytes → ℕ → Bytes
send_raw msg_type payload dejavu =
    to_bytes (new_request msg_type (length payload % 2 ^ 32) dejavu) ++ payload

-- `stream.read_exact` of `n` bytes, and what is left of the stream.
unfoldable pub read_exact : ℕ → Bytes → Result (Bytes × Bytes)
read_exact n stream =
    if leb n (length stream) then ok (take n stream, drop n stream) else err unexpected_eof

unfoldable pub read_packet : Bytes → Result (Packet × Bytes)
read_packet stream = do
  (header_buf, stream') ← read_exact 8 stream
  header ← of_bytes header_buf
  (payload, stream'') ←
      if ltb 0 (payload_size header)
      then read_exact (payload_size header) stream'
      else ok ([], stream')
  ok (record { msg_type = msg_type header; dejavu = dejavu header; payload = payload }, stream'')

-- The outcome of one round of a request loop.
pub data Poll : Type 0 where
  received : Packet → Poll
  read_error : Poll
  elapsed : Poll

-- What a request returns. `node_error` carries the type of the packet that ended the loop;
-- `waiting` stands for a loop whose rounds are not over.
pub data Reply (A : Type 0) : Type 0 where
  got : A → Reply A
  node_error : ℕ → Reply A
  read_failed : Reply A
  timed_out : Reply A
  waiting : Reply A

-- The loop of the requests with one answer, which waits for a packet of type `want`.
unfoldable pub await_packet : ℕ → List Poll → Reply Bytes
await_packet want [] = waiting
await_packet want (read_error ∷ polls) = read_failed
await_packet want (elapsed ∷ polls) = timed_out
await_packet want (received p ∷ polls) =
    let rest = await_packet want polls in
    if p.msg_type == want
    then got p.payload
    else if p.msg_type == 35 || p.msg_type == 54
    then node_error p.msg_type
    else rest

-- The loop of `request_tick_transactions`.
unfoldable pub collect_transactions : List Bytes → List Poll → Reply (List Bytes)
collect_transactions transactions [] = waiting
collect_transactions transactions (read_error ∷ polls) = read_failed
collect_transactions transactions (elapsed ∷ polls) = timed_out
collect_transactions transactions (received p ∷ polls) =
    let transactions' =
      if p.msg_type == 24 then transactions ++ (p.payload ∷ []) else transactions in
    let rest = collect_transactions transactions' polls in
    if p.msg_type == 35 then got transactions' else if p.msg_type == 54 then node_error 54 else rest

-- A request: the bytes sent, and the reply.
abbrev pub Request : Type 0 → Type 0
Request A = Bytes × Reply A

unfoldable pub request_current_tick_info : ℕ → List Poll → Request Bytes
request_current_tick_info random polls = (send_raw 27 [] (max random 1), await_packet 28 polls)

unfoldable pub request_computors : ℕ → List Poll → Request Bytes
request_computors random polls = (send_raw 11 [] (max random 1), await_packet 2 polls)

unfoldable pub request_entity : Bytes → ℕ → List Poll → Request Bytes
request_entity identity random polls = (send_raw 31 identity (max random 1), await_packet 32 polls)

unfoldable pub send_entity_request : Bytes → ℕ → Bytes
send_entity_request identity random = send_raw 31 identity (max random 1)

-- The bytes sent, and the correlation id that is returned.
unfoldable pub send_tick_data_request : ℕ → ℕ → Bytes × ℕ
send_tick_data_request tick random =
    let dejavu = max random 1 in (send_raw 16 (to_le 4 tick) dejavu, dejavu)

unfoldable pub request_tick_data : ℕ → ℕ → List Poll → Request Bytes
request_tick_data tick random polls =
    (send_raw 16 (to_le 4 tick) (max random 1), await_packet 8 polls)

unfoldable pub request_tick_transactions : ℕ → ℕ → List Poll → Request (List Bytes)
request_tick_transactions tick random polls =
    (send_raw 29 (to_le 4 tick) (max random 1), collect_transactions [] polls)

unfoldable pub request_log : ℕ → ℕ → List Poll → Request Bytes
request_log tick random polls = (send_raw 44 (to_le 4 tick) (max random 1), await_packet 45 polls)

abbrev pub no_peers : List Bytes
no_peers = let zero_ip : Bytes = 0 ∷ 0 ∷ 0 ∷ 0 ∷ [] in zero_ip ∷ zero_ip ∷ zero_ip ∷ zero_ip ∷ []

-- The loop of `exchange_public_peers`: errors and timeouts end in four zero addresses.
unfoldable pub await_peers : List Poll → Reply (List Bytes)
await_peers [] = waiting
await_peers (read_error ∷ polls) = got no_peers
await_peers (elapsed ∷ polls) = got no_peers
await_peers (received p ∷ polls) =
    let rest = await_peers polls in
    if p.msg_type == 0 && leb 16 (length p.payload)
    then got (cut p.payload 0 4 ∷ cut p.payload 4 8 ∷ cut p.payload 8 12 ∷ cut p.payload 12 16 ∷ [])
    else rest

-- `local_peers` are four addresses of four bytes.
unfoldable pub exchange_public_peers : List Bytes → ℕ → List Poll → Request (List Bytes)
exchange_public_peers local_peers random polls =
    (send_raw 0 (packed local_peers) random, await_peers polls)
