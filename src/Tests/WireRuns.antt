-- ===== src/Tests/WireRuns.antt =====
-- Runs of crates/ingestion/src/protocol.rs.
use qonduit.Common.{◌≡◌, ◌↔◌, ◌++◌, refl, [], ◌∷◌, arith}
use qonduit.Bytes.{ok, to_le}
use qonduit.Ingestion.Protocol.{
  Packet, no_peers, received, elapsed, got, send_raw, read_packet, await_packet,
  exchange_public_peers, await_peers,
}
use qonduit.Ingestion.Protocol.Framing.{read_packet-send_raw}
use qonduit.Ingestion.Protocol.Replies.{
  FirstReply, transaction_payloads, await_packet-iff-FirstReply,
}

read_packet-send_raw_example :
    read_packet (send_raw 31 (5 ∷ 6 ∷ 7 ∷ []) 99 ++ (1 ∷ []))
    ≡ ok (record { msg_type = 31; dejavu = 99; payload = 5 ∷ 6 ∷ 7 ∷ [] }, 1 ∷ [])
read_packet-send_raw_example =
    read_packet-send_raw 31 99 (5 ∷ 6 ∷ 7 ∷ []) (1 ∷ []) (omega arith) (omega arith)

abbrev peers : Packet
peers = record { msg_type = 0; dejavu = 1; payload = [] }

abbrev transaction : Packet
transaction = record { msg_type = 24; dejavu = 7; payload = 1 ∷ 2 ∷ [] }

abbrev end_response : Packet
end_response = record { msg_type = 35; dejavu = 8; payload = [] }

await_packet-iff-FirstReply_example :
    (await_packet 24 (received peers ∷ received transaction ∷ elapsed ∷ []) ≡ got (1 ∷ 2 ∷ []))
    ↔ FirstReply 24 (received peers ∷ received transaction ∷ elapsed ∷ []) (1 ∷ 2 ∷ [])
await_packet-iff-FirstReply_example =
    await_packet-iff-FirstReply 24 (received peers ∷ received transaction ∷ elapsed ∷ [])
      (1 ∷ 2 ∷ [])

payloads_run :
    transaction_payloads (transaction ∷ peers ∷ transaction ∷ []) ≡ (1 ∷ 2 ∷ []) ∷ (1 ∷ 2 ∷ []) ∷ []
unfolding transaction_payloads
payloads_run = refl

exchange_run :
    (exchange_public_peers
      (to_le 4 1 ∷ to_le 4 2 ∷ to_le 4 3 ∷ to_le 4 4 ∷ [])
      7
      (received peers ∷ elapsed ∷ [])).1
    ≡ got no_peers
unfolding exchange_public_peers await_peers
exchange_run = refl
