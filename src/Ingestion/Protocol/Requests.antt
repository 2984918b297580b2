-- ===== src/Ingestion/Protocol/Requests.antt =====
-- What the requests put on the wire.
use qonduit.Common.{
  ℕ, ◌+◌, ◌^◌, ◌≤◌, ◌<◌, ◌≡◌, max, sym, ap, ◌∙◌, List, [], length, append-nil, arith,
}
use qonduit.Bytes.{Bytes, ok, to_le}
use qonduit.Bytes.Endian.{length-to_le}
use qonduit.Ingestion.Protocol.{
  Poll, send_raw, read_packet, request_current_tick_info, request_computors, request_entity,
  send_entity_request, send_tick_data_request, request_tick_data, request_tick_transactions,
  request_log,
}
use qonduit.Ingestion.Protocol.Framing.{read_packet-send_raw}

-- The stream holds one packet and nothing else.
abbrev pub Carries : Bytes → ℕ → ℕ → Bytes → Type 0
Carries stream t d x =
    read_packet stream ≡ ok (record { msg_type = t; dejavu = d; payload = x }, [])

module _ (random : ℕ) (h : random < 2 ^ 32) where
  carries :
      (t : ℕ) (x : Bytes)
      → length x + 8 < 2 ^ 24
      → Carries (send_raw t x (max random 1)) t (max random 1) x
  carries t x k =
      ap read_packet (sym (append-nil (send_raw t x (max random 1))))
      ∙ read_packet-send_raw t (max random 1) x [] (omega arith) k

  -- Each request sends one packet, of its own request type and with a correlation id that is not
  -- zero, whose payload is empty, the identity, or the tick in four little-endian bytes.
  pub requests-Carries :
      (tick : ℕ) (identity : Bytes) (polls : List Poll)
      → length identity ≡ 32
      → (1 ≤ max random 1)
        × Carries (request_current_tick_info random polls).0 27 (max random 1) []
        × Carries (request_computors random polls).0 11 (max random 1) []
        × Carries (request_entity identity random polls).0 31 (max random 1) identity
        × Carries (send_entity_request identity random) 31 (max random 1) identity
        × Carries
            (send_tick_data_request tick random).0
            16
            (send_tick_data_request tick random).1
            (to_le 4 tick)
        × Carries (request_tick_data tick random polls).0 16 (max random 1) (to_le 4 tick)
        × Carries (request_tick_transactions tick random polls).0 29 (max random 1) (to_le 4 tick)
        × Carries (request_log tick random polls).0 44 (max random 1) (to_le 4 tick)
  unfolding request_current_tick_info request_computors request_entity send_entity_request
      send_tick_data_request request_tick_data request_tick_transactions request_log
  requests-Carries tick identity polls l =
      let four : length (to_le 4 tick) + 8 < 2 ^ 24 = omega (arith, length-to_le 4 tick) in
      (
        omega arith,
        carries 27 [] (omega arith),
        carries 11 [] (omega arith),
        carries 31 identity (omega arith),
        carries 31 identity (omega arith),
        carries 16 (to_le 4 tick) four,
        carries 16 (to_le 4 tick) four,
        carries 29 (to_le 4 tick) four,
        carries 44 (to_le 4 tick) four,
      )
