-- ===== src/Ingestion/Protocol/Framing.antt =====
-- What `send_raw` writes is what `read_packet` reads.
use qonduit.Common.{
  ℕ, ◌+◌, ◌%◌, ◌^◌, ◌<◌, ◌≡◌, refl, sym, ◌∙◌, [], ◌∷◌, ◌++◌, length, ltb, if◌then◌else◌, arith,
  append_assoc, length-append, take-append_self, drop-append_self, lt→ltb, le→leb,
}
use qonduit.Bytes.{Bytes, ok}
use qonduit.Bytes.Endian.{length-to_le}
use qonduit.Core.Header.{
  RequestResponseHeader, msg_type, dejavu, payload_size, new_request, to_bytes,
}
use qonduit.Core.Header.RoundTrip.{payload_size-new_request_iff, of_bytes-to_bytes}
use qonduit.Ingestion.Protocol.{send_raw, read_exact, read_packet}
use native.Mathlib.Nat.{mod-eq_of_lt}

read_exact-append :
    (xs rest : Bytes) (n : ℕ) → length xs ≡ n → read_exact n (xs ++ rest) ≡ ok (xs, rest)
unfolding read_exact
read_exact-append xs rest n h = rw (
  ← h,
  le→leb (length xs) (length (xs ++ rest)) (omega (arith, length-append xs rest)),
  take-append_self xs rest,
  drop-append_self xs rest,
)

length-to_bytes : (h : RequestResponseHeader) → length (to_bytes h) ≡ 8
unfolding to_bytes
length-to_bytes h = omega (arith, length-to_le 4 h.dejavu_word)

-- Reading a payload of the size in the header, zero included.
read_payload :
    (n : ℕ) (xs rest : Bytes)
    → length xs ≡ n
    → (if ltb 0 n then read_exact n (xs ++ rest) else ok ([], xs ++ rest)) ≡ ok (xs, rest)
read_payload n [] rest h = ground arith
read_payload n (x ∷ xs) rest h = rw (lt→ltb 0 n (omega arith)) (read_exact-append (x ∷ xs) rest n h)

-- A packet that fits the 24-bit size field is read back whole from the stream, with its type, its
-- correlation id and its payload, and the bytes behind it stay unread.
pub read_packet-send_raw :
    (t d : ℕ) (payload rest : Bytes)
    → d < 2 ^ 32
    → length payload + 8 < 2 ^ 24
    → read_packet (send_raw t payload d ++ rest)
      ≡ ok (record { msg_type = t; dejavu = d; payload = payload }, rest)
unfolding read_packet send_raw
read_packet-send_raw t d payload rest hd hp =
    let n = length payload % 2 ^ 32 in
    let header = new_request t n d in
    let small : n ≡ length payload = mod-eq_of_lt (omega arith) in
    let size : payload_size header ≡ length payload =
      (payload_size-new_request_iff t n d (omega arith)).1 (omega arith) ∙ small in
    rw
      (
        append_assoc (to_bytes header) payload rest,
        read_exact-append (to_bytes header) (payload ++ rest) 8 (length-to_bytes header),
        of_bytes-to_bytes header (unfold new_request in hd),
        read_payload (payload_size header) payload rest (sym size),
      )
      (unfold msg_type dejavu new_request in refl)
