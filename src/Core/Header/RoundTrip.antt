-- ===== src/Core/Header/RoundTrip.antt =====
-- A header that is built, written and read again.
use qonduit.Common.{ℕ, ◌+◌, ◌<◌, ◌^◌, ◌≡◌, ◌↔◌, arith}
use qonduit.Bytes.{ok, slice, read_le, from_le, to_le}
use qonduit.Core.Header.{RequestResponseHeader, size, payload_size, new_request, to_bytes, of_bytes}

-- A header keeps the payload size that it was built for exactly when the whole packet fits the
-- 24-bit size field; any larger payload length, up to the largest u32, reads back as another one.
pub payload_size-new_request_iff :
    (t n d : ℕ) → n < 2 ^ 32 → (payload_size (new_request t n d) ≡ n) ↔ (n + 8 < 2 ^ 24)
unfolding payload_size size new_request from_le
payload_size-new_request_iff t n d h = (λ e. ground arith, λ k. ground arith)

-- The eight bytes of a header read back as the same header.
pub of_bytes-to_bytes :
    (h : RequestResponseHeader) → h.dejavu_word < 2 ^ 32 → of_bytes (to_bytes h) ≡ ok h
unfolding of_bytes to_bytes read_le slice from_le to_le
of_bytes-to_bytes h k = ground arith
