-- ===== src/Core/Header.antt =====
-- crates/core/src/header.rs: the packet header. The host is taken to be little-endian, so that
-- `to_le` and `from_le` are identities and the memory image is the wire image. Additions wrap, as
-- in the release profile.
pub mod RoundTrip
use qonduit.Common.{
  ℕ, ◌+◌, ◌-◌, ◌/◌, ◌%◌, ◌^◌, List, [], ◌∷◌, ◌++◌, Bool, Option, ◌==◌, if◌then◌else◌,
}
use qonduit.Bytes.{Bytes, Result, ok, slice, read_le, read_u8, from_le, to_le, ◌>>=◌}
use qonduit.Core.MessageType.{NetworkMessageType, from_u8}

abbrev pub u32_mod : ℕ
u32_mod = 2 ^ 32

abbrev pub u32_max : ℕ
u32_max = 2 ^ 32 - 1

pub record RequestResponseHeader : Type 0 where
  pub size0 : ℕ
  pub size1 : ℕ
  pub size2 : ℕ
  pub type_byte : ℕ
  pub dejavu_word : ℕ

-- The total packet size; a zero size means a broken packet.
unfoldable pub size : RequestResponseHeader → ℕ
size h =
    let raw = from_le (h.size0 ∷ h.size1 ∷ h.size2 ∷ 0 ∷ []) in if raw == 0 then u32_max else raw

unfoldable pub msg_type : RequestResponseHeader → ℕ
msg_type h = h.type_byte

unfoldable pub network_type : RequestResponseHeader → Option NetworkMessageType
network_type h = from_u8 h.type_byte

unfoldable pub dejavu : RequestResponseHeader → ℕ
dejavu h = h.dejavu_word

-- A saturating subtraction.
unfoldable pub payload_size : RequestResponseHeader → ℕ
payload_size h = size h - 8

unfoldable pub is_end_response : RequestResponseHeader → Bool
is_end_response h = h.type_byte == 35

-- The size keeps the low 24 bits of the total.
unfoldable pub new_request : ℕ → ℕ → ℕ → RequestResponseHeader
new_request msg_type payload_size dejavu =
    let total = (payload_size + 8) % u32_mod in
    record {
      size0 = total % 256;
      size1 = total / 256 % 256;
      size2 = total / 65536 % 256;
      type_byte = msg_type;
      dejavu_word = dejavu;
    }

unfoldable pub new_response : ℕ → ℕ → ℕ → RequestResponseHeader
new_response msg_type payload_size dejavu = new_request msg_type payload_size dejavu

unfoldable pub end_response : ℕ → RequestResponseHeader
end_response dejavu = new_response 35 0 dejavu

-- The eight bytes that the header occupies in memory and on the wire.
unfoldable pub to_bytes : RequestResponseHeader → Bytes
to_bytes h = h.size0 ∷ h.size1 ∷ h.size2 ∷ h.type_byte ∷ to_le 4 h.dejavu_word

-- The header read over an eight-byte buffer.
unfoldable pub of_bytes : Bytes → Result RequestResponseHeader
of_bytes buf = do
  a ← read_u8 buf 0
  b ← read_u8 buf 1
  c ← read_u8 buf 2
  t ← read_u8 buf 3
  d ← read_le buf 4 4
  ok (record { size0 = a; size1 = b; size2 = c; type_byte = t; dejavu_word = d })
