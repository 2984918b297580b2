-- ===== src/Tests/CoreRuns.antt =====
-- Runs of crates/core: message types, headers, identities.
use qonduit.Common.{
  ℕ, ◌+◌, ◌≡◌, ◌≢◌, ◌↔◌, ◌<◌, ◌^◌, refl, [], ◌∷◌, ◌++◌, some, take, arith, true, false,
}
use qonduit.Bytes.{Bytes, to_le, from_le}
use qonduit.Core.MessageType.{end_response, from_u8}
use qonduit.Core.Header.{network_type, is_end_response, payload_size, new_request, to_bytes}
use qonduit.Core.Header.RoundTrip.{payload_size-new_request_iff}
use qonduit.Core.Identity.{
  base26_digits, encode_fragments, decode_digits, decode_fragments, bytes_eq, is_ascii_uppercase,
  compute_checksum, encode_base26, decode_base26,
}
use qonduit.Core.Identity.RoundTrip.{decode_base26-encode_base26}
use qonduit.Core.Identity.Aliases.{decode_base26_alias}

payload_size-new_request_iff_example :
    (payload_size (new_request 31 32 42) ≡ 32) ↔ (32 + 8 < 2 ^ 24)
payload_size-new_request_iff_example = payload_size-new_request_iff 31 32 42 (omega arith)

header_bytes : to_bytes (new_request 27 0 1) ≡ 8 ∷ 0 ∷ 0 ∷ 27 ∷ 1 ∷ 0 ∷ 0 ∷ 0 ∷ []
unfolding to_bytes new_request to_le
header_bytes = refl

-- A hash function for the runs: the first bytes of the key.
abbrev k12 : Bytes → ℕ → Bytes
k12 key n = take n key

abbrev eight : Bytes
eight = 1 ∷ 2 ∷ 3 ∷ 4 ∷ 5 ∷ 6 ∷ 7 ∷ 250 ∷ []

abbrev key : Bytes
key = eight ++ (eight ++ (eight ++ eight))

abbrev key_identity : Bytes
key_identity = encode_base26 k12 key

decode_run : decode_base26 k12 key_identity ≡ some key
unfolding decode_base26 encode_base26 encode_fragments decode_fragments decode_digits base26_digits
    bytes_eq is_ascii_uppercase compute_checksum from_le to_le
decode_run = refl

decode_base26-encode_base26_example : decode_base26 k12 (encode_base26 k12 key) ≡ some key
decode_base26-encode_base26_example = decode_base26-encode_base26 k12 key (omega arith) refl

decode_base26_alias_example :
    (s : Bytes) × (decode_base26 k12 s ≡ some key) × (s ≢ encode_base26 k12 key)
decode_base26_alias_example = decode_base26_alias k12 key (omega arith) refl

header_run :
    (network_type (new_request 35 0 0) ≡ some end_response)
    × (is_end_response (new_request 35 0 0) ≡ true)
    × (is_end_response (new_request 3 100 0) ≡ false)
unfolding network_type is_end_response new_request from_u8
header_run = (refl, refl, refl)
