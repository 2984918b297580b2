-- ===== src/Core/Hash.antt =====
-- crates/core/src/hash.rs, and the third-party functions that the core and the decoders call. A
-- text is its bytes.
use qonduit.Common.{ℕ, ◌+◌, leb, length, if◌then◌else◌}
use qonduit.Bytes.{Bytes}
use qonduit.Bytes.Slices.{cut}
use qonduit.Core.Identity.{encode_base26}

-- The crates `kangarootwelve` (a key, and how many bytes to squeeze), `sha2` and `hex`.
pub record External : Type 0 where
  pub k12 : Bytes → ℕ → Bytes
  pub sha256 : Bytes → Bytes
  pub hex_encode : Bytes → Bytes

module _ (lib : External) where
  open lib use {k12, sha256, hex_encode}

  -- The hash covers the header and the input, without the signature.
  unfoldable pub compute_tx_hash : Bytes → ℕ → Bytes
  compute_tx_hash tx_bytes input_size =
      let hash_len = 80 + input_size in
      sha256 (if leb hash_len (length tx_bytes) then cut tx_bytes 0 hash_len else tx_bytes)

  unfoldable pub hash_to_identity : Bytes → Bytes
  hash_to_identity hash = encode_base26 k12 hash

  unfoldable pub hash_to_hex : Bytes → Bytes
  hash_to_hex hash = hex_encode hash
