-- ===== src/Ingestion/Decoders/Transaction/Layouts.antt =====
-- A transaction that is laid out as the node's structure, read back.
use qonduit.Common.{
  ℕ, ◌+◌, ◌≤◌, ◌<◌, ◌^◌, ◌≡◌, refl, ap, ◌∙◌, List, [], ◌∷◌, ◌++◌, ◌&&◌, true, ltb, leb, length,
  length-append, arith, get_elem?, some, le→leb, lt→ltb, if◌then◌else◌,
}
use qonduit.Bytes.{Bytes, ok, signed, to_le}
use qonduit.Bytes.Slices.{cut, slice-cut}
use qonduit.Bytes.Layout.{
  packed, offset, slice-packed, read-packed, length-packed, sizes, cut-behind,
}
use qonduit.Core.Hash.{External, compute_tx_hash, hash_to_hex}
use qonduit.Core.Identity.{encode_base26}
use qonduit.Core.InputType.{classify, label}
use qonduit.Ingestion.Decoders.Guards.{at_least_enough, hex_if}
use qonduit.Ingestion.Decoders.Transaction.{decode_transaction}

-- The header of a transaction on the wire, and the input.
pub transaction_fields : Bytes → Bytes → ℕ → ℕ → ℕ → Bytes → List Bytes
transaction_fields source destination amount tick input_type input =
    source
    ∷ destination
    ∷ to_le 8 amount
    ∷ to_le 4 tick
    ∷ to_le 2 input_type
    ∷ to_le 2 (length input)
    ∷ input
    ∷ []

-- The hexadecimal text of an input; an empty input has an empty text.
pub input_text : (Bytes → Bytes) → Bytes → Bytes
input_text hex_encode [] = []
input_text hex_encode (b ∷ bs) = hex_encode (b ∷ bs)

input_part :
    (hex_encode : Bytes → Bytes) (fs : List Bytes) (rest input : Bytes)
    → get_elem? fs 6 ≡ some input
    → 80 ≡ offset fs 6
    → 80 + length input ≤ length (packed fs ++ rest)
    → hex_if hex_encode
        (ltb 0 (length input) && leb (80 + length input) (length (packed fs ++ rest)))
        (packed fs ++ rest)
        80
        (80 + length input)
      ≡ ok (input_text hex_encode input)
unfolding hex_if input_text
input_part hex_encode fs rest [] h o k = refl
input_part hex_encode fs rest (b ∷ bs) h o k = rw (
  lt→ltb 0 (length (b ∷ bs)) (omega arith),
  le→leb (80 + length (b ∷ bs)) (length (packed fs ++ rest)) k,
  slice-packed fs rest (b ∷ bs) 6 80 (80 + length (b ∷ bs)) h o refl,
)

module _ (lib : External) (fs : List Bytes) (signature rest : Bytes) where
  signature_part :
      (n : ℕ)
      → n ≡ length (packed fs)
      → length signature ≡ 64
      → hex_if lib.hex_encode
          (leb (n + 64) (length (packed fs ++ (signature ++ rest))))
          (packed fs ++ (signature ++ rest))
          n
          (n + 64)
        ≡ ok (lib.hex_encode signature)
  unfolding hex_if
  signature_part n h k =
      let long : n + 64 ≤ length (packed fs ++ (signature ++ rest)) =
        omega
          (arith, length-append (packed fs) (signature ++ rest), length-append signature rest) in
      rw (
        le→leb _ _ long,
        slice-cut _ n (n + 64) (omega arith) long,
        cut-behind (packed fs) signature rest n (n + 64) h (omega arith),
      )

  hash_part :
      (n : ℕ)
      → 80 + n ≡ length (packed fs)
      → compute_tx_hash lib (packed fs ++ (signature ++ rest)) n ≡ lib.sha256 (packed fs)
  unfolding compute_tx_hash
  hash_part n h =
      let tx = packed fs ++ (signature ++ rest) in
      let long : leb (80 + n) (length tx) ≡ true =
        le→leb (80 + n) (length tx)
          (omega (arith, length-append (packed fs) (signature ++ rest))) in
      ap (λ t. lib.sha256 (if t then cut tx 0 (80 + n) else tx)) long
      ∙ ap lib.sha256 (cut-behind [] (packed fs) (signature ++ rest) 0 (80 + n) refl (omega arith))

-- A transaction that is laid out as the node's structure, its 64-byte signature behind the input,
-- decodes to its fields; the hash is the SHA-256 of exactly the header and the input, and the
-- signature is not hashed.
pub decode_transaction-packed :
    (lib : External) (source destination input signature rest : Bytes) (amount tick input_type : ℕ)
    → length source ≡ 32
    → length destination ≡ 32
    → length input < 2 ^ 16
    → length signature ≡ 64
    → amount < 2 ^ 64
    → tick < 2 ^ 32
    → input_type < 2 ^ 16
    → decode_transaction lib (
        packed (transaction_fields source destination amount tick input_type input)
        ++ (signature ++ rest))
      ≡ ok (record {
        hash = lib.hex_encode (
            lib.sha256
              (packed (transaction_fields source destination amount tick input_type input)));
        source_hex = lib.hex_encode source;
        source_identity = encode_base26 lib.k12 source;
        destination_hex = lib.hex_encode destination;
        destination_identity = encode_base26 lib.k12 destination;
        amount = signed 64 amount;
        tick = tick;
        input_type = input_type;
        input_size = length input;
        input_hex = input_text lib.hex_encode input;
        input_type_name = label (classify input_type);
        signature_hex = lib.hex_encode signature;
      })
unfolding decode_transaction transaction_fields hash_to_hex
decode_transaction-packed lib src dst input sig rest a t ty hs hd hi hg ha ht hty = rw (
  at_least_enough 80 (packed fs ++ (sig ++ rest)) _ (omega (arith, long)),
  slice-packed fs (sig ++ rest) src 0 0 32 refl refl (omega arith),
  slice-packed fs (sig ++ rest) dst 1 32 64 refl (omega arith) (omega arith),
  read-packed fs (sig ++ rest) 8 a 2 64 refl (omega sizes) ha,
  read-packed fs (sig ++ rest) 4 t 3 72 refl (omega sizes) ht,
  read-packed fs (sig ++ rest) 2 ty 4 76 refl (omega sizes) hty,
  read-packed fs (sig ++ rest) 2 (length input) 5 78 refl (omega sizes) hi,
  input_part lib.hex_encode fs (sig ++ rest) input refl (omega sizes) (omega (arith, long)),
  signature_part lib fs sig rest (80 + length input) (omega (arith, front)) hg,
  le→leb (80 + length input) (length (packed fs ++ (sig ++ rest))) (omega (arith, long)),
  hash_part lib fs sig rest (length input) (omega (arith, front)),
)
  where
    fs : List Bytes
    fs = transaction_fields src dst a t ty input

    front : length (packed fs) ≡ 80 + length input
    front = omega (sizes, length-packed fs)

    long : length (packed fs ++ (sig ++ rest)) ≡ 80 + length input + length (sig ++ rest)
    long = omega (arith, length-append (packed fs) (sig ++ rest), front)
