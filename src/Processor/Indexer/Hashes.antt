-- ===== src/Processor/Indexer/Hashes.antt =====
-- The keys of transactions and entities are arrays of 32 bytes.
use qonduit.Common.{
  ℕ, zero, suc, ◌≡◌, refl, ◌==◌, length, arith, Option, none, some, Bool-cases, inl, inr, ==_iff,
}
use qonduit.Bytes.{Bytes, IsBytes}
use qonduit.Core.Identity.{decode_base26}
use qonduit.Core.Identity.Shape.{decode_base26_sound}
use qonduit.Ingestion.Decoders.Transaction.{Transaction}
use qonduit.Storage.Database.{Database}
use qonduit.Storage.Warm.Changes.{IsKey, OptionKey}
use qonduit.Processor.Parsers.{External}
use qonduit.Processor.Indexer.{zeros, unwrap_or, or_else, of_32, hash_bytes, source, destination}

zeros-IsBytes : (n : ℕ) → IsBytes (zeros n)
zeros-IsBytes zero = tt
zeros-IsBytes (suc n) = (omega arith, zeros-IsBytes n)

OptionKey-or_else : (a b : Option Bytes) → OptionKey a → OptionKey b → OptionKey (or_else a b)
OptionKey-or_else none b h k = k
OptionKey-or_else (some a) b h k = h

OptionKey-of_32 : (o : Option Bytes) → ((b : Bytes) → o ≡ some b → IsBytes b) → OptionKey (of_32 o)
OptionKey-of_32 none h = tt
OptionKey-of_32 (some b) h = elim (Bool-cases (length b == 32)) [
  | inl here ↦ rw here ((==_iff _ _).0 here, h b refl)
  | inr other ↦ rw other tt
]

OptionKey-some : (o : Option Bytes) → ((b : Bytes) → o ≡ some b → IsKey 32 b) → OptionKey o
OptionKey-some none h = tt
OptionKey-some (some b) h = h b refl

IsKey-unwrap_or :
    (a : Bytes) (o : Option Bytes) → IsKey 32 a → OptionKey o → IsKey 32 (unwrap_or a o)
IsKey-unwrap_or a none h k = h
IsKey-unwrap_or a (some b) h k = k

module _ (db : Database) (lib : External) where
  module _ (hex_bytes : (s b : Bytes) → lib.hex_decode s ≡ some b → IsBytes b) where
    OptionKey-decode_base26 : (s : Bytes) → OptionKey (decode_base26 lib.k12 s)
    OptionKey-decode_base26 s =
        OptionKey-some (decode_base26 lib.k12 s)
          (λ b e. let (_, len, bytes, _) = decode_base26_sound lib.k12 s b e in (len, bytes))

    OptionKey-hex : (s : Bytes) → OptionKey (of_32 (lib.hex_decode s))
    OptionKey-hex s = OptionKey-of_32 (lib.hex_decode s) (hex_bytes s)

    pub hash_bytes-IsKey : (tx : Transaction) → IsKey 32 (hash_bytes db lib tx)
    unfolding hash_bytes
    hash_bytes-IsKey tx =
        IsKey-unwrap_or _ (decode_base26 lib.k12 tx.hash)
          (IsKey-unwrap_or (zeros 32) (of_32 (lib.hex_decode tx.hash)) (refl, zeros-IsBytes 32)
            (OptionKey-hex tx.hash))
          (OptionKey-decode_base26 tx.hash)

    pub source-OptionKey : (tx : Transaction) → OptionKey (source db lib tx)
    unfolding source
    source-OptionKey tx =
        OptionKey-or_else _ _ (OptionKey-decode_base26 tx.source_identity)
          (OptionKey-hex tx.source_hex)

    pub destination-OptionKey : (tx : Transaction) → OptionKey (destination db lib tx)
    unfolding destination
    destination-OptionKey tx =
        OptionKey-or_else _ _ (OptionKey-decode_base26 tx.destination_identity)
          (OptionKey-hex tx.destination_hex)
