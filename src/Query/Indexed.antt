-- ===== src/Query/Indexed.antt =====
-- The indexer and the REST interface together: what was indexed is answered.
use qonduit.Common.{
  ℕ, ◌<◌, ◌^◌, ◌≡◌, ◌≢◌, refl, ap, List, [], ◌∷◌, ◌++◌, length, Option, none, some, true, All, ◌==◌,
  ==_iff,
}
use qonduit.Bytes.{Bytes, IsBytes, ok}
use qonduit.Ingestion.Decoders.Transaction.{Transaction}
use qonduit.Storage.Database.{Database, IsLawful}
use qonduit.Storage.Warm.{get_tx}
use qonduit.Storage.Warm.Scans.{get_tx_hashes_for_tick}
use qonduit.Storage.Warm.Valid.{IsValid}
use qonduit.Processor.Parsers
use qonduit.Processor.Indexer.{Indexer, hash_bytes, index_transaction}
use qonduit.Processor.Indexer.Hashes.{hash_bytes-IsKey}
use qonduit.Processor.Indexer.Transactions.{
  hash_in, hashes_of, index_transactions, InTick, get_tx_hashes_for_tick-index_transactions,
}
use qonduit.Processor.Indexer.Stored.{OtherHash, get_tx-indexed}
use qonduit.Query.Values.{External}
use qonduit.Query.Texts.{parse_u32}
use qonduit.Query.Rest.{
  raw, json, json_or_404, or_bad_request, parse_all, push_parsed, push_stored, transactions_of,
  get_transaction, get_tick_transactions,
}

module _ (db : Database) (p : Parsers.External) (lib : External) (laws : IsLawful db) where
  -- No later payload has the hash of an earlier one.
  abbrev pub Fresh : Option Transaction → List Bytes → Type 0
  Fresh none later = Unit
  Fresh (some tx) later =
      All (λ other. OtherHash db p laws (hash_bytes db p tx) (p.transaction other)) later

  abbrev pub Distinct : List Bytes → Type 0
  Distinct [] = Unit
  Distinct (payload ∷ later) = Fresh (p.transaction payload) later × Distinct later

  -- The payloads that parse.
  abbrev pub keep_parsing : Option Transaction → Bytes → List Bytes → List Bytes
  keep_parsing none payload rest = rest
  keep_parsing (some tx) payload rest = payload ∷ rest

  abbrev pub parsing : List Bytes → List Bytes
  parsing [] = []
  parsing (payload ∷ later) = keep_parsing (p.transaction payload) payload (parsing later)

  FoundIn : db.Store → Bytes → Option Transaction → Type 0
  FoundIn s payload none = Unit
  FoundIn s payload (some tx) = get_tx db (hash_bytes db p tx) s ≡ some payload

  found :
      (payload : Bytes) (later : List Bytes) (ix : Indexer db) (r : Option Transaction)
      → p.transaction payload ≡ r
      → Fresh r later
      → FoundIn (index_transactions db p (payload ∷ later) ix).storage payload r
  unfolding FoundIn
  found payload later ix none e fresh = tt
  found payload later ix (some tx) e fresh = get_tx-indexed db p laws payload tx later ix e fresh

  answer :
      (s : db.Store) (payload : Bytes) (later : List Bytes) (r : Option Transaction)
      → FoundIn s payload r
      → transactions_of db lib (hashes_of db p later) s ≡ parse_all db lib (parsing later)
      → transactions_of db lib (hash_in db p r ++ hashes_of db p later) s
        ≡ parse_all db lib (keep_parsing r payload (parsing later))
  unfolding FoundIn hash_in transactions_of parse_all push_stored
  answer s payload later none here rest = rest
  answer s payload later (some tx) here rest =
      rw here (ap (push_parsed db lib (lib.from_slice payload)) rest)

  transactions_of-hashes_of :
      (payloads : List Bytes) (ix : Indexer db)
      → Distinct payloads
      → transactions_of db lib
          (hashes_of db p payloads)
          (index_transactions db p payloads ix).storage
        ≡ parse_all db lib (parsing payloads)
  unfolding hashes_of parse_all transactions_of index_transactions
  transactions_of-hashes_of [] ix d = refl
  transactions_of-hashes_of (payload ∷ later) ix (fresh, d) =
      let r = p.transaction payload in
      answer (index_transactions db p (payload ∷ later) ix).storage payload later r
        (found payload later ix r refl fresh)
        (transactions_of-hashes_of later (index_transaction db p payload ix).0 d)

  -- A transaction that was indexed is answered with its payload when it is asked for by the
  -- hexadecimal text of its hash, as long as no later one of that hash was indexed.
  pub get_transaction-indexed :
      (payload : Bytes) (tx : Transaction) (later : List Bytes) (ix : Indexer db) (hash_str : Bytes)
      → ((s b : Bytes) → p.hex_decode s ≡ some b → IsBytes b)
      → p.transaction payload ≡ some tx
      → All (λ other. OtherHash db p laws (hash_bytes db p tx) (p.transaction other)) later
      → lib.hex_decode hash_str ≡ some (hash_bytes db p tx)
      → get_transaction db lib hash_str (index_transactions db p (payload ∷ later) ix).storage
        ≡ raw payload
  unfolding get_transaction or_bad_request json_or_404
  get_transaction-indexed payload tx later ix hash_str hex_bytes parsed others decoded =
      let found = get_tx-indexed db p laws payload tx later ix parsed others in
      let size : (length (hash_bytes db p tx) == 32) ≡ true =
        (==_iff _ 32).1 (hash_bytes-IsKey db p hex_bytes tx).0 in
      rw (decoded, size, found) refl

  -- When fewer than 2^32 transactions of one tick with different hashes are indexed one after
  -- another, with none of another tick in between, and the tick had none in the index before and was
  -- not the last one indexed, the request of its transactions is answered with exactly their JSON
  -- values, in the order of arrival.
  pub get_tick_transactions-indexed :
      (tick_str : Bytes) (t : ℕ) (payloads : List Bytes) (ix : Indexer db)
      → ((s b : Bytes) → p.hex_decode s ≡ some b → IsBytes b)
      → parse_u32 tick_str ≡ some t
      → All (λ payload. InTick db p t (p.transaction payload)) payloads
      → Distinct payloads
      → length payloads < 2 ^ 32
      → IsValid db ix.storage
      → ix.tx_last_tick ≢ t
      → get_tx_hashes_for_tick db t ix.storage ≡ ok []
      → get_tick_transactions db lib tick_str (index_transactions db p payloads ix).storage
        ≡ ok (json (lib.array (parse_all db lib (parsing payloads))))
  unfolding get_tick_transactions
  get_tick_transactions-indexed tick_str t payloads ix hex_bytes parsed same distinct few valid
        other empty =
      let listed =
        get_tx_hashes_for_tick-index_transactions db p laws hex_bytes t payloads ix same few valid
          other empty in
      rw (parsed, listed, transactions_of-hashes_of payloads ix distinct) refl
