-- ===== src/Processor/Indexer/Transactions.antt =====
-- Sequences of transactions: the index of a transaction within its tick is counted as long as the
-- transactions of the tick come one after another, and starts anew when another tick comes between.
use qonduit.Common.{
  ℕ, ◌+◌, ◌%◌, ◌<◌, ◌≤◌, ◌^◌, ◌≡◌, ◌≢◌, refl, sym, ap, subst, ◌∙◌, List, [], ◌∷◌, ◌++◌, length,
  arith, Option, none, some, append-nil, append_assoc, length-append, ==_iff, All,
}
use qonduit.Bytes.{Bytes, IsBytes, ok, to_be}
use qonduit.Bytes.Endian.{length-to_be}
use qonduit.Ingestion.Decoders.Transaction.{Transaction}
use qonduit.Storage.Keys.{set_value}
use qonduit.Storage.Keys.Rows.{rows, values}
use qonduit.Storage.Keys.Appends.{count_up, rows-set_next, no_values-count_up, values-count_up}
use qonduit.Storage.Database.{cf_tx_by_tick, start, Database, IsLawful}
use qonduit.Storage.Warm.{tick_index_key}
use qonduit.Storage.Warm.Scans.{get_tx_hashes_for_tick}
use qonduit.Storage.Warm.Valid.{IsValid}
use qonduit.Storage.Warm.ByTick.{get_tx_hashes_for_tick-rows, first_keys}
use qonduit.Processor.Parsers.{External}
use qonduit.Processor.Indexer.{
  Indexer, hash_bytes, next_index, count_tx, update_current_stats, write_transaction,
  store_transaction, index_transaction,
}
use qonduit.Processor.Indexer.Writes.{
  Keeps, update_current_stats-Keeps, write_transaction-IsValid, write_transaction-hashes,
}

ok_injective {ℓ} : {A : Type ℓ} {x y : A} → ok x ≡ ok y → x ≡ y
ok_injective h = cc

module _ (db : Database) (lib : External) where
  -- The hash of the payload alone, if it parses.
  unfoldable pub hash_in : Option Transaction → List Bytes
  hash_in none = []
  hash_in (some tx) = hash_bytes db lib tx ∷ []

  -- The hashes of the payloads that parse.
  unfoldable pub hashes_of : List Bytes → List Bytes
  hashes_of [] = []
  hashes_of (payload ∷ payloads) = hash_in (lib.transaction payload) ++ hashes_of payloads

  unfoldable pub index_transactions : List Bytes → Indexer db → Indexer db
  index_transactions [] ix = ix
  index_transactions (payload ∷ payloads) ix =
      index_transactions payloads (index_transaction db lib payload ix).0

  -- The payload is a transaction of the tick, if it parses.
  abbrev pub InTick : ℕ → Option Transaction → Type 0
  InTick t none = Unit
  InTick t (some tx) = tx.tick ≡ t

  length-hash_in : (r : Option Transaction) → length (hash_in r) ≤ 1
  unfolding hash_in
  length-hash_in none = omega arith
  length-hash_in (some tx) = omega arith

  module _ (laws : IsLawful db) where
    module _ (hex_bytes : (s b : Bytes) → lib.hex_decode s ≡ some b → IsBytes b) where
      -- The transactions of the tick are numbered from 0 on, and the next one gets the next number.
      pub record Holds (t : ℕ) (ix : Indexer db) (vs : List Bytes) : Type 0 where
        pub valid : IsValid db ix.storage
        pub numbered :
            rows (to_be 4 t) (db.iterator_cf ix.storage cf_tx_by_tick start) ≡ count_up 0 vs
        pub next : next_index db lib t ix ≡ length vs

      next_index-write_transaction :
          (payload : Bytes) (ix : Indexer db) (tx : Transaction)
          → next_index db lib tx.tick (write_transaction db lib payload ix tx)
            ≡ (next_index db lib tx.tick ix + 1) % 2 ^ 32
      unfolding next_index write_transaction
      next_index-write_transaction payload ix tx = rw ((==_iff tx.tick tx.tick).1 refl)

      pub fresh : (t : ℕ) (ix : Indexer db) → ix.tx_last_tick ≢ t → next_index db lib t ix ≡ 0
      unfolding next_index
      fresh t ix h = ground arith

      Keeps-Holds :
          (t : ℕ) (ix iy : Indexer db) (vs : List Bytes)
          → Keeps db lib ix iy
          → Holds t ix vs
          → Holds t iy vs
      unfolding next_index
      Keeps-Holds t ix iy vs k h = record {
        valid = k.valid h.valid;
        numbered = ap (rows (to_be 4 t)) k.hashes ∙ h.numbered;
        next = rw (k.tick, k.counter) h.next;
      }

      write_transaction-Holds :
          (payload : Bytes) (ix : Indexer db) (tx : Transaction) (vs : List Bytes)
          → length vs + 1 < 2 ^ 32
          → Holds tx.tick ix vs
          → Holds tx.tick (write_transaction db lib payload ix tx) (vs ++ hash_bytes db lib tx ∷ [])
      write_transaction-Holds payload ix tx vs lt h =
          let es = db.iterator_cf ix.storage cf_tx_by_tick start in
          record {
            valid = write_transaction-IsValid db lib laws hex_bytes payload ix tx h.valid;
            numbered =
                ap (rows (to_be 4 tx.tick))
                  (write_transaction-hashes db lib laws hex_bytes payload ix tx)
                ∙ ap
                    (λ i.
                      rows (to_be 4 tx.tick)
                        (set_value (tick_index_key tx.tick i) (hash_bytes db lib tx) es))
                    h.next
                ∙ rows-set_next (to_be 4 tx.tick) 4 (hash_bytes db lib tx) vs es (omega arith)
                    (rw (length-to_be 4 tx.tick) (first_keys 8 es (h.valid cf_tx_by_tick)))
                    (laws.sorted ix.storage cf_tx_by_tick) h.numbered;
            next =
                next_index-write_transaction payload ix tx
                ∙ omega (arith, h.next, length-append vs (hash_bytes db lib tx ∷ []));
          }

      store_transaction-Holds :
          (t : ℕ) (payload : Bytes) (ix : Indexer db) (r : Option Transaction) (vs : List Bytes)
          → InTick t r
          → length vs + 1 < 2 ^ 32
          → Holds t ix vs
          → Holds t (store_transaction db lib payload ix r).0 (vs ++ hash_in r)
      unfolding store_transaction hash_in
      store_transaction-Holds t payload ix none vs same lt h = rw (append-nil vs) h
      store_transaction-Holds t payload ix (some tx) vs same lt h =
          let written = write_transaction db lib payload ix tx in
          let both = vs ++ hash_bytes db lib tx ∷ [] in
          subst (λ u. Holds u (update_current_stats db lib count_tx written).0 both) same
            (Keeps-Holds tx.tick written _ both
              (update_current_stats-Keeps db lib laws count_tx written)
              (write_transaction-Holds payload ix tx vs lt
                (subst (λ u. Holds u ix vs) (sym same) h)))

      index_transactions-Holds :
          (t : ℕ) (payloads : List Bytes) (ix : Indexer db) (vs : List Bytes)
          → All (λ payload. InTick t (lib.transaction payload)) payloads
          → length vs + length payloads < 2 ^ 32
          → Holds t ix vs
          → Holds t (index_transactions payloads ix) (vs ++ hashes_of payloads)
      unfolding index_transactions hashes_of index_transaction
      index_transactions-Holds t [] ix vs same lt h = rw (append-nil vs) h
      index_transactions-Holds t (payload ∷ payloads) ix vs (same, more) lt h =
          let parsed = lib.transaction payload in
          rw (sym (append_assoc vs (hash_in parsed) (hashes_of payloads))) (
            index_transactions-Holds t payloads (store_transaction db lib payload ix parsed).0
              (vs ++ hash_in parsed) more
              (omega (arith, length-append vs (hash_in parsed), length-hash_in parsed))
              (store_transaction-Holds t payload ix parsed vs same (omega arith) h))

      -- When transactions of one tick are indexed one after another and the tick had none before
      -- and was not the last one, their hashes are all listed under it, in the order of arrival.
      pub get_tx_hashes_for_tick-index_transactions :
          (t : ℕ) (payloads : List Bytes) (ix : Indexer db)
          → All (λ payload. InTick t (lib.transaction payload)) payloads
          → length payloads < 2 ^ 32
          → IsValid db ix.storage
          → ix.tx_last_tick ≢ t
          → get_tx_hashes_for_tick db t ix.storage ≡ ok []
          → get_tx_hashes_for_tick db t (index_transactions payloads ix).storage
            ≡ ok (hashes_of payloads)
      get_tx_hashes_for_tick-index_transactions t payloads ix same lt valid other none_yet =
          let empty : values (rows (to_be 4 t) (db.iterator_cf ix.storage cf_tx_by_tick start))
              ≡ [] =
            ok_injective
              (sym (get_tx_hashes_for_tick-rows db laws ix.storage t valid) ∙ none_yet) in
          let start_state : Holds t ix [] = record {
            valid = valid;
            numbered = no_values-count_up _ empty;
            next = fresh t ix other;
          } in
          let done = index_transactions-Holds t payloads ix [] same (omega arith) start_state in
          get_tx_hashes_for_tick-rows db laws (index_transactions payloads ix).storage t done.valid
          ∙ ap ok (ap values done.numbered ∙ values-count_up 0 (hashes_of payloads))
