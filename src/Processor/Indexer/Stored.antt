-- ===== src/Processor/Indexer/Stored.antt =====
-- The stored transactions by their hashes, through a sequence of payloads.
use qonduit.Common.{
  ℕ, ◌≡◌, ◌≢◌, refl, ap, subst, ◌∙◌, List, [], ◌∷◌, false, ltb, Option, none, some, Bool-cases, inl,
  inr, All, arith, if◌then◌else◌,
}
use qonduit.Bytes.{Bytes, to_be}
use qonduit.Core.Identity.{bytes_eq}
use qonduit.Core.Identity.Digits.{bytes_eq_iff}
use qonduit.Core.Pipeline.{EpochStats}
use qonduit.Ingestion.Decoders.Transaction.{Transaction}
use qonduit.Storage.Keys.{Entry, before, value_at, set_value}
use qonduit.Storage.Database.{cf_tx, cf_epoch_stats, start, after_writes, Database, IsLawful}
use qonduit.Storage.Warm.{get_tx, batch_put_tx, batch_write, entity_write, put_epoch_stats}
use qonduit.Processor.Parsers.{External}
use qonduit.Processor.Indexer.{
  Indexer, hash_bytes, count_tx, save_stats, update_epoch_stats, update_current_stats,
  write_transaction, store_transaction, index_transaction,
}
use qonduit.Processor.Indexer.Transactions.{index_transactions}

-- A value that is set is read at its key, and the other keys keep theirs.
pub value_at-set_value :
    (j k v : Bytes) (es : List Entry)
    → value_at j (set_value k v es) ≡ (if bytes_eq k j then some v else value_at j es)
unfolding value_at set_value
value_at-set_value j k v [] = refl
value_at-set_value j k v ((i, w) ∷ es) = elim (Bool-cases (bytes_eq i k)) [
  | inl same ↦
      let e = (bytes_eq_iff i k).0 same in
      elim (Bool-cases (bytes_eq k j)) [
        | inl here ↦ rw (same, here) refl
        | inr there ↦ rw (same, e, there) refl
      ]
  | inr other ↦ elim (Bool-cases (before k i)) [
    | inl first ↦ rw (other, first) refl
    | inr later ↦ elim (Bool-cases (bytes_eq k j)) [
      | inl here ↦
          let e = (bytes_eq_iff k j).0 here in
          let apart : bytes_eq i j ≡ false = subst (λ x. bytes_eq i x ≡ false) e other in
          rw (other, later, apart, here) (value_at-set_value j k v es ∙ rw here refl)
      | inr there ↦
          let rest : value_at j (set_value k v es) ≡ value_at j es =
            value_at-set_value j k v es ∙ rw there refl in
          rw (other, later, there, rest) refl
    ]
  ]
]

after_writes-batch_put_tx :
    (hash bytes : Bytes) (t i : ℕ) (src dst : Option Bytes) (es : List Entry)
    → after_writes cf_tx (batch_put_tx [] hash bytes t i src dst) es ≡ set_value hash bytes es
unfolding after_writes batch_put_tx entity_write
after_writes-batch_put_tx hash bytes t i none none es = refl
after_writes-batch_put_tx hash bytes t i none (some b) es = refl
after_writes-batch_put_tx hash bytes t i (some a) none es = refl
after_writes-batch_put_tx hash bytes t i (some a) (some b) es = refl

module _ (db : Database) (lib : External) (laws : IsLawful db) where
  get_tx-entries :
      (h : Bytes) (s : db.Store) → get_tx db h s ≡ value_at h (db.iterator_cf s cf_tx start)
  unfolding get_tx
  get_tx-entries h s = laws.get_iterator s cf_tx h

  save_stats-entries :
      (epoch : ℕ) (ix : Indexer db) (json : Option Bytes)
      → db.iterator_cf (save_stats db lib epoch ix json).0.storage cf_tx start
        ≡ db.iterator_cf ix.storage cf_tx start
  unfolding save_stats put_epoch_stats
  save_stats-entries epoch ix none = refl
  save_stats-entries epoch ix (some json) =
      laws.after_put ix.storage cf_epoch_stats cf_tx (to_be 2 epoch) json

  update_current_stats-entries :
      (f : EpochStats → EpochStats) (ix : Indexer db)
      → db.iterator_cf (update_current_stats db lib f ix).0.storage cf_tx start
        ≡ db.iterator_cf ix.storage cf_tx start
  unfolding update_current_stats update_epoch_stats
  update_current_stats-entries f ix = elim (Bool-cases (ltb 0 ix.pipeline.indexed_epoch)) [
    | inl known ↦ rw known (save_stats-entries ix.pipeline.indexed_epoch ix _)
    | inr unknown ↦ rw unknown refl
  ]

  write_transaction-entries :
      (payload : Bytes) (ix : Indexer db) (tx : Transaction)
      → db.iterator_cf (write_transaction db lib payload ix tx).storage cf_tx start
        ≡ set_value (hash_bytes db lib tx) payload (db.iterator_cf ix.storage cf_tx start)
  unfolding write_transaction batch_write
  write_transaction-entries payload ix tx =
      laws.after_write ix.storage _ cf_tx ∙ after_writes-batch_put_tx _ _ _ _ _ _ _

  -- What a read finds after a payload is indexed.
  get_tx-store_transaction :
      (h payload : Bytes) (ix : Indexer db) (tx : Transaction)
      → get_tx db h (store_transaction db lib payload ix (some tx)).0.storage
        ≡ (if bytes_eq (hash_bytes db lib tx) h then some payload else get_tx db h ix.storage)
  unfolding store_transaction
  get_tx-store_transaction h payload ix tx =
      let es = db.iterator_cf ix.storage cf_tx start in
      let written = write_transaction db lib payload ix tx in
      rw
        (
          get_tx-entries h (update_current_stats db lib count_tx written).0.storage,
          update_current_stats-entries count_tx written,
          write_transaction-entries payload ix tx,
          get_tx-entries h ix.storage,
        )
        (value_at-set_value h (hash_bytes db lib tx) payload es)

  -- The payload, if it parses, has another hash.
  abbrev pub OtherHash : Bytes → Option Transaction → Type 0
  OtherHash h none = Unit
  OtherHash h (some tx) = hash_bytes db lib tx ≢ h

  get_tx-other :
      (h payload : Bytes) (ix : Indexer db) (r : Option Transaction)
      → OtherHash h r
      → get_tx db h (store_transaction db lib payload ix r).0.storage ≡ get_tx db h ix.storage
  get_tx-other h payload ix none d = unfold store_transaction in refl
  get_tx-other h payload ix (some tx) d =
      let apart : bytes_eq (hash_bytes db lib tx) h ≡ false =
        ground (arith, bytes_eq_iff (hash_bytes db lib tx) h) in
      get_tx-store_transaction h payload ix tx ∙ rw apart refl

  -- Payloads of other hashes leave what is stored under a hash.
  pub get_tx-index_transactions :
      (h : Bytes) (payloads : List Bytes) (ix : Indexer db)
      → All (λ payload. OtherHash h (lib.transaction payload)) payloads
      → get_tx db h (index_transactions db lib payloads ix).storage ≡ get_tx db h ix.storage
  unfolding index_transactions index_transaction
  get_tx-index_transactions h [] ix d = refl
  get_tx-index_transactions h (payload ∷ payloads) ix (d, ds) =
      get_tx-index_transactions h payloads
        (store_transaction db lib payload ix (lib.transaction payload)).0 ds
      ∙ get_tx-other h payload ix (lib.transaction payload) d

  -- A payload that was indexed is found by its hash, until another one of that hash is.
  pub get_tx-indexed :
      (payload : Bytes) (tx : Transaction) (later : List Bytes) (ix : Indexer db)
      → lib.transaction payload ≡ some tx
      → All (λ other. OtherHash (hash_bytes db lib tx) (lib.transaction other)) later
      → get_tx db (hash_bytes db lib tx) (index_transactions db lib (payload ∷ later) ix).storage
        ≡ some payload
  unfolding index_transactions index_transaction
  get_tx-indexed payload tx later ix parsed others =
      let h = hash_bytes db lib tx in
      get_tx-index_transactions h later
        (store_transaction db lib payload ix (lib.transaction payload)).0 others
      ∙ ap (λ r. get_tx db h (store_transaction db lib payload ix r).0.storage) parsed
      ∙ get_tx-store_transaction h payload ix tx
      ∙ rw ((bytes_eq_iff h h).1 refl) refl
