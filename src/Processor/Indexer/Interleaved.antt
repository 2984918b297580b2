-- ===== src/Processor/Indexer/Interleaved.antt =====
-- Transactions of one tick with one of another tick between them.
use qonduit.Common.{
  ℕ, zero, suc, ◌<◌, ◌^◌, ◌≡◌, ◌≢◌, refl, sym, ap, ◌∙◌, [], ◌∷◌, false, ◌==◌, take, drop,
  if◌then◌else◌, arith, none, some, Bool-cases, inl, inr, ==_iff,
}
use qonduit.Bytes.{Bytes, IsBytes, to_be, from_be}
use qonduit.Bytes.Endian.{from_be-to_be}
use qonduit.Core.Identity.{bytes_eq}
use qonduit.Core.Identity.Digits.{bytes_eq_iff}
use qonduit.Ingestion.Decoders.Transaction.{Transaction}
use qonduit.Storage.Keys.Order.{value_at-set_value}
use qonduit.Storage.Database.{cf_tx_by_tick, start, Database, IsLawful}
use qonduit.Storage.Warm.{tick_index_key}
use qonduit.Processor.Parsers.{External}
use qonduit.Processor.Indexer.{
  Indexer, hash_bytes, next_index, count_tx, write_transaction, store_transaction,
  index_transaction,
}
use qonduit.Processor.Indexer.Transactions.{index_transactions, fresh}
use qonduit.Processor.Indexer.Writes.{update_current_stats-Keeps, write_transaction-hashes}

to_be-injective : (n a b : ℕ) → a < 256 ^ n → b < 256 ^ n → to_be n a ≡ to_be n b → a ≡ b
to_be-injective n a b la lb h = sym (from_be-to_be n a la) ∙ ap from_be h ∙ from_be-to_be n b lb

first_word : (a i : ℕ) → take 4 (tick_index_key a i) ≡ to_be 4 a
unfolding to_be
first_word a i = refl

second_word : (a i : ℕ) → drop 4 (tick_index_key a i) ≡ to_be 4 i
unfolding to_be
second_word a i = refl

-- Keys of different ticks differ.
other_tick :
    (a b i j : ℕ)
    → a < 2 ^ 32
    → b < 2 ^ 32
    → a ≢ b
    → bytes_eq (tick_index_key a i) (tick_index_key b j) ≡ false
other_tick a b i j la lb h =
    elim (Bool-cases (bytes_eq (tick_index_key a i) (tick_index_key b j))) [
      | inr other ↦ other
      | inl same ↦
          let words : to_be 4 a ≡ to_be 4 b =
            sym (first_word a i) ∙ ap (take 4) ((bytes_eq_iff _ _).0 same) ∙ first_word b j in
          absurd (h (to_be-injective 4 a b la lb words))
    ]

-- Keys of one tick are equal just when their indices are.
same_tick :
    (a i j : ℕ)
    → i < 2 ^ 32
    → j < 2 ^ 32
    → bytes_eq (tick_index_key a i) (tick_index_key a j) ≡ (i == j)
same_tick a i j li lj = elim (Bool-cases (bytes_eq (tick_index_key a i) (tick_index_key a j))) [
  | inl same ↦
      let words : to_be 4 i ≡ to_be 4 j =
        sym (second_word a i) ∙ ap (drop 4) ((bytes_eq_iff _ _).0 same) ∙ second_word a j in
      same ∙ sym ((==_iff i j).1 (to_be-injective 4 i j li lj words))
  | inr other ↦ elim (Bool-cases (i == j)) [
    | inr unequal ↦ other ∙ sym unequal
    | inl equal ↦
        absurd (cc (other, (bytes_eq_iff _ _).1 (ap (tick_index_key a) ((==_iff i j).0 equal))))
  ]
]

last_write :
    (i : ℕ) (a b : Bytes)
    → (if 0 == i then some b else if 0 == i then some a else none)
      ≡ (if i == 0 then some b else none)
last_write zero a b = refl
last_write (suc i) a b = ground arith

module _ (db : Database) (lib : External) (laws : IsLawful db) where
  module _ (hex_bytes : (s b : Bytes) → lib.hex_decode s ≡ some b → IsBytes b) where
    -- What a key of the index of ticks holds after a transaction.
    lookup :
        (payload : Bytes) (ix : Indexer db) (x : Transaction) (k : Bytes)
        → lib.transaction payload ≡ some x
        → db.get_cf (index_transaction db lib payload ix).0.storage cf_tx_by_tick k ≡ (
            if bytes_eq (tick_index_key x.tick (next_index db lib x.tick ix)) k
            then some (hash_bytes db lib x)
            else db.get_cf ix.storage cf_tx_by_tick k)
    unfolding index_transaction store_transaction
    lookup payload ix x k parsed =
        let written = write_transaction db lib payload ix x in
        let kept = update_current_stats-Keeps db lib laws count_tx written in
        rw
          (
            parsed,
            laws.get_iterator _ cf_tx_by_tick k,
            laws.get_iterator ix.storage cf_tx_by_tick k,
            kept.hashes,
            write_transaction-hashes db lib laws hex_bytes payload ix x,
          )
          (value_at-set_value _ k (hash_bytes db lib x)
            (db.iterator_cf ix.storage cf_tx_by_tick start))

    last_tick :
        (payload : Bytes) (ix : Indexer db) (x : Transaction)
        → lib.transaction payload ≡ some x
        → (index_transaction db lib payload ix).0.tx_last_tick ≡ x.tick
    unfolding index_transaction store_transaction write_transaction
    last_tick payload ix x parsed =
        let written = write_transaction db lib payload ix x in
        let kept = update_current_stats-Keeps db lib laws count_tx written in rw parsed kept.tick

    -- When a transaction of another tick comes between two transactions of a tick that had none
    -- before, the later one overwrites the earlier one: the tick then lists its hash and no other.
    pub index_transactions-interleaved :
        (ix : Indexer db) (p q r : Bytes) (x y z : Transaction) (i : ℕ)
        → lib.transaction p ≡ some x
        → lib.transaction q ≡ some y
        → lib.transaction r ≡ some z
        → z.tick ≡ x.tick
        → y.tick ≢ x.tick
        → x.tick < 2 ^ 32
        → y.tick < 2 ^ 32
        → ix.tx_last_tick ≢ x.tick
        → i < 2 ^ 32
        → db.get_cf ix.storage cf_tx_by_tick (tick_index_key x.tick i) ≡ none
        → db.get_cf
            (index_transactions db lib (p ∷ q ∷ r ∷ []) ix).storage
            cf_tx_by_tick
            (tick_index_key x.tick i)
          ≡ (if i == 0 then some (hash_bytes db lib z) else none)
    unfolding index_transactions
    index_transactions-interleaved ix p q r x y z i ep eq er back away lx ly fresh_tick li
          none_yet =
        let after_p = (index_transaction db lib p ix).0 in
        let after_q = (index_transaction db lib q after_p).0 in
        let key = tick_index_key x.tick i in
        let first : next_index db lib x.tick ix ≡ 0 =
          fresh db lib laws hex_bytes x.tick ix fresh_tick in
        let again : next_index db lib z.tick after_q ≡ 0 =
          fresh db lib laws hex_bytes z.tick after_q
            (λ e. away (sym (last_tick q after_p y eq) ∙ e ∙ back)) in
        let third : bytes_eq (tick_index_key z.tick (next_index db lib z.tick after_q)) key
            ≡ (0 == i) =
          rw (again, back) (same_tick x.tick 0 i (omega arith) li) in
        let second : bytes_eq (tick_index_key y.tick (next_index db lib y.tick after_p)) key
            ≡ false =
          other_tick y.tick x.tick (next_index db lib y.tick after_p) i ly lx away in
        let one : bytes_eq (tick_index_key x.tick (next_index db lib x.tick ix)) key ≡ (0 == i) =
          rw first (same_tick x.tick 0 i (omega arith) li) in
        lookup r after_q z key er
        ∙ rw (third, lookup q after_p y key eq, second, lookup p ix x key ep, one, none_yet)
            (last_write i _ _)
