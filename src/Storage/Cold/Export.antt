-- ===== src/Storage/Cold/Export.antt =====
-- What the files of an exported epoch hold.
use qonduit.Common.{
  ℕ, zero, suc, ◌+◌, ◌-◌, ◌%◌, ◌^◌, ◌<◌, ◌||◌, ltb, List, [], ◌∷◌, ◌++◌, ◌≡◌, ◌⊎◌, inl, inr, refl,
  Option, none, some, if◌then◌else◌,
}
use qonduit.Bytes.{Bytes, pos, Result, ok, err, panic, invalid_json, ◌>>=◌}
use qonduit.Storage.Keys.Rows.{Row, IsListing, values}
use qonduit.Storage.Database.{Database, IsLawful, cf_tx_by_tick}
use qonduit.Storage.Warm.{get_tick, get_tx, tick_index_key}
use qonduit.Storage.Warm.Scans.{get_tick_range}
use qonduit.Storage.Warm.Valid.{IsValid}
use qonduit.Storage.Warm.ByTick.{get_tx_hashes_for_tick-IsListing}
use qonduit.Storage.Warm.Ticks.{get_tick_range-IsListing}
use qonduit.Storage.Cold.Columns.{
  Column, Column16, HasUnreadable, IsTickRow, IsTransactionRow, Written, Written-parsed,
  Written-append,
}
use qonduit.Storage.Cold.{
  Json, TickRow, TransactionRow, unwrap_or, tick_row, tick_rows, export_ticks, transaction_row,
  transaction_rows, rows_of_ticks, export_transactions, export_epoch,
}

module _ (db : Database) (json : Json) where
  column-Column : {A : Type 0} (a : A) (o : Option A) → Column a o (unwrap_or a o)
  column-Column a none = refl
  column-Column a (some b) = refl

  column-Column16 : (o : Option ℕ) → Column16 o (unwrap_or 0 o % 2 ^ 16)
  column-Column16 none = refl
  column-Column16 (some n) = refl

  tick_row-IsTickRow :
      (e : Row) (v : json.Value)
      → json.value e.1 ≡ some v
      → IsTickRow json e (tick_row db json e.0 e.1 v)
  unfolding tick_row
  tick_row-IsTickRow e v reads = record {
    parsed = v;
    parses = reads;
    tick = refl;
    epoch = column-Column16 (json.epoch v);
    timestamp = column-Column 0 (json.timestamp v);
    transaction_count = column-Column16 (json.transaction_count v);
    data_json = refl;
  }

  transaction_row-IsTransactionRow :
      (e : Row) (v : json.Value)
      → json.value e.1 ≡ some v
      → IsTransactionRow json e (transaction_row db json e.0 e.1 v)
  unfolding transaction_row
  transaction_row-IsTransactionRow e v reads = record {
    parsed = v;
    parses = reads;
    tick = refl;
    input_type = column-Column16 (json.input_type v);
    source = column-Column [] (json.source_hex v);
    destination = column-Column [] (json.destination_hex v);
    amount = column-Column (pos 0) (json.amount v);
    data_json = refl;
  }

  tick_rows-Written : (es : List Row) → Written json (IsTickRow json) es (tick_rows db json es)
  unfolding tick_rows
  tick_rows-Written [] = tt
  tick_rows-Written ((t, bytes) ∷ es) =
      Written-parsed json (IsTickRow json) (t, bytes) es (tick_row db json t bytes)
        (tick_rows db json es) (json.value bytes) (λ v e. tick_row-IsTickRow (t, bytes) v e) refl
        (tick_rows-Written es)

  -- The stored ones among the transactions of a tick.
  abbrev pub stored_at : db.Store → ℕ → List Bytes → List Row
  stored_at s t [] = []
  stored_at s t (hash ∷ hashes) = elim (get_tx db hash s) [
    | none ↦ stored_at s t hashes
    | some bytes ↦ (t, bytes) ∷ stored_at s t hashes
  ]

  -- One more hash in front, with what is stored for it.
  Written-stored :
      (t : ℕ) (es : List Row) (rest : Result (List TransactionRow)) (o : Option Bytes)
      → Written json (IsTransactionRow json) es rest
      → Written json
          (IsTransactionRow json)
          (elim o [ none ↦ es | some bytes ↦ (t, bytes) ∷ es ])
          (elim o [
            | none ↦ rest
            | some bytes ↦ elim (json.value bytes) [
              | none ↦ err invalid_json
              | some v ↦ (rest >>= λ rows. ok (transaction_row db json t bytes v ∷ rows))
            ]
          ])
  Written-stored t es rest none h = h
  Written-stored t es rest (some bytes) h =
      Written-parsed json (IsTransactionRow json) (t, bytes) es (transaction_row db json t bytes)
        rest (json.value bytes) (λ v e. transaction_row-IsTransactionRow (t, bytes) v e) refl h

  transaction_rows-Written :
      (s : db.Store) (t : ℕ) (hashes : List Bytes)
      → Written json
          (IsTransactionRow json)
          (stored_at s t hashes)
          (transaction_rows db json t hashes s)
  unfolding transaction_rows
  transaction_rows-Written s t [] = tt
  transaction_rows-Written s t (hash ∷ hashes) =
      Written-stored t (stored_at s t hashes) (transaction_rows db json t hashes s)
        (get_tx db hash s) (transaction_rows-Written s t hashes)

module _ (db : Database) (laws : IsLawful db) (json : Json) (s : db.Store) where
  -- The stored transactions of n ticks from t on, those of a tick by ascending index.
  abbrev pub StoredIn : ℕ → ℕ → List Row → Type 0
  StoredIn zero t es = es ≡ []
  StoredIn (suc n) t es =
      (rs : List Row) × IsListing (λ i. db.get_cf s cf_tx_by_tick (tick_index_key t i)) (2 ^ 32) rs
      × ((later : List Row) × StoredIn n (t + 1) later
          × (es ≡ stored_at db json s t (values rs) ++ later))

  rows_of_ticks-Written :
      (n t : ℕ)
      → IsValid db s
      → (es : List Row) × StoredIn n t es
        × Written json (IsTransactionRow json) es (rows_of_ticks db json n t s)
  unfolding rows_of_ticks
  rows_of_ticks-Written zero t valid = ([], refl, tt)
  rows_of_ticks-Written (suc n) t valid =
      let (rs, listing, hashes) = get_tx_hashes_for_tick-IsListing db laws s t valid in
      let (later, stored, written) = rows_of_ticks-Written n (t + 1) valid in
      let here = stored_at db json s t (values rs) in
      (
        here ++ later,
        (rs, listing, (later, stored, refl)),
        rw hashes (
            Written-append json (IsTransactionRow json) here later _ _
              (transaction_rows-Written db json s t (values rs)) written),
      )

  -- Both files, or the error, which comes only from an entry that does not parse.
  abbrev pub EpochWritten :
      List Row → List Row → Result (List TickRow × List TransactionRow) → Type 0
  EpochWritten ts xs (ok (a, b)) =
      Written json (IsTickRow json) ts (ok a) × Written json (IsTransactionRow json) xs (ok b)
  EpochWritten ts xs (err e) = (e ≡ invalid_json) × (HasUnreadable json ts ⊎ HasUnreadable json xs)
  EpochWritten ts xs panic = ⊥

  both-EpochWritten :
      (ts xs : List Row) (a : Result (List TickRow)) (b : Result (List TransactionRow))
      → Written json (IsTickRow json) ts a
      → Written json (IsTransactionRow json) xs b
      → EpochWritten ts xs (a >>= λ ticks. b >>= λ transactions. ok (ticks, transactions))
  both-EpochWritten ts xs (ok a) (ok b) h k = (h, k)
  both-EpochWritten ts xs (ok a) (err e) h (which, bad) = (which, inr bad)
  both-EpochWritten ts xs (ok a) panic h k = absurd k
  both-EpochWritten ts xs (err e) b (which, bad) k = (which, inl bad)
  both-EpochWritten ts xs panic b h k = absurd h

  -- The export of an epoch has a row for every stored tick of the range, in ascending order, and,
  -- tick by tick, a row for each listed transaction that is stored, by ascending index. Each row has
  -- the tick and the text of its entry and, column by column, the fields of the parsed value, with
  -- a default where one is missing. The export fails only if an entry does not parse, and does not
  -- panic.
  pub export_epoch-EpochWritten :
      (first last : ℕ)
      → first < 2 ^ 32
      → IsValid db s
      → (ts : List Row) × IsListing
          (λ t. if ltb t first || ltb last t then none else get_tick db t s)
          (2 ^ 32)
          ts
        × ((xs : List Row) × StoredIn (last + 1 - first) first xs
            × EpochWritten ts xs (export_epoch db json first last s))
  unfolding export_epoch export_ticks export_transactions
  export_epoch-EpochWritten first last lt valid =
      let ts = get_tick_range db first last s in
      let (xs, stored, written) = rows_of_ticks-Written (last + 1 - first) first valid in
      (
        ts,
        get_tick_range-IsListing db laws s first last lt valid,
        (xs, stored, both-EpochWritten ts xs _ _ (tick_rows-Written db json ts) written),
      )
