-- ===== src/Storage/Cold.antt =====
-- crates/storage/src/cold.rs: the rows that the export of an epoch writes. A file is the list of its
-- rows, and an empty one is not written; the directories, the Parquet format and its compression are
-- left out. serde_json and the conversion of bytes to text are parameters.
pub mod Columns
pub mod Export
use qonduit.Common.{ℕ, zero, suc, ◌+◌, ◌-◌, ◌%◌, ◌^◌, List, [], ◌∷◌, ◌++◌, Option, none, some}
use qonduit.Bytes.{Bytes, ℤ, pos, Result, ok, err, invalid_json, ◌>>=◌}
use qonduit.Storage.Database.{Database}
use qonduit.Storage.Warm.{get_tx}
use qonduit.Storage.Warm.Scans.{get_tick_range, get_tx_hashes_for_tick}

pub record Json : Type 1 where
  pub Value : Type 0
  pub value : Bytes → Option Value
  pub epoch : Value → Option ℕ
  pub timestamp : Value → Option ℕ
  pub transaction_count : Value → Option ℕ
  pub input_type : Value → Option ℕ
  pub source_hex : Value → Option Bytes
  pub destination_hex : Value → Option Bytes
  pub amount : Value → Option ℤ
  pub from_utf8_lossy : Bytes → Bytes

pub record TickRow : Type 0 where
  pub tick : ℕ
  pub epoch : ℕ
  pub timestamp : ℕ
  pub transaction_count : ℕ
  pub data_json : Bytes

pub record TransactionRow : Type 0 where
  pub tick : ℕ
  pub input_type : ℕ
  pub source : Bytes
  pub destination : Bytes
  pub amount : ℤ
  pub data_json : Bytes

abbrev pub unwrap_or {ℓ} : {A : Type ℓ} → A → Option A → A
unwrap_or a none = a
unwrap_or a (some b) = b

module _ (db : Database) (json : Json) where
  unfoldable pub tick_row : ℕ → Bytes → json.Value → TickRow
  tick_row tick bytes v = record {
    tick = tick;
    epoch = unwrap_or 0 (json.epoch v) % 2 ^ 16;
    timestamp = unwrap_or 0 (json.timestamp v);
    transaction_count = unwrap_or 0 (json.transaction_count v) % 2 ^ 16;
    data_json = json.from_utf8_lossy bytes;
  }

  -- The loop of `export_ticks`; a tick that does not parse ends it with an error.
  unfoldable pub tick_rows : List (ℕ × Bytes) → Result (List TickRow)
  tick_rows [] = ok []
  tick_rows ((tick, bytes) ∷ ticks) =
      let rest = tick_rows ticks in
      elim (json.value bytes) [
        | none ↦ err invalid_json
        | some v ↦ (do rows ← rest; ok (tick_row tick bytes v ∷ rows))
      ]

  unfoldable pub export_ticks : ℕ → ℕ → db.Store → Result (List TickRow)
  export_ticks first last s = tick_rows (get_tick_range db first last s)

  unfoldable pub transaction_row : ℕ → Bytes → json.Value → TransactionRow
  transaction_row tick bytes v = record {
    tick = tick;
    input_type = unwrap_or 0 (json.input_type v) % 2 ^ 16;
    source = unwrap_or [] (json.source_hex v);
    destination = unwrap_or [] (json.destination_hex v);
    amount = unwrap_or (pos 0) (json.amount v);
    data_json = json.from_utf8_lossy bytes;
  }

  -- The loop over the hashes of a tick; transactions that are not stored are passed over.
  unfoldable pub transaction_rows : ℕ → List Bytes → db.Store → Result (List TransactionRow)
  transaction_rows tick [] s = ok []
  transaction_rows tick (hash ∷ hashes) s =
      let rest = transaction_rows tick hashes s in
      elim (get_tx db hash s) [
        | none ↦ rest
        | some bytes ↦ elim (json.value bytes) [
          | none ↦ err invalid_json
          | some v ↦ (do rows ← rest; ok (transaction_row tick bytes v ∷ rows))
        ]
      ]

  -- The loop over `n` ticks from one on.
  unfoldable pub rows_of_ticks : ℕ → ℕ → db.Store → Result (List TransactionRow)
  rows_of_ticks zero tick s = ok []
  rows_of_ticks (suc n) tick s =
      let rest = rows_of_ticks n (tick + 1) s in
      do
        hashes ← get_tx_hashes_for_tick db tick s
        rows ← transaction_rows tick hashes s
        more ← rest
        ok (rows ++ more)

  unfoldable pub export_transactions : ℕ → ℕ → db.Store → Result (List TransactionRow)
  export_transactions first last s = rows_of_ticks (last + 1 - first) first s

  -- The rows of both files.
  unfoldable pub export_epoch : ℕ → ℕ → db.Store → Result (List TickRow × List TransactionRow)
  export_epoch first last s = do
    ticks ← export_ticks first last s
    transactions ← export_transactions first last s
    ok (ticks, transactions)
