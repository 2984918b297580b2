-- ===== src/Storage/Cold/Columns.antt =====
-- What the rows of the exported files hold: column by column, the fields of the stored entries.
use qonduit.Common.{ℕ, ◌%◌, ◌^◌, List, [], ◌∷◌, ◌++◌, ◌≡◌, ◌⊎◌, inl, inr, refl, Option, none, some}
use qonduit.Bytes.{pos, Result, ok, err, panic, invalid_json, ◌>>=◌}
use qonduit.Storage.Keys.Rows.{Row}
use qonduit.Storage.Cold.{Json, TickRow, TransactionRow}

-- A column: the field of the parsed value, or a default where the value has no such field.
abbrev pub Column : {A : Type 0} → A → Option A → A → Type 0
Column default none column = column ≡ default
Column default (some field) column = column ≡ field

-- The column of a field that is cut to 16 bits.
abbrev pub Column16 : Option ℕ → ℕ → Type 0
Column16 none column = column ≡ 0
Column16 (some field) column = column ≡ field % 2 ^ 16

module _ (json : Json) where
  -- An entry does not parse.
  abbrev pub HasUnreadable : List Row → Type 0
  HasUnreadable [] = ⊥
  HasUnreadable (r ∷ rs) = (json.value r.1 ≡ none) ⊎ HasUnreadable rs

  -- The columns of the row of a stored tick.
  pub record IsTickRow (entry : Row) (row : TickRow) : Type 0 where
    pub parsed : json.Value
    pub parses : json.value entry.1 ≡ some parsed
    pub tick : row.tick ≡ entry.0
    pub epoch : Column16 (json.epoch parsed) row.epoch
    pub timestamp : Column 0 (json.timestamp parsed) row.timestamp
    pub transaction_count : Column16 (json.transaction_count parsed) row.transaction_count
    pub data_json : row.data_json ≡ json.from_utf8_lossy entry.1

  -- The columns of the row of a transaction that is listed at a tick.
  pub record IsTransactionRow (entry : Row) (row : TransactionRow) : Type 0 where
    pub parsed : json.Value
    pub parses : json.value entry.1 ≡ some parsed
    pub tick : row.tick ≡ entry.0
    pub input_type : Column16 (json.input_type parsed) row.input_type
    pub source : Column [] (json.source_hex parsed) row.source
    pub destination : Column [] (json.destination_hex parsed) row.destination
    pub amount : Column (pos 0) (json.amount parsed) row.amount
    pub data_json : row.data_json ≡ json.from_utf8_lossy entry.1

  -- One row for each entry, in their order.
  abbrev pub Matches : {R : Type 0} → (Row → R → Type 0) → List Row → List R → Type 0
  Matches Is [] [] = Unit
  Matches Is [] (row ∷ rows) = ⊥
  Matches Is (e ∷ es) [] = ⊥
  Matches Is (e ∷ es) (row ∷ rows) = Is e row × Matches Is es rows

  -- Every entry parses and has its row, in their order; or an entry does not parse.
  abbrev pub Written : {R : Type 0} → (Row → R → Type 0) → List Row → Result (List R) → Type 0
  Written Is es (ok rows) = Matches Is es rows
  Written Is es (err e) = (e ≡ invalid_json) × HasUnreadable es
  Written Is es panic = ⊥

  HasUnreadable-append :
      (xs ys : List Row) → HasUnreadable xs ⊎ HasUnreadable ys → HasUnreadable (xs ++ ys)
  HasUnreadable-append [] ys (inl h) = absurd h
  HasUnreadable-append [] ys (inr h) = h
  HasUnreadable-append (x ∷ xs) ys (inl (inl h)) = inl h
  HasUnreadable-append (x ∷ xs) ys (inl (inr h)) = inr (HasUnreadable-append xs ys (inl h))
  HasUnreadable-append (x ∷ xs) ys (inr h) = inr (HasUnreadable-append xs ys (inr h))

  -- One more row in front.
  Written-cons :
      {R : Type 0} (Is : Row → R → Type 0) (e : Row) (es : List Row) (row : R)
      (rest : Result (List R))
      → Is e row
      → Written Is es rest
      → Written Is (e ∷ es) (rest >>= λ rows. ok (row ∷ rows))
  Written-cons Is e es row (ok rows) here h = (here, h)
  Written-cons Is e es row (err x) here (which, bad) = (which, inr bad)
  Written-cons Is e es row panic here h = absurd h

  -- One more entry in front, with what its text parses to.
  pub Written-parsed :
      {R : Type 0} (Is : Row → R → Type 0) (e : Row) (es : List Row) (row : json.Value → R)
      (rest : Result (List R)) (o : Option json.Value)
      → ((v : json.Value) → json.value e.1 ≡ some v → Is e (row v))
      → json.value e.1 ≡ o
      → Written Is es rest
      → Written Is
          (e ∷ es)
          (elim o [ none ↦ err invalid_json | some v ↦ (rest >>= λ rows. ok (row v ∷ rows)) ])
  Written-parsed Is e es row rest none here parsed h = (refl, inl parsed)
  Written-parsed Is e es row rest (some v) here parsed h =
      Written-cons Is e es (row v) rest (here v parsed) h

  Matches-append :
      {R : Type 0} (Is : Row → R → Type 0) (xs ys : List Row) (rows more : List R)
      → Matches Is xs rows
      → Matches Is ys more
      → Matches Is (xs ++ ys) (rows ++ more)
  Matches-append Is [] ys [] more h k = k
  Matches-append Is [] ys (r ∷ rows) more h k = absurd h
  Matches-append Is (x ∷ xs) ys [] more h k = absurd h
  Matches-append Is (x ∷ xs) ys (r ∷ rows) more (h, hs) k =
      (h, Matches-append Is xs ys rows more hs k)

  pub Written-append :
      {R : Type 0} (Is : Row → R → Type 0) (xs ys : List Row) (first rest : Result (List R))
      → Written Is xs first
      → Written Is ys rest
      → Written Is (xs ++ ys) (first >>= λ rows. rest >>= λ more. ok (rows ++ more))
  Written-append Is xs ys (ok rows) (ok more) h k = Matches-append Is xs ys rows more h k
  Written-append Is xs ys (ok rows) (err x) h (which, bad) =
      (which, HasUnreadable-append xs ys (inr bad))
  Written-append Is xs ys (ok rows) panic h k = absurd k
  Written-append Is xs ys (err x) rest (which, bad) k =
      (which, HasUnreadable-append xs ys (inl bad))
  Written-append Is xs ys panic rest h k = absurd h
