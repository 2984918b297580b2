-- ===== src/Storage/Warm/History.antt =====
-- The pages of an entity's history, of all ticks or of one epoch.
use qonduit.Common.{
  ℕ, ◌+◌, ◌*◌, ◌/◌, ◌%◌, ◌^◌, ◌<◌, ◌≡◌, sym, ap, ◌∙◌, List, [], ◌∷◌, ◌++◌, map, length, take, drop,
  Option, none, some, arith, Bool-cases, inl, inr, All,
}
use qonduit.Bytes.{Bytes, to_be, from_be}
use qonduit.Core.Epochs.{EpochRange, get_epoch_range}
use qonduit.Storage.Keys.{Entry, with_prefix, scan_prefix, from_key, before}
use qonduit.Storage.Keys.Ranges.{scan_prefix-from_key}
use qonduit.Storage.Keys.Rows.{Row, IsListing, rows}
use qonduit.Storage.Keys.Windows.{rows_from}
use qonduit.Storage.Database.{cf_tx_by_entity, start, forward, Database, IsLawful}
use qonduit.Storage.Warm.Scans.{history, get_entity_history}
use qonduit.Storage.Warm.Valid.{IsValid}
use qonduit.Storage.Warm.ByEntity.{hash_at, two_words, entity_keys, entity_rows-IsListing}
use qonduit.Storage.Warm.ByTick.{first_keys}
use qonduit.Storage.Keys.Within.{scan_prefix-within}
use qonduit.Storage.Warm.Pages.{
  ticks_to, rows_of_range, rows_of, InBounds, get_epoch_range-InBounds, entity_row, present, page,
  page-nil, window, history-page,
}

All-from_key {ℓ} :
    (P : Entry → Type ℓ) (k : Bytes) (es : List Entry) → All P es → All P (from_key k es)
unfolding from_key
All-from_key P k [] h = tt
All-from_key P k ((j, v) ∷ es) (h, hs) = elim (Bool-cases (before j k)) [
  | inl early ↦ rw early (All-from_key P k es hs)
  | inr found ↦ rw found (h, hs)
]

first_key : (t : ℕ) → to_be 4 t ++ to_be 4 0 ≡ to_be 8 (t * 2 ^ 32)
first_key t =
    let high : t * 2 ^ 32 / 2 ^ 32 ≡ t = omega arith in
    let low : t * 2 ^ 32 % 2 ^ 32 ≡ 0 = omega arith in
    ap (λ n. to_be 4 n ++ to_be 4 0) (sym high)
    ∙ ap (λ n. to_be 4 (t * 2 ^ 32 / 2 ^ 32) ++ to_be 4 n) (sym low)
    ∙ two_words (t * 2 ^ 32)

module _ (db : Database) (laws : IsLawful db) (s : db.Store) (entity : Bytes) where
  module _ (array : length entity ≡ 32) (valid : IsValid db s) where
    entries : List Entry
    entries = db.iterator_cf s cf_tx_by_entity start

    page-from_key :
        (upper : Option ℕ) (k : Bytes) (o l : ℕ)
        → history db s entity upper o l (db.iterator_cf s cf_tx_by_entity (forward k))
          ≡ page db s
              (ticks_to upper (map entity_row (scan_prefix 40 entity (from_key k entries))))
              o
              l
    unfolding window entries
    page-from_key upper k o l = rw (laws.from_forward s cf_tx_by_entity k) (
        history-page db s entity upper (from_key k (db.iterator_cf s cf_tx_by_entity start))
          (All-from_key _ k (db.iterator_cf s cf_tx_by_entity start) (valid cf_tx_by_entity)) o l)

    all_rows :
        map entity_row (scan_prefix 40 entity (from_key entity entries)) ≡ rows entity entries
    unfolding entries rows
    all_rows =
        let es = db.iterator_cf s cf_tx_by_entity start in
        let scan =
          scan_prefix-from_key 40 entity es (first_keys 40 es (valid cf_tx_by_entity))
            (laws.sorted s cf_tx_by_entity) in
        ap (map entity_row) scan
        ∙ ap (λ n. map (λ e. (from_be (drop n e.0), e.1)) (with_prefix entity es)) (sym array)

    later_rows :
        (a : ℕ)
        → a < 2 ^ 64
        → map entity_row (scan_prefix 40 entity (from_key (entity ++ to_be 8 a) entries))
          ≡ rows_from a (rows entity entries)
    unfolding entries
    later_rows a lt =
        let es = db.iterator_cf s cf_tx_by_entity start in
        let size : length entity + 8 ≡ 40 = omega arith in
        ap
          (λ m.
            map (λ e. (from_be (drop m e.0), e.1))
              (scan_prefix 40 entity (from_key (entity ++ to_be 8 a) es)))
          (sym array)
        ∙ ap
            (λ n.
              map (λ e. (from_be (drop (length entity) e.0), e.1))
                (scan_prefix n entity (from_key (entity ++ to_be 8 a) es)))
            (sym size)
        ∙ scan_prefix-within entity 8 a lt es (entity_keys db s entity array valid)
            (laws.sorted s cf_tx_by_entity)

    of_range :
        (r : Option EpochRange) (o l : ℕ)
        → InBounds r
        → (elim r [
          | none ↦ []
          | some range ↦ history db s entity (some range.last_tick) o l (
              db.iterator_cf s cf_tx_by_entity
                (forward (entity ++ (to_be 4 range.first_tick ++ to_be 4 0))))
        ])
          ≡ page db s (rows_of_range r (rows entity entries)) o l
    unfolding rows_of_range
    of_range none o l h = sym (page-nil db s o l)
    of_range (some r) o l h =
        let key : to_be 4 r.first_tick ++ to_be 4 0 ≡ to_be 8 (r.first_tick * 2 ^ 32) =
          first_key r.first_tick in
        rw (
          key,
          page-from_key (some r.last_tick) (entity ++ to_be 8 (r.first_tick * 2 ^ 32)) o l,
          later_rows (r.first_tick * 2 ^ 32) (omega arith),
        )

    -- A page of an entity's history are the transactions of its rows, of all ticks or of the ticks
    -- of one epoch, in ascending order: `offset` rows are left out, whether their transaction is
    -- stored or not, and then come the next ones that are, `limit` of them at most.
    pub get_entity_history-IsListing :
        (ranges : List EpochRange)
        → All (λ r. r.first_tick < 2 ^ 32) ranges
        → (epoch : Option ℕ) (offset limit : ℕ)
        → (rs : List Row) × IsListing (hash_at db s entity) (2 ^ 64) rs
          × (get_entity_history db ranges entity epoch offset limit s
              ≡ take limit (present db s (drop offset (rows_of ranges epoch rs))))
    unfolding rows_of get_entity_history ticks_to entries
    get_entity_history-IsListing ranges h none offset limit =
        let es = db.iterator_cf s cf_tx_by_entity start in
        (
          rows entity es,
          entity_rows-IsListing db laws s entity array valid,
          rw (page-from_key none entity offset limit, all_rows),
        )
    get_entity_history-IsListing ranges h (some epoch) offset limit =
        let es = db.iterator_cf s cf_tx_by_entity start in
        (
          rows entity es,
          entity_rows-IsListing db laws s entity array valid,
          of_range (get_epoch_range ranges epoch) offset limit
              (get_epoch_range-InBounds ranges epoch h),
        )
