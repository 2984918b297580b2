-- ===== src/Storage/Warm/ByEntity.antt =====
-- The reads of what is stored under an entity: its transaction hashes, the latest first, and their
-- count.
use qonduit.Common.{
  map-map, map-reverse, map-take, All-reverse, ℕ, ◌+◌, ◌/◌, ◌%◌, ◌^◌, ◌≡◌, sym, ap, ◌∙◌, List, ◌++◌,
  map, reverse, length, take, Option, arith, All-take, length-map,
}
use qonduit.Bytes.{Bytes, ok, to_be}
use qonduit.Storage.Keys.{Entry, from_key, up_to_key, with_prefix, scan_prefix, KeysOf}
use qonduit.Storage.Keys.Ranges.{scan_prefix-from_key}
use qonduit.Storage.Keys.Rows.{
  Row, IsListing, values, rows, rows-ascending, rows-below, row_at-rows,
}
use qonduit.Storage.Keys.Backward.{top, scan_prefix-backward}
use qonduit.Storage.Database.{cf_tx_by_entity, start, forward, backward, Database, IsLawful}
use qonduit.Storage.Warm.{entity_tx_key}
use qonduit.Storage.Warm.Scans.{copy_hashes, get_tx_hashes_for_entity, count_entity_transactions}
use qonduit.Storage.Warm.Valid.{IsValid}
use qonduit.Storage.Warm.ByTick.{copy_hashes-ok, first_keys, with_prefix-All}

-- The number of a transaction within its entity: the tick above its index.
abbrev pub hash_at : (db : Database) → db.Store → Bytes → ℕ → Option Bytes
hash_at db s entity i = db.get_cf s cf_tx_by_entity (entity_tx_key entity (i / 2 ^ 32) (i % 2 ^ 32))

pub two_words : (i : ℕ) → to_be 4 (i / 2 ^ 32) ++ to_be 4 (i % 2 ^ 32) ≡ to_be 8 i
unfolding to_be
two_words i =
    let a : i / 2 ^ 32 / 2 ^ 24 ≡ i / 2 ^ 56 = omega arith in
    let b : i / 2 ^ 32 / 2 ^ 16 ≡ i / 2 ^ 48 = omega arith in
    let c : i / 2 ^ 32 / 2 ^ 8 ≡ i / 2 ^ 40 = omega arith in
    let d : i / 2 ^ 32 / 1 ≡ i / 2 ^ 32 = omega arith in
    let e : i % 2 ^ 32 / 2 ^ 24 % 256 ≡ i / 2 ^ 24 % 256 = omega arith in
    let f : i % 2 ^ 32 / 2 ^ 16 % 256 ≡ i / 2 ^ 16 % 256 = omega arith in
    let g : i % 2 ^ 32 / 2 ^ 8 % 256 ≡ i / 2 ^ 8 % 256 = omega arith in
    let h : i % 2 ^ 32 / 1 % 256 ≡ i / 1 % 256 = omega arith in rw (a, b, c, d, e, f, g, h)

values-with_prefix :
    (p : Bytes) (es : List Entry) → map (λ e. e.1) (with_prefix p es) ≡ values (rows p es)
unfolding rows
values-with_prefix p es = sym (map-map (λ r. r.1) _ (with_prefix p es))

pub entity_keys :
    (db : Database) (s : db.Store) (entity : Bytes)
    → length entity ≡ 32
    → IsValid db s
    → KeysOf (length entity + 8) (db.iterator_cf s cf_tx_by_entity start)
entity_keys db s entity array valid =
    rw array (first_keys 40 (db.iterator_cf s cf_tx_by_entity start) (valid cf_tx_by_entity))

module _ (db : Database) (laws : IsLawful db) (s : db.Store) (entity : Bytes) where
  module _ (array : length entity ≡ 32) (valid : IsValid db s) where
    pub entity_rows-IsListing :
        IsListing
          (hash_at db s entity)
          (2 ^ 64)
          (rows entity (db.iterator_cf s cf_tx_by_entity start))
    entity_rows-IsListing =
        let es = db.iterator_cf s cf_tx_by_entity start in
        let keys = entity_keys db s entity array valid in
        record {
          in_order = rows-ascending entity 8 es keys (laws.sorted s cf_tx_by_entity);
          below = rows-below entity 8 es keys;
          complete = λ i lt.
              row_at-rows entity 8 i es lt keys
              ∙ sym (laws.get_iterator s cf_tx_by_entity (entity ++ to_be 8 i))
              ∙ ap (λ k. db.get_cf s cf_tx_by_entity (entity ++ k)) (sym (two_words i));
        }

    -- The transaction hashes of an entity are the last ones stored for it, by tick and then index,
    -- the latest first and no more than the limit, and the copying does not panic; the count is
    -- that of all of them.
    pub get_tx_hashes_for_entity-IsListing :
        (limit : ℕ)
        → (rs : List Row) × IsListing (hash_at db s entity) (2 ^ 64) rs
          × (get_tx_hashes_for_entity db entity limit s ≡ ok (take limit (reverse (values rs))))
          × (count_entity_transactions db entity s ≡ length rs)
    unfolding get_tx_hashes_for_entity count_entity_transactions
    get_tx_hashes_for_entity-IsListing limit =
        let es = db.iterator_cf s cf_tx_by_entity start in
        let keys = entity_keys db s entity array valid in
        let size : length entity + 8 ≡ 40 = omega arith in
        let sorted = laws.sorted s cf_tx_by_entity in
        let backwards : scan_prefix 40 entity
              (db.iterator_cf s cf_tx_by_entity (backward (entity ++ top 8)))
            ≡ reverse (with_prefix entity es) =
          ap (scan_prefix 40 entity) (laws.from_backward s cf_tx_by_entity (entity ++ top 8))
          ∙ ap (λ n. scan_prefix n entity (reverse (up_to_key (entity ++ top 8) es))) (sym size)
          ∙ scan_prefix-backward entity 8 es keys sorted in
        let forwards : scan_prefix 40 entity (db.iterator_cf s cf_tx_by_entity (forward entity))
            ≡ with_prefix entity es =
          ap (scan_prefix 40 entity) (laws.from_forward s cf_tx_by_entity entity)
          ∙ ap (λ n. scan_prefix n entity (from_key entity es)) (sym size)
          ∙ scan_prefix-from_key (length entity + 8) entity es keys sorted in
        let counted : length (with_prefix entity es) ≡ length (rows entity es) =
          unfold rows in sym (length-map _ (with_prefix entity es)) in
        let good = with_prefix-All _ entity es (valid cf_tx_by_entity) in
        let last = reverse (with_prefix entity es) in
        let copied : copy_hashes (take limit last)
            ≡ ok (take limit (reverse (values (rows entity es)))) =
          copy_hashes-ok 40 (take limit last)
            (All-take _ limit last (All-reverse _ (with_prefix entity es) good))
          ∙ ap ok (
              map-take (λ e. e.1) limit last
              ∙ ap (take limit) (
                  map-reverse (λ e. e.1) (with_prefix entity es)
                  ∙ ap reverse (values-with_prefix entity es))) in
        (
          rows entity es,
          entity_rows-IsListing,
          ap (λ es. copy_hashes (take limit es)) backwards ∙ copied,
          ap length forwards ∙ counted,
        )
