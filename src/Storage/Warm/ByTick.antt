-- ===== src/Storage/Warm/ByTick.antt =====
-- The reads of what is stored under a tick: votes, transaction hashes, custom messages, log events.
use qonduit.Common.{
  map-map, ℕ, zero, suc, ◌+◌, ◌^◌, ◌≡◌, refl, sym, ap, ◌∙◌, List, [], ◌∷◌, ◌++◌, map, length, All,
  arith, take, drop, length-drop, length-map, Bool-cases, inl, inr,
}
use qonduit.Bytes.{Bytes, ok, to_be, from_be}
use qonduit.Bytes.Endian.{length-to_be}
use qonduit.Bytes.Slices.{cut}
use qonduit.Storage.Keys.{Entry, has_prefix, with_prefix, KeysOf}
use qonduit.Storage.Keys.Ranges.{scan_prefix-from_key}
use qonduit.Storage.Keys.Rows.{
  Row, IsListing, values, rows, rows-ascending, rows-below, row_at-rows,
}
use qonduit.Storage.Database.{
  Cf, cf_tx_by_tick, cf_custom_message, cf_tick_vote, start, Database, IsLawful,
}
use qonduit.Storage.Warm.{tick_index_key, tick_vote_key}
use qonduit.Storage.Warm.Scans.{
  copy_hashes, of_tick, get_tx_hashes_for_tick, get_custom_messages_for_tick,
  count_custom_messages_for_tick, get_votes_for_tick, count_votes_for_tick,
}
use qonduit.Storage.Warm.Valid.{IsValid}
use qonduit.Storage.Warm.Changes.{IsKey}

take-all : (n : ℕ) (xs : Bytes) → length xs ≡ n → take n xs ≡ xs
take-all zero [] h = refl
take-all zero (x ∷ xs) h = absurd (omega arith)
take-all (suc n) [] h = refl
take-all (suc n) (x ∷ xs) h = ap (λ l. x ∷ l) (take-all n xs (omega arith))

pub with_prefix-All {ℓ} :
    (P : Entry → Type ℓ) (p : Bytes) (es : List Entry) → All P es → All P (with_prefix p es)
unfolding with_prefix
with_prefix-All P p [] a = tt
with_prefix-All P p ((k, v) ∷ es) (a, vs) = elim (Bool-cases (has_prefix p k)) [
  | inl here ↦ rw here (a, with_prefix-All P p es vs)
  | inr other ↦ rw other (with_prefix-All P p es vs)
]

-- Hashes of 32 bytes are copied.
pub copy_hashes-ok :
    (n : ℕ) (es : List Entry)
    → All (λ e. IsKey n e.0 × (length e.1 ≡ 32)) es
    → copy_hashes es ≡ ok (map (λ e. e.1) es)
unfolding copy_hashes
copy_hashes-ok n [] h = refl
copy_hashes-ok n ((k, v) ∷ es) ((l, m), hs) = rw (copy_hashes-ok n es hs) (ground arith)

votes-rows :
    (es : List Entry) (p : Bytes)
    → length p ≡ 4
    → KeysOf 6 es
    → map (λ e. (from_be (cut e.0 4 6), e.1)) (with_prefix p es) ≡ rows p es
unfolding rows with_prefix KeysOf
votes-rows [] p l h = refl
votes-rows ((k, v) ∷ es) p l ((m, b), hs) = elim (Bool-cases (has_prefix p k)) [
  | inl here ↦
      let whole : take 2 (drop 4 k) ≡ drop 4 k =
        take-all 2 (drop 4 k) (omega (arith, length-drop 4 k)) in
      rw (here, whole, l, votes-rows es p l hs)
  | inr other ↦ rw other (votes-rows es p l hs)
]

pub first_keys :
    (n : ℕ) (es : List Entry) → All (λ e. IsKey n e.0 × (length e.1 ≡ 32)) es → KeysOf n es
unfolding KeysOf
first_keys n [] h = tt
first_keys n (e ∷ es) ((k, v), hs) = (k, first_keys n es hs)

module _ (db : Database) (laws : IsLawful db) (s : db.Store) (t : ℕ) where
  abbrev pub entries : Cf → List Entry
  entries cf = db.iterator_cf s cf start

  pub of_tick-with_prefix :
      (n : ℕ) (cf : Cf)
      → KeysOf n (entries cf)
      → of_tick db n cf t s ≡ with_prefix (to_be 4 t) (entries cf)
  of_tick-with_prefix n cf h =
      rw (laws.from_forward s cf (to_be 4 t))
        (scan_prefix-from_key n (to_be 4 t) (entries cf) h (laws.sorted s cf))

  rows-IsListing :
      (n : ℕ) (cf : Cf)
      → KeysOf (4 + n) (entries cf)
      → IsListing
          (λ i. db.get_cf s cf (to_be 4 t ++ to_be n i))
          (256 ^ n)
          (rows (to_be 4 t) (entries cf))
  rows-IsListing n cf h =
      let h' : KeysOf (length (to_be 4 t) + n) (entries cf) = rw (length-to_be 4 t) h in
      record {
        in_order = rows-ascending (to_be 4 t) n (entries cf) h' (laws.sorted s cf);
        below = rows-below (to_be 4 t) n (entries cf) h';
        complete = λ i lt.
            row_at-rows (to_be 4 t) n i (entries cf) lt h'
            ∙ sym (laws.get_iterator s cf (to_be 4 t ++ to_be n i));
      }

  pub values-rows :
      (cf : Cf)
      → map (λ e. e.1) (with_prefix (to_be 4 t) (entries cf))
        ≡ values (rows (to_be 4 t) (entries cf))
  unfolding rows
  values-rows cf = sym (map-map (λ r. r.1) _ (with_prefix (to_be 4 t) (entries cf)))

  module _ (valid : IsValid db s) where
    -- The votes of a tick are listed by ascending computor index, each computor that voted once,
    -- with the vote stored for it, and the count of the votes is the length of the list.
    pub get_votes_for_tick-IsListing :
        IsListing
          (λ i. db.get_cf s cf_tick_vote (tick_vote_key t i))
          (2 ^ 16)
          (get_votes_for_tick db t s)
        × (count_votes_for_tick db t s ≡ length (get_votes_for_tick db t s))
    unfolding get_votes_for_tick count_votes_for_tick
    get_votes_for_tick-IsListing =
        let keys : KeysOf 6 (entries cf_tick_vote) = unfold KeysOf in valid cf_tick_vote in
        (
          rw
              (
                of_tick-with_prefix 6 cf_tick_vote keys,
                votes-rows (entries cf_tick_vote) (to_be 4 t) (length-to_be 4 t) keys,
              )
              (rows-IsListing 2 cf_tick_vote keys),
          sym (length-map _ (of_tick db 6 cf_tick_vote t s)),
        )

    pub get_tx_hashes_for_tick-rows :
        get_tx_hashes_for_tick db t s ≡ ok (values (rows (to_be 4 t) (entries cf_tx_by_tick)))
    unfolding get_tx_hashes_for_tick
    get_tx_hashes_for_tick-rows =
        let keys = first_keys 8 (entries cf_tx_by_tick) (valid cf_tx_by_tick) in
        rw
          (
            of_tick-with_prefix 8 cf_tx_by_tick keys,
            copy_hashes-ok 8 (with_prefix (to_be 4 t) (entries cf_tx_by_tick))
                (with_prefix-All _ (to_be 4 t) (entries cf_tx_by_tick) (valid cf_tx_by_tick)),
          )
          (ap ok (values-rows cf_tx_by_tick))

    -- The transaction hashes of a tick never make the copying panic, and are those of ascending
    -- transaction indices, all below 2^32, all that are stored for the tick and no others.
    pub get_tx_hashes_for_tick-IsListing :
        (rs : List Row) × IsListing
          (λ i. db.get_cf s cf_tx_by_tick (tick_index_key t i))
          (2 ^ 32)
          rs
        × (get_tx_hashes_for_tick db t s ≡ ok (values rs))
    get_tx_hashes_for_tick-IsListing =
        let keys = first_keys 8 (entries cf_tx_by_tick) (valid cf_tx_by_tick) in
        (
          rows (to_be 4 t) (entries cf_tx_by_tick),
          rows-IsListing 4 cf_tx_by_tick keys,
          get_tx_hashes_for_tick-rows,
        )

    -- The custom messages of a tick are those of ascending indices, all that are stored for the
    -- tick, and their count is their number.
    pub get_custom_messages_for_tick-IsListing :
        (rs : List Row) × IsListing
          (λ i. db.get_cf s cf_custom_message (tick_index_key t i))
          (2 ^ 32)
          rs
        × (get_custom_messages_for_tick db t s ≡ values rs)
        × (count_custom_messages_for_tick db t s ≡ length rs)
    unfolding get_custom_messages_for_tick count_custom_messages_for_tick
    get_custom_messages_for_tick-IsListing =
        let keys : KeysOf 8 (entries cf_custom_message) =
          unfold KeysOf in valid cf_custom_message in
        let es = with_prefix (to_be 4 t) (entries cf_custom_message) in
        (
          rows (to_be 4 t) (entries cf_custom_message),
          rows-IsListing 4 cf_custom_message keys,
          rw (of_tick-with_prefix 8 cf_custom_message keys) (values-rows cf_custom_message),
          rw (of_tick-with_prefix 8 cf_custom_message keys) (unfold rows in sym (length-map _ es)),
        )
