-- ===== src/Processor/Indexer/Stats.antt =====
-- The statistics of an epoch after its ticks are indexed.
use qonduit.Common.{
  ℕ, ◌+◌, ◌≤◌, ◌≡◌, refl, sym, ap, ◌∙◌, List, [], ◌∷◌, ◌++◌, false, not, ◌&&◌, ◌==◌, ltb, arith,
  Option, none, some, Bool-cases, inl, inr, All,
}
use qonduit.Bytes.{Bytes, to_be}
use qonduit.Core.Identity.Digits.{bytes_eq_iff}
use qonduit.Core.Pipeline.{EpochStats}
use qonduit.Ingestion.Decoders.Tick.{TickData}
use qonduit.Storage.Keys.{value_at}
use qonduit.Storage.Keys.Order.{value_at-set_value}
use qonduit.Storage.Database.{cf_epoch_stats, start, after_writes, Database, IsLawful}
use qonduit.Storage.Warm.{get_epoch_stats, put_epoch_stats, batch_put_tick, batch_write}
use qonduit.Processor.Parsers.{External}
use qonduit.Processor.Indexer.{
  Indexer, count_tick, stats_of, save_stats, update_epoch_stats, export_previous, write_tick,
  store_tick, index_tick,
}
use qonduit.Processor.Indexer.Summaries.{
  summary, count_ticks, count_ticks-append, count_ticks-summary,
}

module _ (db : Database) (lib : External) where
  -- The tick of the payload alone, if it parses.
  unfoldable pub tick_in : Option TickData → List ℕ
  tick_in none = []
  tick_in (some d) = d.tick ∷ []

  unfoldable pub ticks_of : List Bytes → List ℕ
  ticks_of [] = []
  ticks_of (payload ∷ payloads) = tick_in (lib.tick_data payload) ++ ticks_of payloads

  unfoldable pub index_ticks : List Bytes → Indexer db → Indexer db
  index_ticks [] ix = ix
  index_ticks (payload ∷ payloads) ix = index_ticks payloads (index_tick db lib payload ix).0

  -- The payload is a tick of the epoch, if it parses.
  abbrev pub InEpoch : ℕ → Option TickData → Type 0
  InEpoch e none = Unit
  InEpoch e (some d) = d.epoch ≡ e

  -- The statistics in the store.
  unfoldable pub stats_at : ℕ → Indexer db → EpochStats
  stats_at e ix = stats_of db lib e (get_epoch_stats db e ix.storage)

  export_previous-storage :
      (e : ℕ) (ix : Indexer db) → (export_previous db lib e ix).storage ≡ ix.storage
  unfolding export_previous
  export_previous-storage e ix =
      elim (Bool-cases (
        ltb 0 ix.pipeline.indexed_epoch
        && (not (e == ix.pipeline.indexed_epoch) && e == ix.pipeline.indexed_epoch + 1))) [
          | inr stay ↦ rw stay
          | inl next ↦ elim (Bool-cases (ltb 0 ix.pipeline.indexed_tick)) [
            | inl known ↦ rw (next, known)
            | inr unknown ↦ rw (next, unknown)
          ]
        ]

  module _ (laws : IsLawful db) where
    stats_at-write_tick :
        (e : ℕ) (payload : Bytes) (ix : Indexer db) (d : TickData)
        → stats_at e (write_tick db lib payload ix d) ≡ stats_at e ix
    unfolding stats_at write_tick get_epoch_stats batch_write batch_put_tick after_writes
    stats_at-write_tick e payload ix d = ap (stats_of db lib e) (
        laws.get_iterator _ cf_epoch_stats (to_be 2 e)
        ∙ ap (value_at (to_be 2 e)) (laws.after_write _ _ cf_epoch_stats)
        ∙ ap (λ s. value_at (to_be 2 e) (db.iterator_cf s cf_epoch_stats start))
            (export_previous-storage d.epoch ix)
        ∙ sym (laws.get_iterator ix.storage cf_epoch_stats (to_be 2 e)))

    module _
        (printed : (st : EpochStats)
          → (b : Bytes) × (lib.epoch_stats_to_vec st ≡ some b)
            × (lib.epoch_stats b ≡ some st)) where
      get_epoch_stats-put_epoch_stats :
          (e : ℕ) (b : Bytes) (s : db.Store)
          → get_epoch_stats db e (put_epoch_stats db e b s) ≡ some b
      unfolding get_epoch_stats put_epoch_stats
      get_epoch_stats-put_epoch_stats e b s =
          laws.get_iterator _ cf_epoch_stats (to_be 2 e)
          ∙ ap (value_at (to_be 2 e)) (laws.after_put s cf_epoch_stats cf_epoch_stats (to_be 2 e) b)
          ∙ value_at-set_value (to_be 2 e) (to_be 2 e) b (db.iterator_cf s cf_epoch_stats start)
          ∙ rw ((bytes_eq_iff (to_be 2 e) (to_be 2 e)).1 refl)

      stats_at-update_epoch_stats :
          (e : ℕ) (f : EpochStats → EpochStats) (ix : Indexer db)
          → stats_at e (update_epoch_stats db lib e f ix).0 ≡ f (stats_at e ix)
      unfolding stats_at update_epoch_stats save_stats stats_of
      stats_at-update_epoch_stats e f ix =
          let (b, to, back) = printed (f (stats_of db lib e (get_epoch_stats db e ix.storage))) in
          rw (to, get_epoch_stats-put_epoch_stats e b ix.storage, back)

      store_tick-stats :
          (e : ℕ) (payload : Bytes) (ix : Indexer db) (r : Option TickData)
          → e ≤ 1000
          → InEpoch e r
          → stats_at e (store_tick db lib payload ix r).0 ≡ count_ticks (tick_in r) (stats_at e ix)
      unfolding store_tick count_ticks tick_in
      store_tick-stats e payload ix none le same = refl
      store_tick-stats e payload ix (some d) le same =
          let written = write_tick db lib payload ix d in
          let plausible : ltb 1000 d.epoch ≡ false = ground arith in
          rw plausible (
            ap (λ x. stats_at e (update_epoch_stats db lib x (count_tick d.tick) written).0) same
            ∙ stats_at-update_epoch_stats e (count_tick d.tick) written
            ∙ ap (count_tick d.tick) (stats_at-write_tick e payload ix d))

      index_ticks-stats :
          (e : ℕ) (payloads : List Bytes) (ix : Indexer db)
          → e ≤ 1000
          → All (λ payload. InEpoch e (lib.tick_data payload)) payloads
          → stats_at e (index_ticks payloads ix) ≡ count_ticks (ticks_of payloads) (stats_at e ix)
      unfolding index_ticks ticks_of index_tick count_ticks
      index_ticks-stats e [] ix le h = refl
      index_ticks-stats e (payload ∷ payloads) ix le (h, hs) =
          index_ticks-stats e payloads (store_tick db lib payload ix (lib.tick_data payload)).0 le
            hs
          ∙ ap (count_ticks (ticks_of payloads))
              (store_tick-stats e payload ix (lib.tick_data payload) le h)
          ∙ sym (
              count_ticks-append (tick_in (lib.tick_data payload)) (ticks_of payloads)
                (stats_at e ix))

      -- After ticks of one epoch are indexed, which had no statistics before, those stored for it
      -- have the number of the ticks, as a u32, and the least and the greatest of them, in whatever
      -- order they came.
      pub index_ticks-summary :
          (e : ℕ) (payloads : List Bytes) (ix : Indexer db)
          → e ≤ 1000
          → All (λ payload. InEpoch e (lib.tick_data payload)) payloads
          → get_epoch_stats db e ix.storage ≡ none
          → stats_at e (index_ticks payloads ix) ≡ summary e (ticks_of payloads)
      unfolding stats_of stats_at
      index_ticks-summary e payloads ix le h none_yet =
          index_ticks-stats e payloads ix le h
          ∙ ap (λ r. count_ticks (ticks_of payloads) (stats_of db lib e r)) none_yet
          ∙ count_ticks-summary e (ticks_of payloads)
