-- ===== src/Storage/Warm/Scans.antt =====
-- The reads of crates/storage/src/warm.rs that go through an iterator. A loop over an iterator is a
-- recursion on the list of its items; counters that run up to a limit run down here.
use qonduit.Common.{
  ℕ, zero, suc, List, [], ◌∷◌, ◌++◌, map, Bool, false, not, ◌&&◌, ◌==◌, ltb, length, take, Option,
  none, some, if◌then◌else◌,
}
use qonduit.Bytes.{Bytes, Result, ok, panic, to_be, from_be, ◌>>=◌}
use qonduit.Bytes.Slices.{cut}
use qonduit.Core.Identity.{bytes_eq}
use qonduit.Core.Epochs.{EpochRange, get_epoch_range}
use qonduit.Storage.Keys.{Entry, has_prefix, scan_prefix}
use qonduit.Storage.Database.{
  Cf, cf_tick, cf_tx_by_tick, cf_tx_by_entity, cf_entity, cf_spectrum, cf_asset, cf_computors,
  cf_contract_ipo, cf_custom_message, cf_entity_asset, cf_log_event, cf_tick_vote, cf_oracle,
  cf_epoch_stats, start, end, forward, backward, Database,
}
use qonduit.Storage.Warm.{get_tx}

-- `hash.copy_from_slice(&value)` of 32 bytes, which panics on another length, for each value.
unfoldable pub copy_hashes : List Entry → Result (List Bytes)
copy_hashes [] = ok []
copy_hashes ((k, v) ∷ es) =
    let rest = copy_hashes es in if length v == 32 then (do hs ← rest; ok (v ∷ hs)) else panic

-- The loop of `get_tick_range`.
unfoldable pub collect_ticks : ℕ → List Entry → List (ℕ × Bytes)
collect_ticks to [] = []
collect_ticks to ((k, v) ∷ es) =
    let rest = collect_ticks to es in
    if length k == 4 then (if ltb to (from_be k) then [] else (from_be k, v) ∷ rest) else rest

-- The first entry with a key of `n` bytes, read as a number.
unfoldable pub first_number : ℕ → List Entry → Option (ℕ × Bytes)
first_number n [] = none
first_number n ((k, v) ∷ es) =
    let rest = first_number n es in if length k == n then some (from_be k, v) else rest

-- Up to `limit` entries with keys of `n` bytes; the others are passed over.
unfoldable pub collect_limited : ℕ → ℕ → List Entry → List Entry
collect_limited n limit [] = []
collect_limited n zero (e ∷ es) = []
collect_limited n (suc limit) ((k, v) ∷ es) =
    if length k == n then (k, v) ∷ collect_limited n limit es else collect_limited n (suc limit) es

-- All entries with keys of `n` bytes.
unfoldable pub collect_all : ℕ → List Entry → List Entry
collect_all n [] = []
collect_all n ((k, v) ∷ es) =
    let rest = collect_all n es in if length k == n then (k, v) ∷ rest else rest

-- The key is read as a number.
abbrev pub numbered : Entry → ℕ × Bytes
numbered e = (from_be e.0, e.1)

unfoldable pub beyond : Option ℕ → ℕ → Bool
beyond none tick = false
beyond (some upper) tick = ltb upper tick

-- The loop of `get_holders_for_asset`.
unfoldable pub collect_holders : Bytes → List Entry → List Bytes
collect_holders idx_bytes [] = []
collect_holders idx_bytes ((k, v) ∷ es) =
    let rest = collect_holders idx_bytes es in
    if length k == 36 && bytes_eq (cut k 32 36) idx_bytes then cut k 0 32 ∷ rest else rest

module _ (db : Database) where
  open db use {Store, iterator_cf}

  unfoldable pub get_tick_range : ℕ → ℕ → Store → List (ℕ × Bytes)
  get_tick_range from to s = collect_ticks to (iterator_cf s cf_tick (forward (to_be 4 from)))

  unfoldable pub get_latest_tick : Store → Option ℕ
  get_latest_tick s = elim (first_number 4 (iterator_cf s cf_tick end)) [
    | none ↦ none
    | some (tick, v) ↦ some tick
  ]

  unfoldable pub get_tx_hashes_for_tick : ℕ → Store → Result (List Bytes)
  get_tx_hashes_for_tick tick s =
      copy_hashes
        (scan_prefix 8 (to_be 4 tick) (iterator_cf s cf_tx_by_tick (forward (to_be 4 tick))))

  -- From the last possible key of the entity backwards, up to `limit` hashes.
  unfoldable pub get_tx_hashes_for_entity : Bytes → ℕ → Store → Result (List Bytes)
  get_tx_hashes_for_entity entity limit s =
      let upper : Bytes = entity ++ (255 ∷ 255 ∷ 255 ∷ 255 ∷ 255 ∷ 255 ∷ 255 ∷ 255 ∷ []) in
      copy_hashes
        (take limit (scan_prefix 40 entity (iterator_cf s cf_tx_by_entity (backward upper))))

  -- The loop of `get_entity_history`, with what is left to skip and to collect.
  unfoldable pub history : Store → Bytes → Option ℕ → ℕ → ℕ → List Entry → List (ℕ × Bytes)
  history s entity tick_upper offset limit [] = []
  history s entity tick_upper offset limit ((k, v) ∷ es) =
      let tick = from_be (cut k 32 36) in
      if not (length k == 40 && has_prefix entity k)
      then []
      else if beyond tick_upper tick
      then []
      else if not (length v == 32)
      then history s entity tick_upper offset limit es
      else elim offset [
        | suc o ↦ history s entity tick_upper o limit es
        | zero ↦ elim limit [
          | zero ↦ []
          | suc l ↦ elim (get_tx db v s) [
            | none ↦ history s entity tick_upper zero (suc l) es
            | some bytes ↦ (tick, bytes) ∷ history s entity tick_upper zero l es
          ]
        ]
      ]

  -- `ranges` are the cached epoch ranges.
  unfoldable pub get_entity_history :
      List EpochRange → Bytes → Option ℕ → ℕ → ℕ → Store → List (ℕ × Bytes)
  get_entity_history ranges entity none offset limit s =
      history s entity none offset limit (iterator_cf s cf_tx_by_entity (forward entity))
  get_entity_history ranges entity (some epoch) offset limit s =
      elim (get_epoch_range ranges epoch) [
        | none ↦ []
        | some range ↦ history s entity (some range.last_tick) offset limit (
            iterator_cf s cf_tx_by_entity
              (forward (entity ++ (to_be 4 range.first_tick ++ to_be 4 0))))
      ]

  unfoldable pub count_entity_transactions : Bytes → Store → ℕ
  count_entity_transactions entity s =
      length (scan_prefix 40 entity (iterator_cf s cf_tx_by_entity (forward entity)))

  unfoldable pub get_spectrum_range : Bytes → ℕ → Store → List Entry
  get_spectrum_range first count s =
      collect_limited 32 count (iterator_cf s cf_spectrum (forward first))

  unfoldable pub get_all_assets : ℕ → Store → List (ℕ × Bytes)
  get_all_assets limit s =
      map numbered (collect_limited 4 limit (iterator_cf s cf_asset (forward (0 ∷ 0 ∷ 0 ∷ 0 ∷ []))))

  unfoldable pub get_latest_computors : Store → Option (ℕ × Bytes)
  get_latest_computors s = first_number 2 (iterator_cf s cf_computors end)

  unfoldable pub get_all_contract_ipos : ℕ → Store → List (ℕ × Bytes)
  get_all_contract_ipos limit s =
      map numbered
        (collect_limited 4 limit (iterator_cf s cf_contract_ipo (forward (0 ∷ 0 ∷ 0 ∷ 0 ∷ []))))

  -- The entries of a tick in a column family whose keys have `n` bytes.
  abbrev pub of_tick : ℕ → Cf → ℕ → Store → List Entry
  of_tick n cf tick s = scan_prefix n (to_be 4 tick) (iterator_cf s cf (forward (to_be 4 tick)))

  unfoldable pub count_custom_messages_for_tick : ℕ → Store → ℕ
  count_custom_messages_for_tick tick s = length (of_tick 8 cf_custom_message tick s)

  unfoldable pub get_custom_messages_for_tick : ℕ → Store → List Bytes
  get_custom_messages_for_tick tick s = map (λ e. e.1) (of_tick 8 cf_custom_message tick s)

  unfoldable pub get_all_entity_keys : ℕ → Store → List Bytes
  get_all_entity_keys limit s =
      map (λ e. e.0) (collect_limited 32 limit (iterator_cf s cf_entity start))

  unfoldable pub get_assets_for_entity : Bytes → Store → List ℕ
  get_assets_for_entity entity s =
      map (λ e. from_be (cut e.0 32 36))
        (scan_prefix 36 entity (iterator_cf s cf_entity_asset (forward entity)))

  unfoldable pub get_holders_for_asset : ℕ → Store → List Bytes
  get_holders_for_asset asset_index s =
      collect_holders (to_be 4 asset_index) (iterator_cf s cf_entity_asset start)

  unfoldable pub get_log_events_for_tick : ℕ → Store → List Bytes
  get_log_events_for_tick tick s = map (λ e. e.1) (of_tick 9 cf_log_event tick s)

  unfoldable pub get_votes_for_tick : ℕ → Store → List (ℕ × Bytes)
  get_votes_for_tick tick s =
      map (λ e. (from_be (cut e.0 4 6), e.1)) (of_tick 6 cf_tick_vote tick s)

  unfoldable pub count_votes_for_tick : ℕ → Store → ℕ
  count_votes_for_tick tick s = length (of_tick 6 cf_tick_vote tick s)

  unfoldable pub get_latest_oracle : Store → Option (ℕ × Bytes)
  get_latest_oracle s = first_number 4 (iterator_cf s cf_oracle end)

  unfoldable pub list_epoch_stats : Store → List (ℕ × Bytes)
  list_epoch_stats s = map numbered (collect_all 2 (iterator_cf s cf_epoch_stats start))
