-- ===== src/Core/Pipeline.antt =====
-- crates/core/src/pipeline.rs: the shared counters of the pipeline and the status taken from them,
-- without its floating-point rates and the time until the pipeline is live; and EpochStats of
-- crates/core/src/lib.rs. An atomic counter wraps when it is full.
use qonduit.Common.{
  ℕ, ◌+◌, ◌-◌, ◌*◌, ◌/◌, ◌%◌, ◌^◌, min, Bool, false, not, ◌&&◌, ltb, leb, Option, none,
  if◌then◌else◌,
}
use qonduit.Bytes.{ℤ, pos, negsuc}
use Prim.Native.String.{String}

pub record EpochStats : Type 0 where
  pub epoch : ℕ
  pub tick_count : ℕ
  pub tx_count : ℕ
  pub entity_count : ℕ
  pub first_tick : Option ℕ
  pub last_tick : Option ℕ

-- `Default::default()`
abbrev pub default_stats : EpochStats
default_stats = record {
  epoch = 0;
  tick_count = 0;
  tx_count = 0;
  entity_count = 0;
  first_tick = none;
  last_tick = none;
}

pub record PipelineState : Type 0 where
  pub ingestion_connected : Bool
  pub ingestion_disabled : Bool
  pub node_tick : ℕ
  pub node_epoch : ℕ
  pub indexed_tick : ℕ
  pub indexed_epoch : ℕ
  pub ticks_indexed : ℕ
  pub txs_indexed : ℕ
  pub entities_indexed : ℕ
  pub tick_lag : ℕ
  pub tx_lag : ℕ
  pub entity_lag : ℕ
  pub indexing_start_time : ℕ
  pub total_ticks_indexed : ℕ
  pub rate_window_last_time : ℕ
  pub rate_window_last_indexed : ℕ
  pub current_indexing_rate : ℕ
  pub backfill_running : Bool
  pub backfill_ticks_completed : ℕ
  pub backfill_txs_discovered : ℕ
  pub backfill_ticks_discovered : ℕ
  pub backfill_ticks_failed : ℕ
  pub backfill_start_tick : ℕ
  pub backfill_end_tick : ℕ

-- `now` is the time in seconds.
unfoldable pub new : ℕ → PipelineState
new now = record {
  ingestion_connected = false;
  ingestion_disabled = false;
  node_tick = 0;
  node_epoch = 0;
  indexed_tick = 0;
  indexed_epoch = 0;
  ticks_indexed = 0;
  txs_indexed = 0;
  entities_indexed = 0;
  tick_lag = 0;
  tx_lag = 0;
  entity_lag = 0;
  indexing_start_time = now;
  total_ticks_indexed = 0;
  rate_window_last_time = now;
  rate_window_last_indexed = 0;
  current_indexing_rate = 0;
  backfill_running = false;
  backfill_ticks_completed = 0;
  backfill_txs_discovered = 0;
  backfill_ticks_discovered = 0;
  backfill_ticks_failed = 0;
  backfill_start_tick = 0;
  backfill_end_tick = 0;
}

-- `fetch_add(1)` on an AtomicU64.
abbrev pub increment : ℕ → ℕ
increment n = (n + 1) % 2 ^ 64

-- The difference of two u32 as i64.
abbrev pub difference : ℕ → ℕ → ℤ
difference a b = if leb b a then pos (a - b) else negsuc (b - a - 1)

-- The ticks behind the node, negative when the index is ahead.
unfoldable pub behind : PipelineState → ℤ
behind p =
    if ltb 0 p.node_tick && ltb 0 p.indexed_tick
    then difference p.node_tick p.indexed_tick
    else if ltb 0 p.node_tick
    then pos p.node_tick
    else pos 0

abbrev above_100 : ℤ → Bool
above_100 (pos n) = ltb 100 n
above_100 (negsuc n) = false

unfoldable pub pipeline_status : PipelineState → String
pipeline_status p =
    if p.ingestion_disabled
    then "query_only"
    else if not p.ingestion_connected
    then "disconnected"
    else if above_100 (behind p)
    then "catching_up"
    else "live"

-- The rate in thousandths of a tick per second over the window since the last measurement, which
-- is taken anew when 3 seconds have passed.
unfoldable pub measure : ℕ → PipelineState → PipelineState
measure now p =
    let window_elapsed = now - p.rate_window_last_time in
    if leb 3 window_elapsed
    then record p {
      current_indexing_rate =
          min ((p.total_ticks_indexed - p.rate_window_last_indexed) * 1000) (2 ^ 64 - 1)
          / window_elapsed;
      rate_window_last_time = now;
      rate_window_last_indexed = p.total_ticks_indexed;
    }
    else p

-- The status and the ticks behind, with the state after the measurement.
unfoldable pub status : ℕ → PipelineState → PipelineState × String × ℤ
status now p = (measure now p, pipeline_status p, behind p)
