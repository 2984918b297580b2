-- ===== src/Ingestion/Backfill/Plan.antt =====
-- `BackfillClient` of crates/ingestion/src/backfill.rs: the choice of the tick range and its
-- partition across workers. The peers that the peer manager chooses, and their answers to the
-- request of the current tick, are arguments.
use qonduit.Common.{
  ℕ, zero, suc, ◌+◌, ◌-◌, ◌*◌, ◌/◌, ◌%◌, ◌^◌, min, max, List, [], ◌∷◌, ◌++◌, Bool, true, false,
  ◌||◌, ◌==◌, leb, ltb, length, Option, none, some, if◌then◌else◌,
}
use qonduit.Bytes.{Bytes, from_le}
use qonduit.Bytes.Slices.{cut}
use qonduit.Core.Pipeline.{PipelineState}
use qonduit.Core.Epochs.{EpochRange}
use qonduit.Ingestion.Peers.{SocketAddr, Peer, addr_eq, mark_failure}
use qonduit.Ingestion.Backfill.State.{BackfillShared}

pub record BackfillConfig : Type 0 where
  pub node_addr : Option SocketAddr
  pub bootstrap_addrs : List SocketAddr
  pub workers : ℕ
  pub start_tick : ℕ
  pub end_tick : ℕ

-- `BackfillShared::new`
unfoldable pub new_shared : BackfillShared
new_shared = record {
  running = false;
  ticks_completed = 0;
  txs_discovered = 0;
  ticks_discovered = 0;
  ticks_failed = 0;
  start_tick = 0;
  end_tick = 0;
}

abbrev contains : SocketAddr → List SocketAddr → Bool
contains a [] = false
contains a (b ∷ bs) = addr_eq b a || contains a bs

abbrev with_node : Option SocketAddr → List SocketAddr → List SocketAddr
with_node none addrs = addrs
with_node (some a) addrs = if contains a addrs then addrs else addrs ++ (a ∷ [])

unfoldable pub bootstrap_addrs : BackfillConfig → List SocketAddr
bootstrap_addrs c = with_node c.node_addr c.bootstrap_addrs

-- The tick of an answer: none for a failure to connect, to exchange peers or to get an answer, and
-- for a short one.
unfoldable pub try_resolve_from_peer : Option Bytes → Option ℕ
try_resolve_from_peer none = none
try_resolve_from_peer (some data') =
    if leb 8 (length data') then some (from_le (cut data' 4 8)) else none

-- A peer that is asked, when its failure is noted, and its answer.
pub record Attempt : Type 0 where
  pub addr : SocketAddr
  pub now : ℕ
  pub answer : Option Bytes

abbrev pub max_peers_per_worker : ℕ
max_peers_per_worker = 8

abbrev note_failure : Attempt → List Peer → List Peer
note_failure a peers = mark_failure a.now a.addr peers

abbrev first_or : Option ℕ → List Peer → Option ℕ × List Peer → Option ℕ × List Peer
first_or none peers rest = rest
first_or (some tick) peers rest = (some tick, peers)

-- The first number is that of the attempts left, and `best_peer` returns none after those listed.
unfoldable pub resolve_end_tick : ℕ → List Attempt → List Peer → Option ℕ × List Peer
resolve_end_tick zero attempts peers = (none, peers)
resolve_end_tick (suc n) [] peers = (none, peers)
resolve_end_tick (suc n) (a ∷ attempts) peers =
    first_or (try_resolve_from_peer a.answer) peers
      (resolve_end_tick n attempts (note_failure a peers))

-- `max_by_key(|r| r.first_tick)`: of equal keys the last.
abbrev later_range : Option EpochRange → EpochRange → EpochRange
later_range none r = r
later_range (some b) r = if leb b.first_tick r.first_tick then r else b

unfoldable pub current_range : ℕ → Option EpochRange → List EpochRange → Option EpochRange
current_range end_tick best [] = best
current_range end_tick best (r ∷ rs) =
    current_range end_tick (if leb r.first_tick end_tick then some (later_range best r) else best)
      rs

abbrev first_tick_or : ℕ → Option EpochRange → ℕ
first_tick_or end_tick (some r) = r.first_tick
first_tick_or end_tick none = if ltb 100000 end_tick then end_tick - 2000000 else 0

unfoldable pub resolve_start_tick : List EpochRange → ℕ → ℕ → ℕ
resolve_start_tick ranges start_tick end_tick =
    if start_tick == 0
    then first_tick_or end_tick (current_range end_tick none ranges)
    else start_tick

-- The range of one worker, its end not included.
pub record Assignment : Type 0 where
  pub worker_id : ℕ
  pub worker_start : ℕ
  pub worker_end : ℕ

unfoldable pub chunk_size : ℕ → ℕ → ℕ
chunk_size count workers = max (count / workers) 1

-- `start_tick + (id as u32 * chunk_size as u32)`
unfoldable pub chunk_start : ℕ → ℕ → ℕ → ℕ
chunk_start start_tick chunk id = (start_tick + id % 2 ^ 32 * (chunk % 2 ^ 32) % 2 ^ 32) % 2 ^ 32

unfoldable pub assignment : ℕ → ℕ → ℕ → ℕ → ℕ → Assignment
assignment start_tick end_tick workers chunk id = record {
  worker_id = id;
  worker_start = chunk_start start_tick chunk id;
  worker_end =
      if id == workers - 1 then end_tick else min (chunk_start start_tick chunk (id + 1)) end_tick;
}

-- The loop over the workers, the first number being that of the workers left.
unfoldable pub assign : ℕ → ℕ → ℕ → ℕ → ℕ → ℕ → List Assignment
assign zero id start_tick end_tick workers chunk = []
assign (suc n) id start_tick end_tick workers chunk =
    let a = assignment start_tick end_tick workers chunk id in
    let rest = assign n (id + 1) start_tick end_tick workers chunk in
    if leb a.worker_end a.worker_start then rest else a ∷ rest

-- The workers of one phase; `count` is the number of ticks for the first phase, and that of the
-- ticks discovered for the second.
unfoldable pub partition : ℕ → ℕ → ℕ → ℕ → List Assignment
partition workers count start_tick end_tick =
    let workers' = max workers 1 in
    assign workers' 0 start_tick end_tick workers' (chunk_size count workers')

-- The state that the workers of the first phase start with, or the early end.
pub data Begun : Type 0 where
  unresolved : BackfillShared → PipelineState → Begun
  nothing_to_do : BackfillShared → PipelineState → Begun
  working : BackfillShared → PipelineState → List Assignment → Begun

unfoldable pub begin_range : BackfillConfig → ℕ → ℕ → BackfillShared → PipelineState → Begun
begin_range c start_tick end_tick shared pipeline =
    if leb end_tick start_tick
    then nothing_to_do (record shared { running = false }) pipeline
    else working (record shared { start_tick = start_tick; end_tick = end_tick })
        (record pipeline { backfill_start_tick = start_tick; backfill_end_tick = end_tick })
        (partition c.workers (end_tick - start_tick) start_tick end_tick)

unfoldable pub begin_to :
    BackfillConfig → List EpochRange → Option ℕ → BackfillShared → PipelineState → Begun
begin_to c ranges none shared pipeline = unresolved shared pipeline
begin_to c ranges (some end_tick) shared pipeline =
    begin_range c (resolve_start_tick ranges c.start_tick end_tick) end_tick shared pipeline

-- `run` up to the first phase: the answer of `resolve_end_tick` is used if no end is configured.
unfoldable pub begin :
    BackfillConfig → List EpochRange → Option ℕ → BackfillShared → PipelineState → Begun
begin c ranges resolved shared pipeline =
    begin_to c ranges (if c.end_tick == 0 then resolved else some c.end_tick)
      (record shared { running = true }) (record pipeline { backfill_running = true })

-- The second phase runs if ticks were discovered.
unfoldable pub transaction_workers : BackfillConfig → BackfillShared → List Assignment
transaction_workers c shared =
    if ltb 0 shared.ticks_discovered
    then partition c.workers shared.ticks_discovered shared.start_tick shared.end_tick
    else []

-- The end of `run`.
unfoldable pub finish : BackfillShared → PipelineState → BackfillShared × PipelineState
finish shared pipeline = (
  record shared { running = false },
  record pipeline {
    backfill_running = false;
    backfill_ticks_completed = shared.ticks_completed;
    backfill_txs_discovered = shared.txs_discovered;
    backfill_ticks_discovered = shared.ticks_discovered;
    backfill_ticks_failed = shared.ticks_failed;
  },
)

-- One report of the progress task.
unfoldable pub report_progress : BackfillShared → PipelineState → PipelineState
report_progress shared pipeline = record pipeline {
  backfill_ticks_completed = shared.ticks_completed;
  backfill_txs_discovered = shared.txs_discovered;
  backfill_ticks_discovered = shared.ticks_discovered;
  backfill_ticks_failed = shared.ticks_failed;
}
