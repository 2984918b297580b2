-- ===== src/Ingestion/Backfill.antt =====
-- crates/ingestion/src/backfill.rs: the sliding window of one connection (`try_peer` from the
-- handshake on, `fill_pipeline`, `decode_and_publish`). The packets that arrive are a list of
-- outcomes of `timeout(…, read_packet(stream))`; what is written to the stream is listed in order.
-- The fill loop takes fuel. `State` has the state, `Plan` has the choice of the range and its partition, `Worker` the
-- loops over connections.
pub mod State
pub mod Plan
pub mod Partition
pub mod Filling
pub mod Window
pub mod Answers
pub mod Connection
pub mod Progress
pub mod Liveness
pub mod Complete
pub mod Unskipped
pub mod Whole
pub mod Worker
pub mod Resuming
pub mod Transactions
pub mod Fetching
use qonduit.Common.{
  ℕ, zero, suc, ◌+◌, ◌*◌, ◌%◌, ◌^◌, min, max, List, [], ◌∷◌, ◌++◌, Bool, ◌&&◌, ◌==◌, leb, ltb,
  length, Option, none, some, if◌then◌else◌,
}
use qonduit.Bytes.{Bytes, Result, ok, err, panic, to_le, from_le}
use qonduit.Bytes.Slices.{cut}
use qonduit.Core.Hash.{External}
use qonduit.Core.Pipeline.{increment}
use qonduit.Ingestion.Protocol.{Packet, Poll, received, read_error, elapsed, send_raw}
use qonduit.Ingestion.Decoders.Tick.{decode_tick}
use qonduit.Ingestion.Decoders.Transaction.{decode_transaction}
use qonduit.Ingestion.Dispatch.{Published, Sent, publish_one, nothing, tick_data, transaction}
use qonduit.Ingestion.Backfill.State.{
  max_consecutive_failures, pipeline_depth, failure_skip_initial, failure_skip_max,
  ExpectedResponse, dejavu, BackfillShared, Session, WindowState, Status, request_bytes, skip_ahead,
  request_next, count_failed, count_pending, take_out, status_of, settle, expected_tick,
  transaction_end, reading, finished, write_failed, read_failed, timed_out, panicked, out_of_rounds,
}

-- One skip and a full window of requests at most, and the last test.
abbrev pub fill_rounds : ℕ
fill_rounds = 22

module _ (s : Session) where
  open s use {lib, publish, worker_end, epoch, random, writable}

  -- `Ok(())` is `reading`.
  unfoldable pub fill_pipeline : ℕ → WindowState → Status × WindowState
  fill_pipeline zero w = (out_of_rounds, w)
  fill_pipeline (suc n) w =
      let skipped = fill_pipeline n (skip_ahead worker_end w) in
      let requested = fill_pipeline n (request_next random w) in
      if ltb w.next_tick worker_end && ltb (length w.expected) pipeline_depth
      then if leb max_consecutive_failures w.consecutive_failures
        then skipped
        else if writable (length w.sent)
        then requested
        else (write_failed, w)
      else (reading, w)

  unfoldable pub decode_and_publish : ℕ → Bytes → ℕ → Sent
  decode_and_publish msg_type payload epoch =
      if msg_type == 8
      then publish_one lib publish (decode_tick lib payload) (tick_data epoch)
      else if msg_type == 24
      then publish_one lib publish (decode_transaction lib payload) (transaction epoch)
      else nothing lib publish

  -- `fill_pipeline`, and the test of the loop.
  unfoldable pub refill : WindowState → Status × WindowState
  refill w = settle (fill_pipeline fill_rounds w)

  abbrev pub complete : ℕ → WindowState → WindowState
  complete resp_tick w = record w {
    shared = record w.shared { ticks_completed = increment w.shared.ticks_completed };
    indexed_tick = max w.indexed_tick resp_tick;
  }

  -- What follows the publication of a tick.
  unfoldable pub after_tick : ℕ → Result (Unit {0}) → WindowState → Status × WindowState
  after_tick resp_tick (ok u) w =
      let counted = record w.shared { ticks_discovered = increment w.shared.ticks_discovered } in
      refill (complete resp_tick (record w { shared = counted }))
  after_tick resp_tick (err e) w = refill (complete resp_tick w)
  after_tick resp_tick panic w = (panicked, w)

  unfoldable pub on_tick :
      Bytes → Option (ExpectedResponse × List ExpectedResponse) → WindowState → Status × WindowState
  on_tick payload none w = (reading, w)
  on_tick payload (some (e, rest)) w =
      if ltb (length payload) 8
      then refill (record w { expected = rest; shared = count_failed w.shared })
      else (let result = decode_and_publish 8 payload (from_le (cut payload 2 4)) in
          after_tick (from_le (cut payload 4 8)) result.outcome (record w {
            expected = rest;
            consecutive_failures = 0;
            skip_size = failure_skip_initial;
            published = w.published ++ result.messages;
          }))

  -- `END_RESPONSE` and `TRY_AGAIN`.
  unfoldable pub on_failure :
      Option (ExpectedResponse × List ExpectedResponse) → WindowState → Status × WindowState
  on_failure none w = (reading, w)
  on_failure (some (transaction_end t d, rest)) w = settle (reading, record w { expected = rest })
  on_failure (some (expected_tick t d, rest)) w = refill (record w {
    expected = rest;
    consecutive_failures = (w.consecutive_failures + 1) % 2 ^ 32;
    shared = count_failed w.shared;
  })

  unfoldable pub after_transaction : Result (Unit {0}) → WindowState → Status × WindowState
  after_transaction (ok u) w = (
    reading,
    record w { shared = record w.shared { txs_discovered = increment w.shared.txs_discovered } },
  )
  after_transaction (err e) w = (reading, w)
  after_transaction panic w = (panicked, w)

  unfoldable pub on_packet : Packet → WindowState → Status × WindowState
  on_packet p w =
      if p.msg_type == 8
      then on_tick p.payload (take_out p.dejavu w.expected) w
      else if p.msg_type == 35
      then on_failure (take_out p.dejavu w.expected) w
      else if p.msg_type == 24
      then (let result = decode_and_publish 24 p.payload epoch in
          after_transaction result.outcome
            (record w { published = w.published ++ result.messages }))
      else if p.msg_type == 54
      then on_failure (take_out p.dejavu w.expected) w
      else (reading, w)

  unfoldable pub on_poll : Poll → WindowState → Status × WindowState
  on_poll (received p) w = on_packet p w
  on_poll read_error w = (read_failed, w)
  on_poll elapsed w = (timed_out, record w { shared = count_pending w.expected w.shared })

  -- The reading loop, while its test holds.
  unfoldable pub read_window : Status × WindowState → List Poll → Status × WindowState
  read_window (reading, w) (p ∷ polls) = read_window (on_poll p w) polls
  read_window (reading, w) [] = (reading, w)
  read_window (finished, w) polls = (finished, w)
  read_window (write_failed, w) polls = (write_failed, w)
  read_window (read_failed, w) polls = (read_failed, w)
  read_window (timed_out, w) polls = (timed_out, w)
  read_window (panicked, w) polls = (panicked, w)
  read_window (out_of_rounds, w) polls = (out_of_rounds, w)

  -- The state before the first requests.
  unfoldable pub start_window : ℕ → BackfillShared → ℕ → List Published → WindowState
  start_window current_tick shared indexed_tick published = record {
    expected = [];
    next_tick = current_tick;
    consecutive_failures = 0;
    skip_size = failure_skip_initial;
    shared = shared;
    indexed_tick = indexed_tick;
    sent = [];
    published = published;
  }

  -- The pipeline of a connection from its first requests on.
  unfoldable pub run_window : WindowState → List Poll → Status × WindowState
  run_window w polls = read_window (refill w) polls
