-- ===== src/Ingestion/Backfill/Transactions.antt =====
-- The second phase of `BackfillClient::run` in crates/ingestion/src/backfill.rs: the transactions of
-- a range of ticks, one request after another (`fetch_txs_for_range`), and the loop over peers. What
-- arrives for each tick is a list of outcomes of `timeout(remaining, read_packet(stream))`, where
-- `elapsed` is the end of the five seconds.
use qonduit.Common.{
  ℕ, zero, suc, ◌+◌, ◌-◌, ◌%◌, ◌^◌, min, max, List, [], ◌∷◌, ◌++◌, Bool, ◌||◌, ◌==◌, ltb, length,
  Option, none, some, if◌then◌else◌,
}
use qonduit.Bytes.{Bytes, Result, ok, err, panic, to_le}
use qonduit.Core.Hash.{External}
use qonduit.Core.Pipeline.{increment}
use qonduit.Ingestion.Protocol.{Poll, received, read_error, elapsed, send_raw}
use qonduit.Ingestion.Peers.{SocketAddr, Peer, mark_failure}
use qonduit.Ingestion.Decoders.Transaction.{Transaction, decode_transaction}
use qonduit.Ingestion.Dispatch.{Published, transaction}
use qonduit.Ingestion.Backfill.Worker.{connection_epoch}

-- What a connection of a transaction worker is given.
pub record Fetcher : Type 0 where
  pub lib : External
  pub publish : Published → Bool
  pub epoch : ℕ
  pub random : ℕ → ℕ
  pub writable : ℕ → Bool

-- The requests sent, the messages published, and the counter of transactions.
pub record FetchState : Type 0 where
  pub sent : List Bytes
  pub published : List Published
  pub txs_discovered : ℕ

pub data FetchEnd : Type 0 where
  -- the next tick to go on with
  fetched : ℕ → FetchEnd
  fetch_failed : FetchEnd
  fetch_died : FetchEnd
  fetch_waiting : FetchEnd

-- The end of the loop over the answers to one request.
pub data TickEnd : Type 0 where
  tick_done : TickEnd
  tick_failed : TickEnd
  tick_died : TickEnd
  tick_waiting : TickEnd

module _ (f : Fetcher) where
  -- A transaction is published, and counted unless that fails; the loop goes on either way.
  unfoldable pub keep_transaction : Transaction → FetchState → FetchState
  keep_transaction tx t =
      let m = transaction f.epoch tx in
      let t' = record t { published = t.published ++ (m ∷ []) } in
      if f.publish m then record t' { txs_discovered = increment t'.txs_discovered } else t'

  unfoldable pub after_decoding :
      Result Transaction → FetchState → (FetchState → TickEnd × FetchState) → TickEnd × FetchState
  after_decoding (ok tx) t next = next (keep_transaction tx t)
  after_decoding (err e) t next = (tick_failed, t)
  after_decoding panic t next = (tick_died, t)

  -- The answers to one request, until the end of the list, a refusal or the timeout.
  unfoldable pub collect_answers : List Poll → FetchState → TickEnd × FetchState
  collect_answers [] t = (tick_waiting, t)
  collect_answers (read_error ∷ polls) t = (tick_failed, t)
  collect_answers (elapsed ∷ polls) t = (tick_done, t)
  collect_answers (received p ∷ polls) t =
      let kept = after_decoding (decode_transaction f.lib p.payload) t (collect_answers polls) in
      let skipped = collect_answers polls t in
      if p.msg_type == 24
      then kept
      else if p.msg_type == 35 || p.msg_type == 54
      then (tick_done, t)
      else skipped

  abbrev pub request_transactions : ℕ → FetchState → FetchState
  request_transactions tick t = record t {
    sent = t.sent ++ (send_raw 29 (to_le 4 tick) (max (f.random (length t.sent)) 1) ∷ []);
  }

  unfoldable pub after_answers :
      TickEnd × FetchState → (FetchState → FetchEnd × FetchState) → FetchEnd × FetchState
  after_answers (tick_done, t) next = next t
  after_answers (tick_failed, t) next = (fetch_failed, t)
  after_answers (tick_died, t) next = (fetch_died, t)
  after_answers (tick_waiting, t) next = (fetch_waiting, t)

  -- The loop over the ticks: the first number is that of the ticks left.
  unfoldable pub fetch_ticks : ℕ → ℕ → List (List Poll) → FetchState → FetchEnd × FetchState
  fetch_ticks zero tick answers t = (fetched tick, t)
  fetch_ticks (suc n) tick [] t = (fetch_waiting, t)
  fetch_ticks (suc n) tick (polls ∷ answers) t =
      let fetched_on =
        after_answers (collect_answers polls (request_transactions tick t))
          (fetch_ticks n (tick + 1) answers) in
      if f.writable (length t.sent) then fetched_on else (fetch_failed, t)

  -- `fetch_txs_for_range`, once connected.
  unfoldable pub fetch_txs_for_range : ℕ → ℕ → List (List Poll) → FetchState → FetchEnd × FetchState
  fetch_txs_for_range range_start range_end answers t =
      fetch_ticks (range_end - range_start) range_start answers t

-- A peer that a transaction worker is given, with its connection if there is one.
pub record TxDial : Type 0 where
  pub addr : SocketAddr
  pub now : ℕ
  pub tick_info : Option Bytes
  pub connection : Option (List (List Poll))
  pub random : ℕ → ℕ
  pub writable : ℕ → Bool

pub record TxWorker : Type 0 where
  pub lib : External
  pub publish : Published → Bool
  pub node_epoch : ℕ
  pub tx_end : ℕ

pub record TxState : Type 0 where
  pub current : ℕ
  pub published : List Published
  pub txs_discovered : ℕ
  pub peers : List Peer

module _ (b : TxWorker) where
  abbrev fetcher_of : TxDial → Fetcher
  fetcher_of d = record {
    lib = b.lib;
    publish = b.publish;
    epoch = connection_epoch b.node_epoch d.tick_info;
    random = d.random;
    writable = d.writable;
  }

  unfoldable pub fetch_from : TxDial → Option (List (List Poll)) → TxState → FetchEnd × TxState
  fetch_from d none u = (fetch_failed, u)
  fetch_from d (some answers) u =
      let (ending, t) =
        fetch_txs_for_range (fetcher_of d) u.current (min b.tx_end ((u.current + 1000) % 2 ^ 32))
          answers
          (record { sent = []; published = u.published; txs_discovered = u.txs_discovered }) in
      (ending, record u { published = t.published; txs_discovered = t.txs_discovered })

  unfoldable pub after_fetch : TxDial → FetchEnd × TxState → (TxState → TxState) → TxState
  after_fetch d (fetched last, u) next = next (record u { current = last })
  after_fetch d (fetch_failed, u) next =
      next (record u { peers = mark_failure d.now d.addr u.peers })
  after_fetch d (fetch_died, u) next = u
  after_fetch d (fetch_waiting, u) next = u

  -- The loop `while current < tx_end`; it breaks when no peer is left.
  unfoldable pub run_tx_worker : List TxDial → TxState → TxState
  run_tx_worker [] u = u
  run_tx_worker (d ∷ dials) u =
      let rest = after_fetch d (fetch_from d d.connection u) (run_tx_worker dials) in
      if ltb u.current b.tx_end then rest else u
