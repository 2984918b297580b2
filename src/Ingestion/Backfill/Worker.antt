-- ===== src/Ingestion/Backfill/Worker.antt =====
-- `BackfillWorker` of crates/ingestion/src/backfill.rs around its window: the connections to peers
-- and the loops that go on with the next one. The peers chosen and what happens on each connection
-- are arguments, for each cycle of attempts a list.
use qonduit.Common.{
  ℕ, zero, suc, List, [], ◌∷◌, Bool, leb, ltb, length, Option, none, some, if◌then◌else◌,
}
use qonduit.Bytes.{Bytes, from_le}
use qonduit.Bytes.Slices.{cut}
use qonduit.Core.Hash.{External}
use qonduit.Ingestion.Protocol.{Poll}
use qonduit.Ingestion.Peers.{SocketAddr, Peer, add_peers_from_exchange, mark_success, mark_failure}
use qonduit.Ingestion.Dispatch.{Published}
use qonduit.Ingestion.Backfill.State.{
  BackfillShared, WindowState, Session, Status, reading, finished, write_failed, read_failed,
  timed_out, panicked, out_of_rounds,
}
use qonduit.Ingestion.Backfill.{start_window, run_window}
use qonduit.Ingestion.Backfill.Plan.{max_peers_per_worker}

-- A peer that is tried: when, and the connection if there is one. The handshake gives the
-- addresses of other peers or fails, the request of the current tick gives its answer or fails.
pub record Connection : Type 0 where
  pub remote_peers : Option (List Bytes)
  pub tick_info : Option Bytes
  pub random : ℕ → ℕ
  pub writable : ℕ → Bool
  pub polls : List Poll

pub record Dial : Type 0 where
  pub addr : SocketAddr
  pub now : ℕ
  pub connection : Option Connection

pub record BackfillWorker : Type 0 where
  pub lib : External
  pub publish : Published → Bool
  pub node_epoch : ℕ
  pub worker_end : ℕ

pub record WorkerState : Type 0 where
  pub current_tick : ℕ
  pub shared : BackfillShared
  pub indexed_tick : ℕ
  pub published : List Published
  pub peers : List Peer

-- An attempt ends well, with an error, by a panic, or not within the packets listed.
pub data Ending : Type 0 where
  succeeded : Ending
  failed : Ending
  died : Ending
  waiting : Ending

-- The epoch of the answer to the request of the current tick.
unfoldable pub connection_epoch : ℕ → Option Bytes → ℕ
connection_epoch node_epoch none = node_epoch
connection_epoch node_epoch (some data') =
    if leb 4 (length data') then from_le (cut data' 2 4) else node_epoch

module _ (b : BackfillWorker) where
  unfoldable pub session_of : Connection → Session
  session_of c = record {
    lib = b.lib;
    publish = b.publish;
    worker_end = b.worker_end;
    epoch = connection_epoch b.node_epoch c.tick_info;
    random = c.random;
    writable = c.writable;
  }

  abbrev after_window : WindowState → WorkerState → WorkerState
  after_window w u = record u {
    shared = w.shared;
    indexed_tick = w.indexed_tick;
    published = w.published;
  }

  -- The tick to go on with changes only at the end of the pipeline.
  unfoldable pub leave_window : Status × WindowState → WorkerState → Ending × WorkerState
  leave_window (finished, w) u =
      (succeeded, record (after_window w u) { current_tick = w.next_tick })
  leave_window (reading, w) u = (waiting, after_window w u)
  leave_window (panicked, w) u = (died, after_window w u)
  leave_window (write_failed, w) u = (failed, after_window w u)
  leave_window (read_failed, w) u = (failed, after_window w u)
  leave_window (timed_out, w) u = (failed, after_window w u)
  leave_window (out_of_rounds, w) u = (waiting, after_window w u)

  unfoldable pub after_handshake :
      Dial → Connection → Option (List Bytes) → WorkerState → Ending × WorkerState
  after_handshake d c none u = (failed, u)
  after_handshake d c (some remote_peers) u =
      let u' = record u {
        peers = mark_success d.now d.addr (add_peers_from_exchange remote_peers u.peers);
      } in
      let s = session_of c in
      leave_window
        (run_window s (start_window s u.current_tick u.shared u.indexed_tick u.published) c.polls)
        u'

  unfoldable pub try_connection : Dial → Option Connection → WorkerState → Ending × WorkerState
  try_connection d none u = (failed, u)
  try_connection d (some c) u = after_handshake d c c.remote_peers u

  unfoldable pub try_peer : Dial → WorkerState → Ending × WorkerState
  try_peer d u = try_connection d d.connection u

  -- The attempts go on after a failure only, with the peer's failure noted.
  unfoldable pub after_attempt :
      Dial → Ending × WorkerState → (WorkerState → Ending × WorkerState) → Ending × WorkerState
  after_attempt d (failed, u) next = next (record u { peers = mark_failure d.now d.addr u.peers })
  after_attempt d (succeeded, u) next = (succeeded, u)
  after_attempt d (died, u) next = (died, u)
  after_attempt d (waiting, u) next = (waiting, u)

  -- The first number is that of the attempts left; `best_peer` returns none after those listed.
  unfoldable pub connect_and_process : ℕ → List Dial → WorkerState → Ending × WorkerState
  connect_and_process zero dials u = (failed, u)
  connect_and_process (suc n) [] u = (failed, u)
  connect_and_process (suc n) (d ∷ dials) u =
      after_attempt d (try_peer d u) (connect_and_process n dials)

  unfoldable pub after_cycle :
      Ending × WorkerState → (WorkerState → Ending × WorkerState) → Ending × WorkerState
  after_cycle (failed, u) next = next u
  after_cycle (succeeded, u) next = (succeeded, u)
  after_cycle (died, u) next = (died, u)
  after_cycle (waiting, u) next = (waiting, u)

  -- `run`: cycles of attempts until one succeeds.
  unfoldable pub run_worker : List (List Dial) → WorkerState → Ending × WorkerState
  run_worker [] u = if ltb u.current_tick b.worker_end then (waiting, u) else (succeeded, u)
  run_worker (dials ∷ cycles) u =
      let cycle =
        after_cycle (connect_and_process max_peers_per_worker dials u) (run_worker cycles) in
      if ltb u.current_tick b.worker_end then cycle else (succeeded, u)
