-- ===== src/Ingestion/Backfill/Resuming.antt =====
-- Where a worker goes on after its connections.
use qonduit.Common.{
  ℕ, zero, suc, ◌+◌, ◌^◌, ◌≤◌, ◌<◌, List, [], ◌∷◌, ◌≡◌, refl, subst, Option, none, some, lt→ltb,
  arith,
}
use qonduit.Bytes.{Bytes}
use qonduit.Ingestion.Backfill.State.{
  WindowState, Status, reading, finished, write_failed, read_failed, timed_out, panicked,
  out_of_rounds,
}
use qonduit.Ingestion.Backfill.{start_window, run_window}
use qonduit.Ingestion.Backfill.Window.{Holds}
use qonduit.Ingestion.Backfill.Connection.{run_window-Holds}
use qonduit.Ingestion.Backfill.Worker.{
  Connection, Dial, BackfillWorker, WorkerState, Ending, succeeded, failed, died, waiting,
  session_of, leave_window, after_handshake, try_connection, try_peer, after_attempt,
  connect_and_process, after_cycle, run_worker,
}

-- The tick that a worker has reached: the end of its range, or still its start.
abbrev pub Resumes : ℕ → ℕ → Ending × WorkerState → Type 0
Resumes start end (succeeded, u) = u.current_tick ≡ end
Resumes start end (failed, u) = u.current_tick ≡ start
Resumes start end (died, u) = u.current_tick ≡ start
Resumes start end (waiting, u) = u.current_tick ≡ start

module _ (b : BackfillWorker) (start : ℕ) (end : b.worker_end + 1000000 ≤ 2 ^ 32)
    (room : start < b.worker_end) where
  leave_window-Resumes :
      (st : Status) (w : WindowState) (u : WorkerState) (base : ℕ)
      → u.current_tick ≡ start
      → Holds b.worker_end start base st w
      → Resumes start b.worker_end (leave_window b (st, w) u)
  unfolding leave_window
  leave_window-Resumes finished w u base e h = h.0
  leave_window-Resumes reading w u base e h = e
  leave_window-Resumes write_failed w u base e h = e
  leave_window-Resumes read_failed w u base e h = e
  leave_window-Resumes timed_out w u base e h = e
  leave_window-Resumes panicked w u base e h = e
  leave_window-Resumes out_of_rounds w u base e h = e

  handshake-Resumes :
      (d : Dial) (c : Connection) (o : Option (List Bytes)) (u : WorkerState)
      → u.current_tick ≡ start
      → Resumes start b.worker_end (after_handshake b d c o u)
  unfolding after_handshake session_of
  handshake-Resumes d c none u e = e
  handshake-Resumes d c (some remote_peers) u e =
      let s = session_of b c in
      let r =
        run_window s (start_window s u.current_tick u.shared u.indexed_tick u.published) c.polls in
      leave_window-Resumes r.0 r.1 _ (u.shared.ticks_completed + u.shared.ticks_failed) e (
        subst (λ t. Holds b.worker_end t (u.shared.ticks_completed + u.shared.ticks_failed) r.0 r.1)
          e
          (run_window-Holds s u.shared u.current_tick u.indexed_tick u.published c.polls end
            (omega arith)))

  try_peer-Resumes :
      (d : Dial) (o : Option Connection) (u : WorkerState)
      → u.current_tick ≡ start
      → Resumes start b.worker_end (try_connection b d o u)
  unfolding try_connection
  try_peer-Resumes d none u e = e
  try_peer-Resumes d (some c) u e = handshake-Resumes d c c.remote_peers u e

  attempt-Resumes :
      (d : Dial) (r : Ending × WorkerState) (next : WorkerState → Ending × WorkerState)
      → ((v : WorkerState) → v.current_tick ≡ start → Resumes start b.worker_end (next v))
      → Resumes start b.worker_end r
      → Resumes start b.worker_end (after_attempt b d r next)
  unfolding after_attempt
  attempt-Resumes d (failed, u) next h e = h _ e
  attempt-Resumes d (succeeded, u) next h e = e
  attempt-Resumes d (died, u) next h e = e
  attempt-Resumes d (waiting, u) next h e = e

  connect_and_process-Resumes :
      (n : ℕ) (dials : List Dial) (u : WorkerState)
      → u.current_tick ≡ start
      → Resumes start b.worker_end (connect_and_process b n dials u)
  unfolding connect_and_process try_peer
  connect_and_process-Resumes zero dials u e = e
  connect_and_process-Resumes (suc n) [] u e = e
  connect_and_process-Resumes (suc n) (d ∷ dials) u e =
      attempt-Resumes d _ _ (connect_and_process-Resumes n dials)
        (try_peer-Resumes d d.connection u e)

  cycle-Resumes :
      (r : Ending × WorkerState) (next : WorkerState → Ending × WorkerState)
      → ((v : WorkerState) → v.current_tick ≡ start → Resumes start b.worker_end (next v))
      → Resumes start b.worker_end r
      → Resumes start b.worker_end (after_cycle b r next)
  unfolding after_cycle
  cycle-Resumes (failed, u) next h e = h u e
  cycle-Resumes (succeeded, u) next h e = e
  cycle-Resumes (died, u) next h e = e
  cycle-Resumes (waiting, u) next h e = e

  run_from_start :
      (cycles : List (List Dial)) (u : WorkerState)
      → u.current_tick ≡ start
      → Resumes start b.worker_end (run_worker b cycles u)
  unfolding run_worker
  run_from_start [] u e = let more = lt→ltb u.current_tick b.worker_end (omega arith) in rw more e
  run_from_start (dials ∷ cycles) u e =
      let more = lt→ltb u.current_tick b.worker_end (omega arith) in
      rw more (
        cycle-Resumes (connect_and_process b 8 dials u) _ (run_from_start cycles)
          (connect_and_process-Resumes 8 dials u e))

-- Let the end of the range be above its start and at most 2^32 - 1000000. Whatever peers are tried
-- and whatever arrives, a worker that ends with success has reached the end of its range; one that
-- has failed, that died of a panic or that still waits for a peer is at the start of its range, so
-- that after a lost connection it goes on from there.
pub run_worker-Resumes :
    (b : BackfillWorker) (cycles : List (List Dial)) (u : WorkerState)
    → b.worker_end + 1000000 ≤ 2 ^ 32
    → u.current_tick < b.worker_end
    → Resumes u.current_tick b.worker_end (run_worker b cycles u)
run_worker-Resumes b cycles u end room = run_from_start b u.current_tick end room cycles u refl
