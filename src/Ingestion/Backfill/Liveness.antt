-- ===== src/Ingestion/Backfill/Liveness.antt =====
-- A node that answers every request ends the reading loop.
use qonduit.Common.{ℕ, ◌+◌, ◌-◌, ◌^◌, ◌≤◌, List, [], ◌∷◌, true, ◌≡◌, refl, subst, All, arith}
use qonduit.Ingestion.Dispatch.{Published}
use qonduit.Ingestion.Protocol.{Poll, received, read_error, elapsed}
use qonduit.Ingestion.Backfill.State.{
  BackfillShared, WindowState, Session, Status, reading, finished, write_failed, read_failed,
  timed_out, panicked, out_of_rounds,
}
use qonduit.Ingestion.Backfill.{refill, on_packet, on_poll, read_window, start_window, run_window}
use qonduit.Ingestion.Backfill.Window.{Holds, refill-Holds}
use qonduit.Ingestion.Backfill.Connection.{on_packet-Holds, start_window-Ready, run_window-Holds}
use qonduit.Ingestion.Backfill.Progress.{
  is_answer, one_if, IsServed, outstanding, Goes, on_packet-Progress, refill-Progress,
}

-- The answers among the packets that the loop reads.
abbrev pub answers : Session → Status × WindowState → List Poll → ℕ
answers s (reading, w) (received p ∷ polls) =
    one_if (is_answer p w) + answers s (on_packet s p w) polls
answers s r polls = 0

module _ (s : Session) (start base : ℕ) (end : s.worker_end + 1000000 ≤ 2 ^ 32)
    (takes : (i : ℕ) → s.writable i ≡ true) where
  open s use {worker_end, random}

  read_window-finished :
      (st : Status) (w : WindowState) (polls : List Poll)
      → Goes st
      → Holds worker_end start base st w
      → All (IsServed s) polls
      → outstanding s w ≤ answers s (st, w) polls
      → (read_window s (st, w) polls).0 ≡ finished
  unfolding read_window on_poll
  read_window-finished reading w [] g (v, a, full) served le = absurd (ground (arith, v.within))
  read_window-finished reading w (received p ∷ polls) g h (served, others) le =
      let r = on_packet s p w in
      let (goes, less) = on_packet-Progress s start base end takes p w served h in
      read_window-finished r.0 r.1 polls goes (on_packet-Holds s start base end p w h) others
        (omega arith)
  read_window-finished reading w (read_error ∷ polls) g h (served, others) le = absurd served
  read_window-finished reading w (elapsed ∷ polls) g h (served, others) le = absurd served
  read_window-finished finished w polls g h served le = refl
  read_window-finished write_failed w polls g h served le = absurd (ground arith)
  read_window-finished read_failed w polls g h served le = absurd (ground arith)
  read_window-finished timed_out w polls g h served le = absurd (ground arith)
  read_window-finished panicked w polls g h served le = absurd (ground arith)
  read_window-finished out_of_rounds w polls g h served le = absurd h

outstanding-start :
    (s : Session) (shared : BackfillShared) (current_tick indexed_tick : ℕ)
    (published : List Published)
    → 0 + outstanding s (start_window s current_tick shared indexed_tick published)
      ≤ s.worker_end - current_tick
unfolding start_window
outstanding-start s shared current_tick indexed_tick published = omega arith

-- Let the connection begin at or below the end of its range, and this end be at most 2^32 - 1000000.
-- If the stream takes every request and the node stays connected, sends no tick that makes the
-- decoder panic, and answers requests as often as there are ticks in the range, with any mix of
-- ticks and refusals and other packets in between, then the loop ends with every tick up to the
-- worker's end requested or skipped.
pub run_window-finished :
    (s : Session) (shared : BackfillShared) (current_tick indexed_tick : ℕ)
    (published : List Published) (polls : List Poll)
    → s.worker_end + 1000000 ≤ 2 ^ 32
    → current_tick ≤ s.worker_end
    → ((i : ℕ) → s.writable i ≡ true)
    → All (IsServed s) polls
    → s.worker_end - current_tick
      ≤ answers s (refill s (start_window s current_tick shared indexed_tick published)) polls
    → let w = start_window s current_tick shared indexed_tick published in
      ((run_window s w polls).0 ≡ finished) × ((run_window s w polls).1.next_tick ≡ s.worker_end)
unfolding run_window
run_window-finished s shared current_tick indexed_tick published polls end start takes served
      enough =
    let base = shared.ticks_completed + shared.ticks_failed in
    let w = start_window s current_tick shared indexed_tick published in
    let ready = start_window-Ready s shared current_tick indexed_tick published end start in
    let filled = refill s w in
    let progress =
      refill-Progress s current_tick base end takes 0 (s.worker_end - current_tick) w ready.0
        (outstanding-start s shared current_tick indexed_tick published) in
    let done =
      read_window-finished s current_tick base end takes filled.0 filled.1 polls progress.0
        (refill-Holds s current_tick base end w ready) served (omega (arith, progress.1)) in
    let holds = run_window-Holds s shared current_tick indexed_tick published polls end start in
    (
      done,
      (subst (λ st. Holds s.worker_end current_tick base st (run_window s w polls).1) done holds).0,
    )
