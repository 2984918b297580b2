-- ===== src/Ingestion/Backfill/Connection.antt =====
-- The invariant of the sliding window through a whole connection.
use qonduit.Common.{
  ℕ, ◌+◌, ◌%◌, ◌^◌, ◌≤◌, List, [], ◌∷◌, ◌≡◌, inl, inr, refl, ◌==◌, length, All, Bool-cases, arith,
}
use qonduit.Ingestion.Protocol.{Packet, Poll, received, read_error, elapsed}
use qonduit.Ingestion.Dispatch.{Published}
use qonduit.Ingestion.Backfill.State.{
  ExpectedResponse, expected_tick, transaction_end, BackfillShared, WindowState, Session, Status,
  reading, finished, write_failed, read_failed, timed_out, panicked, out_of_rounds, count_failed,
  count_pending,
}
use qonduit.Ingestion.Backfill.{refill, on_packet, on_poll, read_window, start_window, run_window}
use qonduit.Ingestion.Backfill.Filling.{IsTick}
use qonduit.Ingestion.Backfill.Window.{Holds, Ready, refill-Holds}
use qonduit.Ingestion.Backfill.Answers.{
  Reading, lookup, on_tick-Holds, on_failure-Holds, after_transaction-Holds, transaction-IsCalm,
}

module _ (s : Session) (start base : ℕ) (end : s.worker_end + 1000000 ≤ 2 ^ 32) where
  open s use {worker_end}

  pub on_packet-Holds :
      (p : Packet) (w : WindowState)
      → Reading s start base end w
      → let r = on_packet s p w in Holds worker_end start base r.0 r.1
  unfolding on_packet
  on_packet-Holds p w h =
      let found = lookup s start base end w p.dejavu h in
      elim (Bool-cases (p.msg_type == 8)) [
        | inl e8 ↦ rw e8 (on_tick-Holds s start base end w p.payload _ h found)
        | inr n8 ↦ elim (Bool-cases (p.msg_type == 35)) [
          | inl e35 ↦ rw (n8, e35) (on_failure-Holds s start base end w _ h found)
          | inr n35 ↦ elim (Bool-cases (p.msg_type == 24)) [
            | inl e24 ↦
                rw (n8, n35, e24)
                  (after_transaction-Holds s start base end w _ _ h
                    (transaction-IsCalm s start base end p.payload))
            | inr n24 ↦ elim (Bool-cases (p.msg_type == 54)) [
              | inl e54 ↦ rw (n8, n35, n24, e54) (on_failure-Holds s start base end w _ h found)
              | inr n54 ↦ rw (n8, n35, n24, n54) h
            ]
          ]
        ]
      ]

  count_pending_lem :
      (es : List ExpectedResponse) (c : BackfillShared)
      → All IsTick es
      → ((count_pending es c).ticks_completed ≡ c.ticks_completed)
        × ((count_pending es c).ticks_failed % 2 ^ 64 ≡ (c.ticks_failed + length es) % 2 ^ 64)
  unfolding count_pending count_failed
  count_pending_lem [] c a = (refl, omega arith)
  count_pending_lem (expected_tick t d ∷ es) c (a, as') =
      let (same, failed) = count_pending_lem es (count_failed c) as' in
      (same, omega (arith, failed))
  count_pending_lem (transaction_end t d ∷ es) c (a, as') = absurd a

  on_poll-Holds :
      (p : Poll) (w : WindowState)
      → Reading s start base end w
      → let r = on_poll s p w in Holds worker_end start base r.0 r.1
  unfolding on_poll
  on_poll-Holds (received p) w h = on_packet-Holds p w h
  on_poll-Holds read_error w (v, a, full) = a
  on_poll-Holds elapsed w (v, a, full) =
      let counted = count_pending_lem w.expected w.shared v.ticks_only in
      record {
        within = a.within;
        ascending = a.ascending;
        ledger = omega (arith, a.ledger, counted);
      }

  read_window-Holds :
      (st : Status) (w : WindowState) (polls : List Poll)
      → Holds worker_end start base st w
      → let r = read_window s (st, w) polls in Holds worker_end start base r.0 r.1
  unfolding read_window
  read_window-Holds reading w [] h = h
  read_window-Holds reading w (p ∷ polls) h =
      let next = on_poll s p w in read_window-Holds next.0 next.1 polls (on_poll-Holds p w h)
  read_window-Holds finished w polls h = h
  read_window-Holds write_failed w polls h = h
  read_window-Holds read_failed w polls h = h
  read_window-Holds timed_out w polls h = h
  read_window-Holds panicked w polls h = h
  read_window-Holds out_of_rounds w polls h = h

pub start_window-Ready :
    (s : Session) (shared : BackfillShared) (current_tick indexed_tick : ℕ)
    (published : List Published) (end : s.worker_end + 1000000 ≤ 2 ^ 32)
    → current_tick ≤ s.worker_end
    → Ready s current_tick
        (shared.ticks_completed + shared.ticks_failed)
        end
        (start_window s current_tick shared indexed_tick published)
unfolding start_window
start_window-Ready s shared current_tick indexed_tick published end start = (
  record {
    bounded = omega arith;
    within = start;
    skip_low = omega arith;
    skip_high = omega arith;
    budget = omega arith;
    ticks_only = tt;
  },
  record { within = start; ascending = omega arith; ledger = refl },
)

-- Let the connection begin at or below the end of its range, and this end be at most 2^32 - 1000000.
-- Whatever arrives, while the loop reads, 20 requests are pending, or at least one is and every tick
-- up to the end is requested or skipped. The requested ticks are in ascending order, each once, from
-- the start on and below the end. The number of requests is, modulo 2^64, that of the completed, the
-- failed and the pending ones, with one more where an answer made the decoder panic. The loop
-- finishes only when every tick is requested or skipped and no request is pending, and its filling
-- has fuel enough.
pub run_window-Holds :
    (s : Session) (shared : BackfillShared) (current_tick indexed_tick : ℕ)
    (published : List Published) (polls : List Poll)
    → s.worker_end + 1000000 ≤ 2 ^ 32
    → current_tick ≤ s.worker_end
    → let r = run_window s (start_window s current_tick shared indexed_tick published) polls in
      Holds s.worker_end current_tick (shared.ticks_completed + shared.ticks_failed) r.0 r.1
unfolding run_window
run_window-Holds s shared current_tick indexed_tick published polls end start =
    let base = shared.ticks_completed + shared.ticks_failed in
    let w = start_window s current_tick shared indexed_tick published in
    let filled = refill s w in
    read_window-Holds s current_tick base end filled.0 filled.1 polls (
      refill-Holds s current_tick base end w
        (start_window-Ready s shared current_tick indexed_tick published end start))
