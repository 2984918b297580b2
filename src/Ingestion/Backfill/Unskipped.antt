-- ===== src/Ingestion/Backfill/Unskipped.antt =====
-- Through a connection with few refusals no tick is skipped.
use qonduit.Common.{
  ℕ, suc, ◌+◌, ◌-◌, ◌^◌, ◌≤◌, ◌<◌, List, [], ◌∷◌, ◌≡◌, inl, inr, refl, ◌==◌, Bool-cases, arith,
  if◌then◌else◌,
}
use native.Mathlib.Nat.{le-add_right}
use qonduit.Ingestion.Dispatch.{Published}
use qonduit.Ingestion.Protocol.{Packet, Poll, received, read_error, elapsed}
use qonduit.Ingestion.Backfill.State.{
  BackfillShared, WindowState, Session, Status, reading, finished, write_failed, read_failed,
  timed_out, panicked, out_of_rounds, take_out,
}
use qonduit.Ingestion.Backfill.{refill, on_packet, on_poll, read_window, start_window, run_window}
use qonduit.Ingestion.Backfill.Complete.{
  tick_requests, is_refusal, refusals, AllRequested, same_requests, refill-AllRequested,
  on_tick-AllRequested, on_failure-AllRequested, after_transaction-AllRequested,
}

module _ (s : Session) (start : ℕ) (end : s.worker_end < 2 ^ 32) where
  AllRequested-weaken :
      (k k' : ℕ) (w : WindowState)
      → k ≤ k'
      → AllRequested s start end k w
      → AllRequested s start end k' w
  AllRequested-weaken k k' w h a =
      same_requests s start end k' w w (omega (arith, a.few)) refl refl a.every a.reached

  on_packet-AllRequested :
      (k : ℕ) (p : Packet) (w : WindowState)
      → k + (if is_refusal (received p) then 1 else 0) < 30
      → AllRequested s start end k w
      → AllRequested s start end
          (k + (if is_refusal (received p) then 1 else 0))
          (on_packet s p w).1
  unfolding on_packet
  on_packet-AllRequested k p w few a =
      let found = take_out p.dejavu w.expected in
      elim (Bool-cases (p.msg_type == 8)) [
        | inl e8 ↦ rw e8 (
            AllRequested-weaken k _ _ (le-add_right k _)
              (on_tick-AllRequested s start end k p.payload found w (omega arith) a))
        | inr n8 ↦ elim (Bool-cases (p.msg_type == 35)) [
          | inl e35 ↦
              rw (n8, e35)
                (AllRequested-weaken (suc k) _ _ (omega arith)
                  (on_failure-AllRequested s start end k found w (ground arith) a))
          | inr n35 ↦ elim (Bool-cases (p.msg_type == 24)) [
            | inl e24 ↦
                rw (n8, n35, e24)
                  (AllRequested-weaken k _ _ (le-add_right k _) (
                    after_transaction-AllRequested s start end k _ _
                      (same_requests s start end k w _ a.few refl refl a.every a.reached)))
            | inr n24 ↦ elim (Bool-cases (p.msg_type == 54)) [
              | inl e54 ↦
                  rw (n8, n35, n24, e54)
                    (AllRequested-weaken (suc k) _ _ (omega arith)
                      (on_failure-AllRequested s start end k found w (ground arith) a))
              | inr n54 ↦ rw (n8, n35, n24, n54) (AllRequested-weaken k _ _ (omega arith) a)
            ]
          ]
        ]
      ]

  on_poll-AllRequested :
      (k : ℕ) (p : Poll) (w : WindowState)
      → k + (if is_refusal p then 1 else 0) < 30
      → AllRequested s start end k w
      → AllRequested s start end (k + (if is_refusal p then 1 else 0)) (on_poll s p w).1
  unfolding on_poll
  on_poll-AllRequested k (received p) w few a = on_packet-AllRequested k p w few a
  on_poll-AllRequested k read_error w few a = AllRequested-weaken k (k + 0) w (omega arith) a
  on_poll-AllRequested k elapsed w few a =
      same_requests s start end (k + 0) w _ (omega (arith, a.few)) refl refl a.every a.reached

  read_window-AllRequested :
      (k : ℕ) (st : Status) (w : WindowState) (polls : List Poll)
      → k + refusals polls < 30
      → AllRequested s start end k w
      → AllRequested s start end (k + refusals polls) (read_window s (st, w) polls).1
  unfolding read_window
  read_window-AllRequested k reading w [] few a = AllRequested-weaken k (k + 0) w (omega arith) a
  read_window-AllRequested k reading w (p ∷ polls) few a =
      let c : ℕ = if is_refusal p then 1 else 0 in
      let sum : k + refusals (p ∷ polls) ≡ k + c + refusals polls = omega arith in
      let r = on_poll s p w in
      rw sum (
        read_window-AllRequested (k + c) r.0 r.1 polls (omega arith)
          (on_poll-AllRequested k p w (omega arith) a))
  read_window-AllRequested k finished w polls few a =
      AllRequested-weaken k _ w (le-add_right k (refusals polls)) a
  read_window-AllRequested k write_failed w polls few a =
      AllRequested-weaken k _ w (le-add_right k (refusals polls)) a
  read_window-AllRequested k read_failed w polls few a =
      AllRequested-weaken k _ w (le-add_right k (refusals polls)) a
  read_window-AllRequested k timed_out w polls few a =
      AllRequested-weaken k _ w (le-add_right k (refusals polls)) a
  read_window-AllRequested k panicked w polls few a =
      AllRequested-weaken k _ w (le-add_right k (refusals polls)) a
  read_window-AllRequested k out_of_rounds w polls few a =
      AllRequested-weaken k _ w (le-add_right k (refusals polls)) a

-- If fewer than 30 of the packets that arrive refuse a request, then whatever else arrives and
-- however the connection ends, what was sent are the requests of the ticks from the first one up
-- to the next one to request, each once and in order, and none is skipped.
pub run_window-tick_requests :
    (s : Session) (shared : BackfillShared) (current_tick indexed_tick : ℕ)
    (published : List Published) (polls : List Poll)
    → s.worker_end < 2 ^ 32
    → refusals polls < 30
    → let w = (run_window s (start_window s current_tick shared indexed_tick published) polls).1 in
      w.sent ≡ tick_requests s.random 0 current_tick (w.next_tick - current_tick)
unfolding run_window start_window
run_window-tick_requests s shared current_tick indexed_tick published polls end few =
    let w = start_window s current_tick shared indexed_tick published in
    let none_yet : current_tick - current_tick ≡ 0 = omega arith in
    let started : AllRequested s current_tick end 0 w = record {
      few = omega arith;
      reached = omega arith;
      every = rw none_yet refl;
    } in
    let filled = refill s w in
    (read_window-AllRequested s current_tick end 0 filled.0 filled.1 polls (omega arith)
      (refill-AllRequested s current_tick end 0 w (omega arith) started)).every
