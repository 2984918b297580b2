-- ===== src/Ingestion/Backfill/Whole.antt =====
-- The workers of the first phase together, each with one connection.
use qonduit.Common.{
  ℕ, zero, suc, ◌+◌, ◌-◌, ◌^◌, ◌≤◌, ◌<◌, max, List, [], ◌∷◌, ◌++◌, map, ◌≡◌, refl, ap, subst, ◌∙◌,
  All, leb, Bool-cases, inl, inr, arith,
}
use qonduit.Ingestion.Dispatch.{Published}
use qonduit.Ingestion.Protocol.{Poll}
use qonduit.Ingestion.Backfill.State.{
  ExpectedResponse, expected_tick, transaction_end, BackfillShared, WindowState, Session, Status,
  finished,
}
use qonduit.Ingestion.Backfill.{start_window, run_window}
use qonduit.Ingestion.Backfill.Plan.{Assignment, chunk_size, assignment, assign, partition}
use qonduit.Ingestion.Backfill.Partition.{ticks, ticks_of, ticks_of-partition}
use qonduit.Ingestion.Backfill.Window.{Holds}
use qonduit.Ingestion.Backfill.Connection.{run_window-Holds}
use qonduit.Ingestion.Backfill.Complete.{tick_requests, refusals}
use qonduit.Ingestion.Backfill.Unskipped.{run_window-tick_requests}

-- What a worker starts with and what arrives for it; the end of its range comes from the plan.
pub record WorkerRun : Type 0 where
  pub session : Session
  pub shared : BackfillShared
  pub indexed_tick : ℕ
  pub published : List Published
  pub polls : List Poll

abbrev pub session_for : Assignment → WorkerRun → Session
session_for a r = record r.session { worker_end = a.worker_end }

abbrev pub run_of : Assignment → WorkerRun → Status × WindowState
run_of a r =
    let s = session_for a r in
    run_window s (start_window s a.worker_start r.shared r.indexed_tick r.published) r.polls

abbrev pub tick_of : ExpectedResponse → ℕ
tick_of (expected_tick t d) = t
tick_of (transaction_end t d) = t

-- The ticks that the workers request, one worker after another.
abbrev pub requested : List Assignment → List WorkerRun → List ℕ
requested [] runs = []
requested (a ∷ plan) [] = []
requested (a ∷ plan) (r ∷ runs) = map tick_of (run_of a r).1.sent ++ requested plan runs

-- Every worker has a run that finishes, with fewer than 30 refusals.
abbrev pub EachFinishes : List Assignment → List WorkerRun → Type 0
EachFinishes [] runs = Unit
EachFinishes (a ∷ plan) [] = ⊥
EachFinishes (a ∷ plan) (r ∷ runs) =
    ((run_of a r).0 ≡ finished) × (refusals r.polls < 30) × EachFinishes plan runs

map-tick_of : (random : ℕ → ℕ) (i t n : ℕ) → map tick_of (tick_requests random i t n) ≡ ticks t n
map-tick_of random i t zero = refl
map-tick_of random i t (suc n) = ap (λ l. t ∷ l) (map-tick_of random (i + 1) (t + 1) n)

abbrev IsRange : ℕ → Assignment → Type 0
IsRange end_tick a = (a.worker_start ≤ a.worker_end) × (a.worker_end ≤ end_tick)

assignment-end :
    (start_tick end_tick workers chunk id : ℕ)
    → (assignment start_tick end_tick workers chunk id).worker_end ≤ end_tick
unfolding assignment
assignment-end start_tick end_tick workers chunk id = ground arith

assign-IsRange :
    (n id start_tick end_tick workers chunk : ℕ)
    → All (IsRange end_tick) (assign n id start_tick end_tick workers chunk)
unfolding assign
assign-IsRange zero id start_tick end_tick workers chunk = tt
assign-IsRange (suc n) id start_tick end_tick workers chunk =
    let a = assignment start_tick end_tick workers chunk id in
    let rest = assign-IsRange n (id + 1) start_tick end_tick workers chunk in
    elim (Bool-cases (leb a.worker_end a.worker_start)) [
      | inl empty ↦ rw empty rest
      | inr some ↦
          rw some ((ground arith, assignment-end start_tick end_tick workers chunk id), rest)
    ]

-- A worker that finishes with few refusals has requested its ticks.
run_of-ticks :
    (end_tick : ℕ) (a : Assignment) (r : WorkerRun)
    → end_tick + 1000000 ≤ 2 ^ 32
    → IsRange end_tick a
    → (run_of a r).0 ≡ finished
    → refusals r.polls < 30
    → map tick_of (run_of a r).1.sent ≡ ticks a.worker_start (a.worker_end - a.worker_start)
run_of-ticks end_tick a r end (within, below) done few =
    let s = session_for a r in
    let base = r.shared.ticks_completed + r.shared.ticks_failed in
    let w = (run_of a r).1 in
    let holds =
      run_window-Holds s r.shared a.worker_start r.indexed_tick r.published r.polls (omega arith)
        within in
    let reached : w.next_tick ≡ a.worker_end =
      (subst (λ st. Holds a.worker_end a.worker_start base st w) done holds).0 in
    let sent =
      run_window-tick_requests s r.shared a.worker_start r.indexed_tick r.published r.polls
        (omega arith) few in
    ap (map tick_of) sent
    ∙ map-tick_of s.random 0 a.worker_start (w.next_tick - a.worker_start)
    ∙ ap (λ k. ticks a.worker_start (k - a.worker_start)) reached

requested-ticks_of :
    (end_tick : ℕ) (plan : List Assignment) (runs : List WorkerRun)
    → end_tick + 1000000 ≤ 2 ^ 32
    → All (IsRange end_tick) plan
    → EachFinishes plan runs
    → requested plan runs ≡ ticks_of plan
requested-ticks_of end_tick [] runs end ranges served = refl
requested-ticks_of end_tick (a ∷ plan) [] end ranges served = absurd served
requested-ticks_of end_tick (a ∷ plan) (r ∷ runs) end (range, ranges) (done, few, served) =
    rw
      (
        run_of-ticks end_tick a r end range done few,
        requested-ticks_of end_tick plan runs end ranges served,
      )
      refl

partition-IsRange :
    (workers count start_tick end_tick : ℕ)
    → All (IsRange end_tick) (partition workers count start_tick end_tick)
unfolding partition
partition-IsRange workers count start_tick end_tick =
    let w = max workers 1 in assign-IsRange w 0 start_tick end_tick w (chunk_size count w)

-- If every worker of the plan finishes its connection and is refused fewer than 30 requests, then
-- the workers together have requested every tick of the range exactly once, in order.
pub requested-partition :
    (workers count start_tick end_tick : ℕ) (runs : List WorkerRun)
    → start_tick + max count (max workers 1) < 2 ^ 32
    → end_tick + 1000000 ≤ 2 ^ 32
    → EachFinishes (partition workers count start_tick end_tick) runs
    → requested (partition workers count start_tick end_tick) runs
      ≡ ticks start_tick (end_tick - start_tick)
requested-partition workers count start_tick end_tick runs fits end served =
    requested-ticks_of end_tick (partition workers count start_tick end_tick) runs end
      (partition-IsRange workers count start_tick end_tick) served
    ∙ ticks_of-partition workers count start_tick end_tick fits
