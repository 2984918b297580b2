-- ===== src/Ingestion/Backfill/Filling.antt =====
-- What the filling of the window keeps, and when it stops.
use qonduit.Common.{
  ℕ, zero, suc, ◌+◌, ◌-◌, ◌^◌, ◌≤◌, ◌<◌, [], ◌∷◌, true, false, ◌≡◌, ◌⊎◌, inl, inr, refl, max, leb,
  ltb, length, All, All-append, Bool-cases, arith, length-append, if◌then◌else◌, ltb→lt, leb→le,
}
use qonduit.Ingestion.Backfill.State.{
  ExpectedResponse, expected_tick, transaction_end, WindowState, Session, Status, reading, finished,
  write_failed, read_failed, timed_out, panicked, out_of_rounds, skip_ahead, request_next,
}
use qonduit.Ingestion.Backfill.{fill_pipeline}

abbrev pub IsTick : ExpectedResponse → Type 0
IsTick (expected_tick t d) = Unit
IsTick (transaction_end t d) = ⊥

-- What holds of the window between two packets.
pub record IsValid (worker_end : ℕ) (w : WindowState) : Type 0 where
  pub bounded : length w.expected ≤ 20
  pub within : w.next_tick ≤ worker_end
  pub skip_low : 10000 ≤ w.skip_size
  pub skip_high : w.skip_size ≤ 1000000
  pub budget : w.consecutive_failures + length w.expected ≤ 50
  pub ticks_only : All IsTick w.expected

module _ (s : Session) where
  open s use {worker_end, random, writable}

  -- The ways one round of the filling goes.
  data Round (n : ℕ) (w : WindowState) : Type 0 where
    full :
        (worker_end ≤ w.next_tick) ⊎ (20 ≤ length w.expected)
        → fill_pipeline s (suc n) w ≡ (reading, w)
        → Round n w
    skips :
        w.next_tick < worker_end
        → 30 ≤ w.consecutive_failures
        → fill_pipeline s (suc n) w ≡ fill_pipeline s n (skip_ahead worker_end w)
        → Round n w
    requests :
        w.next_tick < worker_end
        → length w.expected < 20
        → w.consecutive_failures < 30
        → fill_pipeline s (suc n) w ≡ fill_pipeline s n (request_next random w)
        → Round n w
    fails :
        writable (length w.sent) ≡ false → fill_pipeline s (suc n) w ≡ (write_failed, w) → Round n w

  round : (n : ℕ) (w : WindowState) → Round n w
  unfolding fill_pipeline
  round n w = elim (Bool-cases (ltb w.next_tick worker_end)) [
    | inr done ↦ full (inl (ground arith)) (rw done refl)
    | inl more ↦ elim (Bool-cases (ltb (length w.expected) 20)) [
      | inr done ↦ full (inr (ground arith)) (rw (more, done) refl)
      | inl room ↦ elim (Bool-cases (leb 30 w.consecutive_failures)) [
        | inl many ↦ skips (ltb→lt _ _ more) (leb→le _ _ many) (rw (more, room, many) refl)
        | inr few ↦ elim (Bool-cases (writable (length w.sent))) [
          | inl writes ↦
              requests (ltb→lt _ _ more) (ltb→lt _ _ room) (ground arith)
                (rw (more, room, few, writes) refl)
          | inr broken ↦ fails broken (rw (more, room, few, broken) refl)
        ]
      ]
    ]
  ]

  -- What a skip and a request keep, the filling keeps.
  module _ {ℓ} (P : WindowState → Type ℓ)
      (skip : (w : WindowState)
        → P w
        → w.next_tick < worker_end
        → 30 ≤ w.consecutive_failures
        → P (skip_ahead worker_end w))
      (request : (w : WindowState)
        → P w
        → w.next_tick < worker_end
        → length w.expected < 20
        → w.consecutive_failures < 30
        → P (request_next random w)) where
    fill_zero : (w : WindowState) → P w → P (fill_pipeline s zero w).1
    unfolding fill_pipeline
    fill_zero w h = h

    pub fill_induction : (n : ℕ) (w : WindowState) → P w → P (fill_pipeline s n w).1
    fill_induction zero w h = fill_zero w h
    fill_induction (suc n) w h = elim (round n w) [
      | full _ e ↦ rw e h
      | skips more many e ↦ rw e (fill_induction n (skip_ahead worker_end w) (skip w h more many))
      | requests more room few e ↦
          rw e (fill_induction n (request_next random w) (request w h more room few))
      | fails _ e ↦ rw e h
    ]

  pub skip_ahead-IsValid :
      (w : WindowState) → IsValid worker_end w → IsValid worker_end (skip_ahead worker_end w)
  unfolding skip_ahead
  skip_ahead-IsValid w v = ground arith

  pub request_next-IsValid :
      (w : WindowState)
      → worker_end < 2 ^ 32
      → w.next_tick < worker_end
      → length w.expected < 20
      → w.consecutive_failures < 30
      → IsValid worker_end w
      → IsValid worker_end (request_next random w)
  unfolding request_next
  request_next-IsValid w end more room few v =
      let e = expected_tick w.next_tick (max (random (length w.sent)) 1) in
      let longer = length-append w.expected (e ∷ []) in
      record {
        bounded = omega (arith, longer);
        within = omega (arith, v.within);
        skip_low = v.skip_low;
        skip_high = v.skip_high;
        budget = omega (arith, longer);
        ticks_only = All-append IsTick w.expected (e ∷ []) v.ticks_only (tt, tt);
      }

  pub fill_pipeline-IsValid :
      (n : ℕ) (w : WindowState)
      → worker_end < 2 ^ 32
      → IsValid worker_end w
      → IsValid worker_end (fill_pipeline s n w).1
  fill_pipeline-IsValid n w end v =
      fill_induction (IsValid worker_end) (λ u h more many. skip_ahead-IsValid u h)
        (λ u h more room few. request_next-IsValid u end more room few h) n w v

  -- The rounds that the filling still takes before the last one.
  abbrev pub rounds : WindowState → ℕ
  rounds w = 20 - length w.expected + (if leb 30 w.consecutive_failures then 1 else 0)

  -- How the filling ends: the window is full or every tick is requested, or a write fails.
  abbrev pub Ended : Status → WindowState → Type 0
  Ended reading w = (worker_end ≤ w.next_tick) ⊎ (20 ≤ length w.expected)
  Ended write_failed w = Unit
  Ended finished w = ⊥
  Ended read_failed w = ⊥
  Ended timed_out w = ⊥
  Ended panicked w = ⊥
  Ended out_of_rounds w = ⊥

  rounds-skip_ahead :
      (w : WindowState) → 30 ≤ w.consecutive_failures → rounds (skip_ahead worker_end w) < rounds w
  unfolding skip_ahead
  rounds-skip_ahead w h = ground arith

  rounds-request_next :
      (w : WindowState)
      → length w.expected < 20
      → w.consecutive_failures < 30
      → rounds (request_next random w) < rounds w
  unfolding request_next
  rounds-request_next w room few =
      let e = expected_tick w.next_tick (max (random (length w.sent)) 1) in
      ground (arith, length-append w.expected (e ∷ []))

  -- With enough fuel the filling does not run out of rounds.
  pub fill_pipeline-Ended :
      (n : ℕ) (w : WindowState)
      → rounds w < n
      → Ended (fill_pipeline s n w).0 (fill_pipeline s n w).1
  fill_pipeline-Ended zero w h = absurd (omega arith)
  fill_pipeline-Ended (suc n) w h = elim (round n w) [
    | full done e ↦ rw e done
    | skips more many e ↦
        rw e (
          fill_pipeline-Ended n (skip_ahead worker_end w) (omega (arith, rounds-skip_ahead w many)))
    | requests more room few e ↦ rw e (
        fill_pipeline-Ended n (request_next random w)
          (omega (arith, rounds-request_next w room few)))
    | fails broken e ↦ rw e tt
  ]

  -- On a stream that takes every request the filling does not fail.
  pub fill_pipeline-writes :
      ((i : ℕ) → writable i ≡ true)
      → (n : ℕ) (w : WindowState) → rounds w < n
      → (fill_pipeline s n w).0 ≡ reading
  fill_pipeline-writes takes zero w h = absurd (omega arith)
  fill_pipeline-writes takes (suc n) w h = elim (round n w) [
    | full done e ↦ rw e refl
    | skips more many e ↦ rw e (
        fill_pipeline-writes takes n (skip_ahead worker_end w)
          (omega (arith, rounds-skip_ahead w many)))
    | requests more room few e ↦ rw e (
        fill_pipeline-writes takes n (request_next random w)
          (omega (arith, rounds-request_next w room few)))
    | fails broken e ↦ absurd (ground (arith, takes (length w.sent)))
  ]
