-- ===== src/Ingestion/Backfill/Complete.antt =====
-- What answers leave of the requests in order.
use qonduit.Common.{
  ℕ, zero, suc, ◌+◌, ◌-◌, ◌%◌, ◌^◌, ◌≤◌, ◌<◌, max, List, [], ◌∷◌, ◌++◌, Bool, false, ◌||◌, Option,
  none, some, ◌≡◌, inl, inr, refl, ap, ◌∙◌, ltb, ◌==◌, length, Bool-cases, arith, if◌then◌else◌,
}
use qonduit.Bytes.{Bytes, Result, ok, err, panic}
use qonduit.Ingestion.Protocol.{Poll, received, read_error, elapsed}
use qonduit.Ingestion.Backfill.State.{
  ExpectedResponse, expected_tick, transaction_end, WindowState, Session, Status, reading, finished,
  write_failed, read_failed, timed_out, panicked, out_of_rounds, request_next, settle,
}
use qonduit.Ingestion.Backfill.{
  fill_pipeline, refill, after_tick, on_tick, on_failure, after_transaction,
}
use qonduit.Ingestion.Backfill.Filling.{fill_induction}

-- The requests of n ticks from t on, the first of them the i-th of the connection.
abbrev pub tick_requests : (ℕ → ℕ) → ℕ → ℕ → ℕ → List ExpectedResponse
tick_requests random i t zero = []
tick_requests random i t (suc n) =
    expected_tick t (max (random i) 1) ∷ tick_requests random (i + 1) (t + 1) n

-- The packets by which a node refuses a request.
abbrev pub is_refusal : Poll → Bool
is_refusal (received p) = p.msg_type == 35 || p.msg_type == 54
is_refusal read_error = false
is_refusal elapsed = false

abbrev pub refusals : List Poll → ℕ
refusals [] = 0
refusals (p ∷ polls) = (if is_refusal p then 1 else 0) + refusals polls

length-tick_requests : (random : ℕ → ℕ) (i t n : ℕ) → length (tick_requests random i t n) ≡ n
length-tick_requests random i t zero = refl
length-tick_requests random i t (suc n) = ap suc (length-tick_requests random (i + 1) (t + 1) n)

tick_requests-snoc :
    (random : ℕ → ℕ) (i t n : ℕ)
    → tick_requests random i t n ++ (expected_tick (t + n) (max (random (i + n)) 1) ∷ [])
      ≡ tick_requests random i t (suc n)
tick_requests-snoc random i t zero =
    let e : t + 0 ≡ t = omega arith in let f : i + 0 ≡ i = omega arith in rw (e, f) refl
tick_requests-snoc random i t (suc n) =
    let e : t + suc n ≡ t + 1 + n = omega arith in
    let f : i + suc n ≡ i + 1 + n = omega arith in
    rw (e, f)
      (ap (λ l. expected_tick t (max (random i) 1) ∷ l)
        (tick_requests-snoc random (i + 1) (t + 1) n))

module _ (s : Session) (start : ℕ) (end : s.worker_end < 2 ^ 32) where
  open s use {worker_end, random}

  -- Every tick up to the next one is requested, and at most k answers failed.
  pub record AllRequested (k : ℕ) (w : WindowState) : Type 0 where
    pub few : w.consecutive_failures ≤ k
    pub reached : start ≤ w.next_tick
    pub every : w.sent ≡ tick_requests random 0 start (w.next_tick - start)

  request_next-AllRequested :
      (k : ℕ) (w : WindowState)
      → w.next_tick < worker_end
      → AllRequested k w
      → AllRequested k (request_next random w)
  unfolding request_next
  request_next-AllRequested k w more a =
      let n = w.next_tick - start in
      let here : start + n ≡ w.next_tick = omega (arith, a.reached) in
      let next : (w.next_tick + 1) % 2 ^ 32 - start ≡ suc n = omega (arith, a.reached) in
      let count : length w.sent ≡ n = ap length a.every ∙ length-tick_requests random 0 start n in
      let index : 0 + n ≡ length w.sent = omega arith in
      let longer = tick_requests-snoc random 0 start n in
      record {
        few = a.few;
        reached = omega (arith, a.reached);
        every = rw (next, ← longer, here, index, a.every) refl;
      }

  fill-AllRequested :
      (k n : ℕ) (w : WindowState)
      → k < 30
      → AllRequested k w
      → AllRequested k (fill_pipeline s n w).1
  fill-AllRequested k n w few a =
      fill_induction s (AllRequested k) (λ u h more many. absurd (omega (arith, h.few)))
        (λ u h more room less. request_next-AllRequested k u more h) n w a

  -- What leaves the requests alone, and the failures below the bound, keeps it.
  pub same_requests :
      (k : ℕ) (w u : WindowState)
      → u.consecutive_failures ≤ k
      → u.next_tick ≡ w.next_tick
      → u.sent ≡ w.sent
      → w.sent ≡ tick_requests random 0 start (w.next_tick - start)
      → start ≤ w.next_tick
      → AllRequested k u
  same_requests k w u few next sent every reached = record {
    few = few;
    reached = omega arith;
    every = rw (next, sent) every;
  }

  settle_window : (st : Status) (w : WindowState) → (settle (st, w)).1 ≡ w
  settle_window reading w = refl
  settle_window finished w = refl
  settle_window write_failed w = refl
  settle_window read_failed w = refl
  settle_window timed_out w = refl
  settle_window panicked w = refl
  settle_window out_of_rounds w = refl

  pub refill-AllRequested :
      (k : ℕ) (w : WindowState) → k < 30 → AllRequested k w → AllRequested k (refill s w).1
  unfolding refill
  refill-AllRequested k w few a =
      let filled = fill_pipeline s 22 w in
      rw (settle_window filled.0 filled.1) (fill-AllRequested k 22 w few a)

  after_tick-AllRequested :
      (k resp_tick : ℕ) (w : WindowState) (o : Result (Unit {0}))
      → k < 30
      → AllRequested k w
      → AllRequested k (after_tick s resp_tick o w).1
  unfolding after_tick
  after_tick-AllRequested k resp_tick w (ok x) few a =
      refill-AllRequested k _ few (same_requests k w _ a.few refl refl a.every a.reached)
  after_tick-AllRequested k resp_tick w (err e) few a =
      refill-AllRequested k _ few (same_requests k w _ a.few refl refl a.every a.reached)
  after_tick-AllRequested k resp_tick w panic few a = a

  pub on_tick-AllRequested :
      (k : ℕ) (payload : Bytes) (o : Option (ExpectedResponse × List ExpectedResponse))
      (w : WindowState)
      → k < 30
      → AllRequested k w
      → AllRequested k (on_tick s payload o w).1
  unfolding on_tick
  on_tick-AllRequested k payload none w few a = a
  on_tick-AllRequested k payload (some (e, rest)) w few a =
      elim (Bool-cases (ltb (length payload) 8)) [
        | inl short ↦
            rw short
              (refill-AllRequested k _ few (same_requests k w _ a.few refl refl a.every a.reached))
        | inr long ↦ rw long (
            after_tick-AllRequested k _ _ _ few
              (same_requests k w _ (omega arith) refl refl a.every a.reached))
      ]

  pub on_failure-AllRequested :
      (k : ℕ) (o : Option (ExpectedResponse × List ExpectedResponse)) (w : WindowState)
      → suc k < 30
      → AllRequested k w
      → AllRequested (suc k) (on_failure s o w).1
  unfolding on_failure
  on_failure-AllRequested k none w few a =
      same_requests (suc k) w w (omega (arith, a.few)) refl refl a.every a.reached
  on_failure-AllRequested k (some (transaction_end t d, rest)) w few a =
      rw (settle_window reading (record w { expected = rest }))
        (same_requests (suc k) w _ (omega (arith, a.few)) refl refl a.every a.reached)
  on_failure-AllRequested k (some (expected_tick t d, rest)) w few a =
      refill-AllRequested (suc k) _ few
        (same_requests (suc k) w _ (omega (arith, a.few)) refl refl a.every a.reached)

  pub after_transaction-AllRequested :
      (k : ℕ) (w : WindowState) (o : Result (Unit {0}))
      → AllRequested k w
      → AllRequested k (after_transaction s o w).1
  unfolding after_transaction
  after_transaction-AllRequested k w (ok u) a =
      same_requests k w _ a.few refl refl a.every a.reached
  after_transaction-AllRequested k w (err e) a = a
  after_transaction-AllRequested k w panic a = a
