-- ===== src/Ingestion/Backfill/Window.antt =====
-- The invariant of the sliding window through a whole connection.
use qonduit.Common.{
  ℕ, suc, ◌+◌, ◌%◌, ◌^◌, ◌≤◌, ◌<◌, max, List, [], ◌∷◌, ◌++◌, Option, none, some, ◌≡◌, ◌⊎◌, inl, inr,
  refl, ap, sym, subst, ◌==◌, length, All, Bool-cases, some_injective, arith, length-append,
}
use qonduit.Ingestion.Backfill.State.{
  put_back, ExpectedResponse, expected_tick, transaction_end, dejavu, WindowState, Session, Status,
  reading, finished, write_failed, read_failed, timed_out, panicked, out_of_rounds, skip_ahead,
  request_next, settle, status_of, take_out,
}
use qonduit.Ingestion.Backfill.{fill_pipeline, refill}
use qonduit.Ingestion.Backfill.Filling.{
  IsTick, IsValid, fill_induction, skip_ahead-IsValid, request_next-IsValid, Ended, rounds,
  fill_pipeline-Ended,
}

-- The requests ask for ticks from lo up to hi, each greater than those before.
abbrev pub Ascending : ℕ → List ExpectedResponse → ℕ → Type 0
Ascending lo [] hi = lo ≤ hi
Ascending lo (expected_tick t d ∷ es) hi = (lo ≤ t) × Ascending (t + 1) es hi
Ascending lo (transaction_end t d ∷ es) hi = ⊥

Ascending-weaken :
    (lo hi hi' : ℕ) (es : List ExpectedResponse)
    → hi ≤ hi'
    → Ascending lo es hi
    → Ascending lo es hi'
Ascending-weaken lo hi hi' [] h a = omega arith
Ascending-weaken lo hi hi' (expected_tick t d ∷ es) h (p, a) =
    (p, Ascending-weaken (t + 1) hi hi' es h a)
Ascending-weaken lo hi hi' (transaction_end t d ∷ es) h a = a

Ascending-append :
    (lo hi d : ℕ) (es : List ExpectedResponse)
    → Ascending lo es hi
    → Ascending lo (es ++ (expected_tick hi d ∷ [])) (hi + 1)
Ascending-append lo hi d [] a = (a, omega arith)
Ascending-append lo hi d (expected_tick t d' ∷ es) (p, a) = (p, Ascending-append (t + 1) hi d es a)
Ascending-append lo hi d (transaction_end t d' ∷ es) a = a

-- The answers that are still to come are accounted for as `pending`: the requests of the
-- connection are those completed, those failed and these. The counters are read modulo 2^64.
pub record Accounted (worker_end start base pending : ℕ) (w : WindowState) : Type 0 where
  pub within : w.next_tick ≤ worker_end
  pub ascending : Ascending start w.sent w.next_tick
  pub ledger :
      (w.shared.ticks_completed + w.shared.ticks_failed + pending) % 2 ^ 64
      ≡ (base + length w.sent) % 2 ^ 64

abbrev pub Pending : ℕ → ℕ → ℕ → WindowState → Type 0
Pending worker_end start base w = Accounted worker_end start base (length w.expected) w

-- What a connection guarantees in each state of its loop.
abbrev pub Holds : ℕ → ℕ → ℕ → Status → WindowState → Type 0
Holds worker_end start base reading w =
    IsValid worker_end w
    × Pending worker_end start base w
    × (((w.next_tick ≡ worker_end) × (0 < length w.expected)) ⊎ (length w.expected ≡ 20))
Holds worker_end start base finished w =
    (w.next_tick ≡ worker_end) × Accounted worker_end start base 0 w
Holds worker_end start base write_failed w = Pending worker_end start base w
Holds worker_end start base read_failed w = Pending worker_end start base w
Holds worker_end start base timed_out w = Accounted worker_end start base 0 w
Holds worker_end start base panicked w = Accounted worker_end start base (length w.expected + 1) w
Holds worker_end start base out_of_rounds w = ⊥

-- What `take_out` finds and leaves.
put_back-some :
    (x : ExpectedResponse) (o : Option (ExpectedResponse × List ExpectedResponse))
    {e : ExpectedResponse} {rest : List ExpectedResponse}
    → put_back x o ≡ some (e, rest)
    → (rest' : List ExpectedResponse) × (o ≡ some (e, rest')) × (rest ≡ x ∷ rest')
put_back-some x none h = absurd (ground arith)
put_back-some x (some (f, fs)) h = (fs, ground arith, ground arith)

pub take_out-some :
    (d : ℕ) (es : List ExpectedResponse) {e : ExpectedResponse} {rest : List ExpectedResponse}
    → All IsTick es
    → take_out d es ≡ some (e, rest)
    → (length es ≡ suc (length rest)) × IsTick e × All IsTick rest
unfolding take_out
take_out-some d [] a h = absurd (ground arith)
take_out-some d (x ∷ es) {e} {rest} (a, as') h = elim (Bool-cases (dejavu x == d)) [
  | inl t ↦
      let found = some_injective (rw t at h) in
      let same : x ≡ e = ap (λ p. p.0) found in
      let left : es ≡ rest = ap (λ p. p.1) found in
      (rw left refl, subst IsTick same a, subst (All IsTick) left as')
  | inr f ↦
      let (rest', found, left) = put_back-some x (take_out d es) (rw f at h) in
      let (shorter, tick, others) = take_out-some d es as' found in
      (rw (left, shorter) refl, tick, subst (All IsTick) (sym left) (a, others))
]

module _ (s : Session) (start base : ℕ) (end : s.worker_end + 1000000 ≤ 2 ^ 32) where
  open s use {worker_end, random}

  -- What a filling starts from.
  abbrev pub Ready : WindowState → Type 0
  Ready w = IsValid worker_end w × Pending worker_end start base w

  skip_ahead-Pending :
      (w : WindowState)
      → IsValid worker_end w
      → w.next_tick < worker_end
      → Pending worker_end start base w
      → Pending worker_end start base (skip_ahead worker_end w)
  unfolding skip_ahead
  skip_ahead-Pending w v more a = record {
    within = omega arith;
    ascending =
        Ascending-weaken start w.next_tick _ w.sent (omega (arith, v.skip_high)) a.ascending;
    ledger = a.ledger;
  }

  request_next-Pending :
      (w : WindowState)
      → w.next_tick < worker_end
      → Pending worker_end start base w
      → Pending worker_end start base (request_next random w)
  unfolding request_next
  request_next-Pending w more a =
      let d = max (random (length w.sent)) 1 in
      let e = expected_tick w.next_tick d in
      let no_wrap : (w.next_tick + 1) % 2 ^ 32 ≡ w.next_tick + 1 = omega arith in
      record {
        within = omega arith;
        ascending = rw no_wrap (Ascending-append start w.next_tick d w.sent a.ascending);
        ledger =
            omega
              (arith, a.ledger, length-append w.expected (e ∷ []), length-append w.sent (e ∷ []));
      }

  fill_pipeline-Ready : (n : ℕ) (w : WindowState) → Ready w → Ready (fill_pipeline s n w).1
  fill_pipeline-Ready n w h =
      fill_induction s Ready
        (λ u (v, a) more many. (skip_ahead-IsValid s u v, skip_ahead-Pending u v more a))
        (λ u (v, a) more room few.
          (request_next-IsValid s u (omega arith) more room few v, request_next-Pending u more a))
        n w h

  status_of-Holds :
      (u : WindowState) (es : List ExpectedResponse)
      → es ≡ u.expected
      → Ready u
      → Ended s reading u
      → Holds worker_end start base (status_of es) u
  status_of-Holds u [] q (v, a) e =
      let none_left : length u.expected ≡ 0 = sym (ap length q) in
      (omega (arith, v.within), rw none_left at a)
  status_of-Holds u (x ∷ es) q (v, a) e =
      let some_left : length u.expected ≡ suc (length es) = sym (ap length q) in
      (v, a, ground (arith, v.within, v.bounded))

  settle-Holds :
      (st : Status) (u : WindowState)
      → Ready u
      → Ended s st u
      → Holds worker_end start base (settle (st, u)).0 (settle (st, u)).1
  settle-Holds reading u (v, a) e = status_of-Holds u u.expected refl (v, a) e
  settle-Holds write_failed u (v, a) e = a
  settle-Holds finished u r e = absurd e
  settle-Holds read_failed u r e = absurd e
  settle-Holds timed_out u r e = absurd e
  settle-Holds panicked u r e = absurd e
  settle-Holds out_of_rounds u r e = absurd e

  pub refill-Holds :
      (w : WindowState) → Ready w → Holds worker_end start base (refill s w).0 (refill s w).1
  unfolding refill
  refill-Holds w (v, a) =
      let r = fill_pipeline s 22 w in
      let enough : rounds s w < 22 = ground (arith, v.bounded) in
      settle-Holds r.0 r.1 (fill_pipeline-Ready 22 w (v, a)) (fill_pipeline-Ended s 22 w enough)
