-- ===== src/Ingestion/Backfill/Answers.antt =====
-- What the answers to requests do to the sliding window.
use qonduit.Common.{
  ℕ, suc, ◌+◌, ◌^◌, ◌≤◌, List, Option, none, some, ◌≡◌, ◌≢◌, inl, inr, refl, ltb, length, All,
  Bool-cases, Option-cases, arith,
}
use qonduit.Bytes.{Bytes, Result, ok, err, panic}
use qonduit.Ingestion.Dispatch.{Published, transaction}
use qonduit.Ingestion.Decoders.Transaction.Totality.{decode_transaction-Decoded}
use qonduit.Ingestion.Backfill.State.{
  ExpectedResponse, expected_tick, transaction_end, BackfillShared, WindowState, Session, reading,
  take_out, count_failed,
}
use qonduit.Ingestion.Backfill.{
  complete, after_tick, on_tick, on_failure, after_transaction, decode_and_publish,
}
use qonduit.Ingestion.Backfill.Filling.{IsTick, IsValid}
use qonduit.Ingestion.Backfill.Window.{Accounted, Holds, Ready, refill-Holds, take_out-some}
use qonduit.Ingestion.Dispatch.Panics.{calm, publish_one-IsCalm}

module _ (s : Session) (start base : ℕ) (end : s.worker_end + 1000000 ≤ 2 ^ 32) where
  open s use {worker_end, random}

  -- What is left when an answer is taken out of the window.
  abbrev pub Taken : WindowState → List ExpectedResponse → Type 0
  Taken w rest =
      IsValid worker_end w
      × Accounted worker_end start base (length w.expected) w
      × (length w.expected ≡ suc (length rest))
      × All IsTick rest

  pub complete_tick :
      (u : WindowState) (rest : List ExpectedResponse) (resp_tick : ℕ) (counted : BackfillShared)
      → Taken u rest
      → counted.ticks_completed ≡ u.shared.ticks_completed
      → counted.ticks_failed ≡ u.shared.ticks_failed
      → (out : List Published)
      → Ready s start base end (
          complete s resp_tick (record u {
            expected = rest;
            consecutive_failures = 0;
            skip_size = 10000;
            published = out;
            shared = counted;
          }))
  complete_tick u rest resp_tick counted (v, a, shorter, others) c f out = (
    record {
      bounded = omega (arith, v.bounded);
      within = v.within;
      skip_low = omega arith;
      skip_high = omega arith;
      budget = omega (arith, v.bounded);
      ticks_only = others;
    },
    record { within = a.within; ascending = a.ascending; ledger = omega (arith, a.ledger) },
  )

  after_tick-Holds :
      (u : WindowState) (rest : List ExpectedResponse) (resp_tick : ℕ) (o : Result (Unit {0}))
      → Taken u rest
      → (out : List Published)
      → let r = after_tick s resp_tick o (record u {
        expected = rest;
        consecutive_failures = 0;
        skip_size = 10000;
        published = out;
      }) in
        Holds worker_end start base r.0 r.1
  unfolding after_tick
  after_tick-Holds u rest resp_tick (ok x) t out =
      refill-Holds s start base end _ (complete_tick u rest resp_tick _ t refl refl out)
  after_tick-Holds u rest resp_tick (err e) t out =
      refill-Holds s start base end _ (complete_tick u rest resp_tick u.shared t refl refl out)
  after_tick-Holds u rest resp_tick panic (v, a, shorter, others) out = record {
    within = a.within;
    ascending = a.ascending;
    ledger = omega (arith, a.ledger);
  }

  -- A failed answer: the failures in a row are counted by k.
  pub failed_tick :
      (u : WindowState) (rest : List ExpectedResponse) (failures : ℕ)
      → Taken u rest
      → failures ≤ u.consecutive_failures + 1
      → Ready s start base end (record u {
        expected = rest;
        consecutive_failures = failures;
        shared = count_failed u.shared;
      })
  unfolding count_failed
  failed_tick u rest failures (v, a, shorter, others) h = (
    record {
      bounded = omega (arith, v.bounded);
      within = v.within;
      skip_low = v.skip_low;
      skip_high = v.skip_high;
      budget = omega (arith, v.budget);
      ticks_only = others;
    },
    record { within = a.within; ascending = a.ascending; ledger = omega (arith, a.ledger) },
  )

  -- The state of the loop while it reads.
  abbrev pub Reading : WindowState → Type 0
  Reading w = Holds worker_end start base reading w

  -- What a lookup in the window may give.
  abbrev pub Lookup : WindowState → Option (ExpectedResponse × List ExpectedResponse) → Type 0
  Lookup w none = Unit
  Lookup w (some (e, rest)) = IsTick e × Taken w rest

  pub lookup : (w : WindowState) (d : ℕ) → Reading w → Lookup w (take_out d w.expected)
  lookup w d (v, a, full) = elim (Option-cases (take_out d w.expected)) [
    | inl e ↦ rw e tt
    | inr ((x, rest), e) ↦
        let (shorter, tick, others) = take_out-some d w.expected v.ticks_only e in
        rw e (tick, (v, a, shorter, others))
  ]

  pub on_tick-Holds :
      (w : WindowState) (payload : Bytes) (o : Option (ExpectedResponse × List ExpectedResponse))
      → Reading w
      → Lookup w o
      → let r = on_tick s payload o w in Holds worker_end start base r.0 r.1
  unfolding on_tick
  on_tick-Holds w payload none h l = h
  on_tick-Holds w payload (some (e, rest)) h (tick, t) =
      elim (Bool-cases (ltb (length payload) 8)) [
        | inl short ↦ rw short (
            refill-Holds s start base end _
              (failed_tick w rest w.consecutive_failures t (omega arith)))
        | inr long ↦ rw long (after_tick-Holds w rest _ _ t _)
      ]

  pub on_failure-Holds :
      (w : WindowState) (o : Option (ExpectedResponse × List ExpectedResponse))
      → Reading w
      → Lookup w o
      → let r = on_failure s o w in Holds worker_end start base r.0 r.1
  unfolding on_failure
  on_failure-Holds w none h l = h
  on_failure-Holds w (some (transaction_end t d, rest)) h (tick, l) = absurd tick
  on_failure-Holds w (some (expected_tick t d, rest)) h (tick, l) =
      refill-Holds s start base end _ (failed_tick w rest _ l (omega arith))

  -- Counters of transactions and published messages change nothing of it.
  same_ticks :
      (w : WindowState) (c : BackfillShared) (out : List Published)
      → c.ticks_completed ≡ w.shared.ticks_completed
      → c.ticks_failed ≡ w.shared.ticks_failed
      → Reading w
      → Reading (record w { shared = c; published = out })
  same_ticks w c out p q (v, a, full) = (
    record {
      bounded = v.bounded;
      within = v.within;
      skip_low = v.skip_low;
      skip_high = v.skip_high;
      budget = v.budget;
      ticks_only = v.ticks_only;
    },
    record { within = a.within; ascending = a.ascending; ledger = omega (arith, a.ledger) },
    full,
  )

  pub after_transaction-Holds :
      (w : WindowState) (o : Result (Unit {0})) (out : List Published)
      → Reading w
      → o ≢ panic
      → let r = after_transaction s o (record w { published = out }) in
        Holds worker_end start base r.0 r.1
  unfolding after_transaction
  after_transaction-Holds w (ok u) out h no_panic = same_ticks w _ out refl refl h
  after_transaction-Holds w (err e) out h no_panic = same_ticks w w.shared out refl refl h
  after_transaction-Holds w panic out h no_panic = absurd (no_panic refl)

  pub transaction-IsCalm :
      (payload : Bytes) → (decode_and_publish s 24 payload s.epoch).outcome ≢ panic
  unfolding decode_and_publish
  transaction-IsCalm payload =
      elim (publish_one-IsCalm s.lib s.publish 80 payload (transaction s.epoch) _
        (decode_transaction-Decoded s.lib payload)) [ calm k ↦ k ]
