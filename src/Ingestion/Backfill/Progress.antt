-- ===== src/Ingestion/Backfill/Progress.antt =====
-- What each packet leaves to be requested and answered on a connection to a node that serves.
use qonduit.Common.{
  ℕ, ◌+◌, ◌-◌, ◌^◌, ◌≤◌, ◌<◌, max, List, [], ◌∷◌, Bool, true, false, ◌&&◌, ◌||◌, Option, none, some,
  ◌≡◌, ◌≢◌, ◌⊎◌, inl, inr, refl, ltb, ◌==◌, length, Bool-cases, ==_iff, ==_ne, arith, length-append,
}
use native.Mathlib.Nat.{le_refl}
use qonduit.Bytes.{Bytes, Result, ok, err, panic}
use qonduit.Ingestion.Dispatch.{Published}
use qonduit.Ingestion.Protocol.{Packet, Poll, received, read_error, elapsed}
use qonduit.Ingestion.Decoders.Tick.{decode_tick}
use qonduit.Ingestion.Backfill.State.{
  ExpectedResponse, expected_tick, transaction_end, WindowState, Session, Status, reading, finished,
  write_failed, read_failed, timed_out, panicked, out_of_rounds, skip_ahead, request_next, settle,
  status_of, take_out,
}
use qonduit.Ingestion.Backfill.{
  fill_pipeline, refill, after_tick, on_tick, on_failure, after_transaction, on_packet,
  decode_and_publish,
}
use qonduit.Ingestion.Backfill.Filling.{
  IsValid, fill_induction, skip_ahead-IsValid, request_next-IsValid, fill_pipeline-writes,
}
use qonduit.Ingestion.Backfill.Answers.{
  complete_tick, failed_tick, Taken, Lookup, Reading, lookup, transaction-IsCalm,
}
use qonduit.Ingestion.Dispatch.Panics.{publish_one-panic}

abbrev pub is_some : Option (ExpectedResponse × List ExpectedResponse) → Bool
is_some none = false
is_some (some x) = true

-- A packet answers a pending request.
abbrev pub is_answer : Packet → WindowState → Bool
is_answer p w =
    (p.msg_type == 8 || p.msg_type == 35 || p.msg_type == 54)
    && is_some (take_out p.dejavu w.expected)

abbrev pub one_if : Bool → ℕ
one_if true = 1
one_if false = 0

-- The node stays connected, and its ticks do not make the decoder panic.
abbrev pub IsServed : Session → Poll → Type 0
IsServed s (received p) = (p.msg_type ≢ 8) ⊎ (decode_tick s.lib p.payload ≢ panic)
IsServed s read_error = ⊥
IsServed s elapsed = ⊥

-- What is still to be requested or answered.
abbrev pub outstanding : Session → WindowState → ℕ
outstanding s w = s.worker_end - w.next_tick + length w.expected

abbrev pub Goes : Status → Type 0
Goes st = (st ≡ reading) ⊎ (st ≡ finished)

module _ (s : Session) (start base : ℕ) (end : s.worker_end + 1000000 ≤ 2 ^ 32)
    (takes : (i : ℕ) → s.writable i ≡ true) where
  open s use {worker_end, random}

  -- The loop goes on or is finished, and what is outstanding has fallen by k.
  abbrev pub Progress : ℕ → ℕ → Status × WindowState → Type 0
  Progress k m r = Goes r.0 × (k + outstanding s r.1 ≤ m)

  status_of-Goes : (es : List ExpectedResponse) → Goes (status_of es)
  status_of-Goes [] = inr refl
  status_of-Goes (e ∷ es) = inl refl

  outstanding-skip_ahead :
      (w : WindowState)
      → IsValid worker_end w
      → w.next_tick < worker_end
      → outstanding s (skip_ahead worker_end w) ≤ outstanding s w
  unfolding skip_ahead
  outstanding-skip_ahead w v more = omega (arith, v.skip_high)

  outstanding-request_next :
      (w : WindowState)
      → w.next_tick < worker_end
      → outstanding s (request_next random w) ≤ outstanding s w
  unfolding request_next
  outstanding-request_next w more =
      let e = expected_tick w.next_tick (max (random (length w.sent)) 1) in
      omega (arith, length-append w.expected (e ∷ []))

  outstanding-fill :
      (n : ℕ) (w : WindowState)
      → IsValid worker_end w
      → outstanding s (fill_pipeline s n w).1 ≤ outstanding s w
  outstanding-fill n w v =
      (fill_induction s (λ u. IsValid worker_end u × (outstanding s u ≤ outstanding s w))
        (λ u (h, le) more many.
          (skip_ahead-IsValid s u h, omega (arith, outstanding-skip_ahead u h more)))
        (λ u (h, le) more room few. (
          request_next-IsValid s u (omega arith) more room few h,
          omega (arith, outstanding-request_next u more),
        ))
        n w (v, le_refl (outstanding s w))).1

  settle-Progress :
      (k m : ℕ) (st : Status) (u : WindowState)
      → st ≡ reading
      → k + outstanding s u ≤ m
      → Progress k m (settle (st, u))
  settle-Progress k m reading u e h = (status_of-Goes u.expected, h)
  settle-Progress k m finished u e h = absurd (ground arith)
  settle-Progress k m write_failed u e h = absurd (ground arith)
  settle-Progress k m read_failed u e h = absurd (ground arith)
  settle-Progress k m timed_out u e h = absurd (ground arith)
  settle-Progress k m panicked u e h = absurd (ground arith)
  settle-Progress k m out_of_rounds u e h = absurd (ground arith)

  pub refill-Progress :
      (k m : ℕ) (w : WindowState)
      → IsValid worker_end w
      → k + outstanding s w ≤ m
      → Progress k m (refill s w)
  unfolding refill
  refill-Progress k m w v h =
      let filled = fill_pipeline s 22 w in
      settle-Progress k m filled.0 filled.1
        (fill_pipeline-writes s takes 22 w (ground (arith, v.bounded)))
        (omega (arith, outstanding-fill 22 w v))

  after_tick-Progress :
      (u : WindowState) (rest : List ExpectedResponse) (resp_tick : ℕ) (o : Result (Unit {0}))
      → Taken s start base end u rest
      → o ≢ panic
      → (out : List Published)
      → Progress 1 (outstanding s u) (
          after_tick s resp_tick o (record u {
            expected = rest;
            consecutive_failures = 0;
            skip_size = 10000;
            published = out;
          }))
  unfolding after_tick
  after_tick-Progress u rest resp_tick (ok x) t calm out =
      refill-Progress 1 _ _ (complete_tick s start base end u rest resp_tick _ t refl refl out).0
        (omega (arith, t))
  after_tick-Progress u rest resp_tick (err e) t calm out =
      refill-Progress 1 _ _
        (complete_tick s start base end u rest resp_tick u.shared t refl refl out).0
        (omega (arith, t))
  after_tick-Progress u rest resp_tick panic t calm out = absurd (calm refl)

  on_tick-Progress :
      (w : WindowState) (payload : Bytes) (o : Option (ExpectedResponse × List ExpectedResponse))
      → decode_tick s.lib payload ≢ panic
      → Lookup s start base end w o
      → Progress (one_if (is_some o)) (outstanding s w) (on_tick s payload o w)
  unfolding on_tick decode_and_publish
  on_tick-Progress w payload none calm l = (inl refl, omega arith)
  on_tick-Progress w payload (some (e, rest)) calm (tick, t) =
      elim (Bool-cases (ltb (length payload) 8)) [
        | inl short ↦ rw short (
            refill-Progress 1 _ _
              (failed_tick s start base end w rest w.consecutive_failures t (omega arith)).0
              (omega (arith, t)))
        | inr long ↦ rw long (
            after_tick-Progress w rest _ _ t
              (λ bad. calm ((publish_one-panic s.lib s.publish _ _).0 bad)) _)
      ]

  on_failure-Progress :
      (w : WindowState) (o : Option (ExpectedResponse × List ExpectedResponse))
      → Lookup s start base end w o
      → Progress (one_if (is_some o)) (outstanding s w) (on_failure s o w)
  unfolding on_failure
  on_failure-Progress w none l = (inl refl, omega arith)
  on_failure-Progress w (some (transaction_end t d, rest)) (tick, l) = absurd tick
  on_failure-Progress w (some (expected_tick t d, rest)) (tick, l) =
      refill-Progress 1 _ _ (failed_tick s start base end w rest _ l (omega arith)).0
        (omega (arith, l))

  after_transaction-Progress :
      (w : WindowState) (o : Result (Unit {0})) (out : List Published)
      → o ≢ panic
      → Progress 0 (outstanding s w) (after_transaction s o (record w { published = out }))
  unfolding after_transaction
  after_transaction-Progress w (ok u) out calm = (inl refl, omega arith)
  after_transaction-Progress w (err e) out calm = (inl refl, omega arith)
  after_transaction-Progress w panic out calm = absurd (calm refl)

  pub on_packet-Progress :
      (p : Packet) (w : WindowState)
      → IsServed s (received p)
      → Reading s start base end w
      → Progress (one_if (is_answer p w)) (outstanding s w) (on_packet s p w)
  unfolding on_packet
  on_packet-Progress p w calm h =
      let found = lookup s start base end w p.dejavu h in
      elim (Bool-cases (p.msg_type == 8)) [
        | inl e8 ↦
            let eight : p.msg_type ≡ 8 = (==_iff p.msg_type 8).0 e8 in
            elim calm [
              | inl other ↦ absurd (other eight)
              | inr fine ↦ rw e8 (on_tick-Progress w p.payload _ fine found)
            ]
        | inr n8 ↦ elim (Bool-cases (p.msg_type == 35)) [
          | inl e35 ↦ rw (n8, e35) (on_failure-Progress w _ found)
          | inr n35 ↦ elim (Bool-cases (p.msg_type == 24)) [
            | inl e24 ↦
                let type_24 : p.msg_type ≡ 24 = (==_iff p.msg_type 24).0 e24 in
                let n54 : (p.msg_type == 54) ≡ false = ==_ne p.msg_type 54 (λ e. omega arith) in
                rw (n8, n35, e24, n54)
                  (after_transaction-Progress w _ _ (transaction-IsCalm s start base end p.payload))
            | inr n24 ↦ elim (Bool-cases (p.msg_type == 54)) [
              | inl e54 ↦ rw (n8, n35, n24, e54) (on_failure-Progress w _ found)
              | inr n54 ↦ rw (n8, n35, n24, n54) (inl refl, omega arith)
            ]
          ]
        ]
      ]
