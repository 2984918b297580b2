-- ===== src/Ingestion/Dispatch/Panics.antt =====
-- Which packets make the decoder panic or abort.
use qonduit.Common.{
  ℕ, ◌≤◌, ◌≡◌, ◌≢◌, ◌↔◌, refl, List, [], ◌∷◌, Bool, true, false, ◌==◌, ltb, length, if◌then◌else◌,
  Option, none, some, arith, ==_iff, Bool-cases, ◌⊎◌, inl, inr,
}
use qonduit.Bytes.{Bytes, Result, ok, err, panic}
use qonduit.Bytes.Slices.{word, read_le-word}
use qonduit.Core.Hash.{External}
use qonduit.Ingestion.Decoders.Guards.{Decoded, Decoded-ne-panic}
use qonduit.Ingestion.Decoders.Records.Totality.{
  decode_entity-Decoded, decode_current_tick_info-Decoded, decode_system_info-Decoded,
  decode_oracle_data-Decoded, decode_pruning_log_response-Decoded, decode_log_state_digest-Decoded,
}
use qonduit.Ingestion.Decoders.Mining.{
  decode_custom_mining_task-Decoded, decode_custom_mining_solution-Decoded,
}
use qonduit.Ingestion.Decoders.Tables.{decode_tx_status}
use qonduit.Ingestion.Decoders.Tables.Totality.{
  decode_computors-Decoded, decode_contract_ipo-Decoded, decode_tx_status-Decoded,
  decode_tx_status-panic_iff, decode_all_log_id_ranges-Decoded, IsRefused,
}
use qonduit.Ingestion.Decoders.Transaction.Totality.{decode_transaction-Decoded}
use qonduit.Ingestion.Decoders.LogEvents.{LogEvent}
use qonduit.Ingestion.Decoders.LogEvents.Totality.{decode_log_events-Decoded}
use qonduit.Ingestion.Decoders.Tick.{decode_tick}
use qonduit.Ingestion.Decoders.Tick.Totality.{HasBadMonth, decode_tick-panic_iff}
use qonduit.Ingestion.Votes.Handler.{
  Message, tick_vote, quorum_tick, VoteState, vote_fields, handle_vote, publish_quorum,
  decode_tick_vote,
}
use qonduit.Ingestion.Votes.{QuorumTick}
use qonduit.Ingestion.Votes.Counting.{Vote}
use qonduit.Ingestion.Dispatch.{
  Published, vote, tick_data, Sent, log_only, send_then, nothing, publish_one, publish_events,
  decode_broadcast_message, handle_other, decode_and_publish,
}

-- A handler that ends with success or an error.
pub data IsCalm (s : Sent) : Type 0 where
  calm : s.outcome ≢ panic → IsCalm s

if-IsCalm : (b : Bool) (x y : Sent) → IsCalm x → IsCalm y → IsCalm (if b then x else y)
if-IsCalm true x y h k = h
if-IsCalm false x y h k = k

when-IsCalm :
    (b : Bool) (x y : Sent) → (b ≡ true → IsCalm x) → IsCalm y → IsCalm (if b then x else y)
when-IsCalm true x y h k = h refl
when-IsCalm false x y h k = k

module _ {A : Type 0} (size : ℕ) (p : Bytes) where
  log_only-IsCalm : (r : Result A) → Decoded size p r → IsCalm (log_only r)
  unfolding log_only
  log_only-IsCalm (ok a) d = calm λ e. cc
  log_only-IsCalm (err x) d = calm λ e. cc
  log_only-IsCalm panic d = absurd (Decoded-ne-panic size p panic d refl)

module _ (lib : External) (publish : Published → Bool) where
  send_then-IsCalm :
      (m : Published) (rest : Sent) → IsCalm rest → IsCalm (send_then lib publish m rest)
  unfolding send_then
  send_then-IsCalm m rest h = elim (Bool-cases (publish m)) [
    | inl taken ↦ elim h [ calm k ↦ rw taken (calm k) ]
    | inr refused ↦ rw refused (calm λ e. cc)
  ]

  nothing-IsCalm : IsCalm (nothing lib publish)
  nothing-IsCalm = calm λ e. cc

  pub publish_one-IsCalm :
      {A : Type 0} (size : ℕ) (p : Bytes) (f : A → Published) (r : Result A)
      → Decoded size p r
      → IsCalm (publish_one lib publish r f)
  unfolding publish_one
  publish_one-IsCalm size p f (ok a) d = send_then-IsCalm (f a) _ nothing-IsCalm
  publish_one-IsCalm size p f (err x) d = calm λ e. cc
  publish_one-IsCalm size p f panic d = absurd (Decoded-ne-panic size p panic d refl)

  publish_events-IsCalm : (ce : ℕ) (es : List LogEvent) → IsCalm (publish_events lib publish ce es)
  unfolding publish_events
  publish_events-IsCalm ce [] = nothing-IsCalm
  publish_events-IsCalm ce (e ∷ es) = send_then-IsCalm _ _ (publish_events-IsCalm ce es)

  broadcast-IsCalm :
      (ce : ℕ) (p : Bytes) (r : Result (List LogEvent))
      → Decoded 8 p r
      → IsCalm (decode_broadcast_message lib publish ce r)
  unfolding decode_broadcast_message
  broadcast-IsCalm ce p (ok []) d = nothing-IsCalm
  broadcast-IsCalm ce p (ok (e ∷ es)) d = send_then-IsCalm _ _ (publish_events-IsCalm ce (e ∷ es))
  broadcast-IsCalm ce p (err x) d = calm λ e. cc
  broadcast-IsCalm ce p panic d = absurd (Decoded-ne-panic 8 p panic d refl)

  handle_other-IsCalm :
      (reserves : ℕ → Bool) (t dejavu : ℕ) (p : Bytes) (ce : ℕ)
      → (t ≡ 202 → reserves (word p 8 4) ≡ true)
      → IsCalm (handle_other lib publish reserves t dejavu p ce)
  unfolding handle_other
  handle_other-IsCalm reserves t dejavu p ce room =
      if-IsCalm _ _ _ (publish_one-IsCalm 80 p _ _ (decode_transaction-Decoded lib p)) (
        if-IsCalm _ _ _ (publish_one-IsCalm 21634 p _ _ (decode_computors-Decoded lib p)) (
          if-IsCalm _ _ _ (publish_one-IsCalm 64 p _ _ (decode_entity-Decoded lib p)) (
            if-IsCalm _ _ _ (publish_one-IsCalm 27048 p _ _ (decode_contract_ipo-Decoded lib p)) (
              if-IsCalm _ _ _ (log_only-IsCalm 128 p _ (decode_system_info-Decoded lib p)) (
                if-IsCalm _ _ _ (log_only-IsCalm 16 p _ (decode_current_tick_info-Decoded p)) (
                  if-IsCalm _ _ _ (send_then-IsCalm _ _ nothing-IsCalm) (
                    if-IsCalm _ _ _
                      (log_only-IsCalm 65632 p _ (decode_all_log_id_ranges-Decoded p 0))
                      (if-IsCalm _ _ _ (broadcast-IsCalm ce p _ (decode_log_events-Decoded p)) (
                        if-IsCalm _ _ _
                          (log_only-IsCalm 8 p _ (decode_pruning_log_response-Decoded p))
                          (if-IsCalm _ _ _
                            (publish_one-IsCalm 32 p _ _ (decode_log_state_digest-Decoded lib p))
                            (if-IsCalm _ _ _
                              (publish_one-IsCalm 4 p _ _ (decode_oracle_data-Decoded lib p))
                              (if-IsCalm _ _ _
                                (publish_one-IsCalm 233 p _ _
                                  (decode_custom_mining_task-Decoded lib p))
                                (if-IsCalm _ _ _
                                  (publish_one-IsCalm 201 p _ _
                                    (decode_custom_mining_solution-Decoded lib p))
                                  (when-IsCalm _ _ _
                                    (λ is_status. log_only-IsCalm 524 p _ (
                                      decode_tx_status-Decoded lib reserves p 0
                                        (room ((==_iff t 202).0 is_status))))
                                    nothing-IsCalm))))))))))))))

  handle_other-status :
      (reserves : ℕ → Bool) (t dejavu : ℕ) (p : Bytes) (ce : ℕ)
      → t ≡ 202
      → handle_other lib publish reserves t dejavu p ce
        ≡ log_only (decode_tx_status lib reserves p 0)
  unfolding handle_other
  handle_other-status reserves t dejavu p ce e = rw e refl

module _ (publish : Message → Bool) where
  quorum-ne-panic :
      (ce : ℕ) (s : VoteState) (m : Message) (q : Option QuorumTick)
      → (publish_quorum publish ce s m q).2 ≢ panic
  unfolding publish_quorum
  quorum-ne-panic ce s m none = λ e. cc
  quorum-ne-panic ce s m (some qt) = elim (Bool-cases (publish (quorum_tick ce qt))) [
    | inl taken ↦ rw taken (λ e. cc)
    | inr refused ↦ rw refused (λ e. cc)
  ]

  vote-ne-panic : (s : VoteState) (ce : ℕ) (v : Vote) → (handle_vote publish s ce v).2 ≢ panic
  unfolding handle_vote
  vote-ne-panic s ce v = elim (Bool-cases (publish (tick_vote ce v))) [
    | inl taken ↦ rw taken (quorum-ne-panic ce _ _ _)
    | inr refused ↦ rw refused (λ e. cc)
  ]

  vote_fields-read : (p : Bytes) → 20 ≤ length p → (v : Vote) × (vote_fields p ≡ ok v)
  unfolding vote_fields
  vote_fields-read p h = (
    record { epoch = word p 2 2; tick = word p 4 4; computor_index = word p 0 2 },
    rw (
      read_le-word p 0 2 (omega arith),
      read_le-word p 2 2 (omega arith),
      read_le-word p 4 4 (omega arith),
    ),
  )

  decode_tick_vote-ne-panic :
      (s : VoteState) (p : Bytes) (ce : ℕ) → (decode_tick_vote publish s p ce).2 ≢ panic
  unfolding decode_tick_vote
  decode_tick_vote-ne-panic s p ce = elim (Bool-cases (ltb (length p) 20)) [
    | inl short ↦ rw short (λ e. cc)
    | inr long ↦
        let (v, read) = vote_fields-read p (ground arith) in rw (long, read) (vote-ne-panic s ce v)
  ]

pub publish_one-panic :
    {A : Type 0} (lib : External) (publish : Published → Bool) (f : A → Published) (r : Result A)
    → ((publish_one lib publish r f).outcome ≡ panic) ↔ (r ≡ panic)
unfolding publish_one send_then
publish_one-panic lib publish f (ok a) = elim (Bool-cases (publish (f a))) [
  | inl taken ↦ rw taken (λ e. cc, λ e. cc)
  | inr refused ↦ rw refused (λ e. cc, λ e. cc)
]
publish_one-panic lib publish f (err x) = (λ e. cc, λ e. cc)
publish_one-panic lib publish f panic = (λ e. refl, λ e. refl)

log_only-panic : {A : Type 0} (r : Result A) → ((log_only r).outcome ≡ panic) ↔ (r ≡ panic)
unfolding log_only
log_only-panic (ok a) = (λ e. cc, λ e. cc)
log_only-panic (err x) = (λ e. cc, λ e. cc)
log_only-panic panic = (λ e. refl, λ e. refl)

-- The packets that stop the decoder.
abbrev pub Stops : External → (ℕ → Bool) → ℕ → Bytes → Type 0
Stops lib reserves t p = ((t ≡ 8) × HasBadMonth lib p) ⊎ ((t ≡ 202) × IsRefused reserves p)

-- Of all packets, whatever their type, their payload and the state of the decoder, exactly these
-- make the decoder panic or abort: those of type 8 that are long enough, with an epoch and a
-- computor index of at most 1000 and a month byte of 14 or more, and those of type 202 that are long
-- enough and name a count of transactions for which the allocator has no room; every other packet
-- ends in success or an error.
pub decode_and_publish-panic_iff :
    (lib : External) (publish : Published → Bool) (reserves : ℕ → Bool) (s : VoteState)
    (t dejavu : ℕ) (p : Bytes) (ce : ℕ)
    → ((decode_and_publish lib publish reserves s t dejavu p ce).1.outcome ≡ panic)
      ↔ Stops lib reserves t p
unfolding decode_and_publish
decode_and_publish-panic_iff lib publish reserves s t dejavu p ce = elim (Bool-cases (t == 3)) [
  | inl is_vote ↦ rw is_vote (
    λ e. absurd (decode_tick_vote-ne-panic (λ m. publish (vote m)) s p ce e),
    λ stops. absurd (neither 3 stops ((==_iff t 3).0 is_vote) (omega arith) (omega arith)),
  )
  | inr no_vote ↦ elim (Bool-cases (t == 8)) [
    | inl is_tick ↦
        let one = publish_one-panic lib publish (tick_data ce) (decode_tick lib p) in
        let bad = decode_tick-panic_iff lib p in
        rw (no_vote, is_tick)
          (
            λ e. inl (ground arith, bad.0 (one.0 e)),
            λ stops. elim stops [
              | inl (_, b) ↦ one.1 (bad.1 b)
              | inr (status, _) ↦ absurd (ground arith)
            ],
          )
    | inr no_tick ↦ elim (Bool-cases (t == 202)) [
      | inl is_status ↦
          let status : t ≡ 202 = (==_iff t 202).0 is_status in
          let logged = log_only-panic (decode_tx_status lib reserves p 0) in
          let refused = decode_tx_status-panic_iff lib reserves p 0 in
          rw (no_vote, no_tick, handle_other-status lib publish reserves t dejavu p ce status)
            (
              λ e. inr (status, refused.0 (logged.0 e)),
              λ stops. elim stops [
                | inl (eight, _) ↦ absurd (omega arith)
                | inr (_, r) ↦ logged.1 (refused.1 r)
              ],
            )
      | inr no_status ↦
          let fine =
            calm-ne-panic _ (
              handle_other-IsCalm lib publish reserves t dejavu p ce
                (λ e. absurd (ground arith))) in
          rw (no_vote, no_tick)
            (
              λ e. absurd (fine e),
              λ stops. elim stops [
                | inl (eight, _) ↦ absurd (ground arith)
                | inr (status, _) ↦ absurd (ground arith)
              ],
            )
    ]
  ]
]
  where
    neither : (n : ℕ) → Stops lib reserves t p → t ≡ n → n ≢ 8 → n ≢ 202 → ⊥
    neither n (inl (eight, _)) e ne ne' = omega arith
    neither n (inr (status, _)) e ne ne' = omega arith

    calm-ne-panic : (r : Sent) → IsCalm r → r.outcome ≢ panic
    calm-ne-panic r (calm fine) = fine
