-- ===== src/Ingestion/Decoders/Tables/Totality.antt =====
-- When the table decoders panic: every row that a loop reads lies in the payload, and only the
-- status of transactions reserves what the payload asks for.
use qonduit.Common.{
  ℕ, zero, suc, ◌+◌, ◌*◌, ◌≤◌, ◌<◌, ◌≡◌, ◌↔◌, refl, Bool, true, false, ltb, leb, length, arith,
  Bool-cases, inl, inr,
}
use qonduit.Bytes.{Bytes, Result, err, panic, too_small}
use qonduit.Bytes.Slices.{word, read_le-word, slice-cut}
use qonduit.Core.Hash.{External}
use qonduit.Ingestion.Decoders.Guards.{
  IsOk, is_ok, Decoded, Decoded-intro, Decoded-ne-panic, at_least_enough, then_read, then_slice,
  then-IsOk,
}
use qonduit.Ingestion.Decoders.Tables.{
  log_tx_per_tick, push_each, computor_keys, decode_all_log_id_ranges, decode_computors,
  contract_bid, decode_contract_ipo, tx_digest, tx_digests_of, decode_tx_status,
}

push_each-IsOk {ℓ} :
    {A : Type ℓ} (n i : ℕ) (f : ℕ → Result A)
    → ((k : ℕ) → k < i + n → IsOk (f k))
    → IsOk (push_each n i f)
unfolding push_each
push_each-IsOk zero i f h = is_ok _
push_each-IsOk (suc n) i f h = then-IsOk (f i) _ (h i (omega arith)) λ _.
    then-IsOk (push_each n (i + 1) f) _ (push_each-IsOk n (i + 1) f (λ k lt. h k (omega arith)))
      λ _. is_ok _

computor_keys-IsOk : (n i : ℕ) (p : Bytes) → IsOk (computor_keys n i p)
unfolding computor_keys
computor_keys-IsOk zero i p = is_ok _
computor_keys-IsOk (suc n) i p = elim (Bool-cases (leb (2 + i * 32 + 32) (length p))) [
  | inl fits ↦ rw fits (
      then_slice p (2 + i * 32) (2 + i * 32 + 32) _ (omega arith) (ground arith)
        λ _. then-IsOk (computor_keys n (i + 1) p) _ (computor_keys-IsOk n (i + 1) p) λ _. is_ok _)
  | inr over ↦ rw over (computor_keys-IsOk n (i + 1) p)
]

pub decode_all_log_id_ranges-Decoded :
    (p : Bytes) (tick : ℕ) → Decoded 65632 p (decode_all_log_id_ranges p tick)
unfolding decode_all_log_id_ranges
decode_all_log_id_ranges-Decoded p tick = Decoded-intro 65632 p _ λ h.
    then-IsOk (push_each log_tx_per_tick 0 _) _
      (push_each-IsOk log_tx_per_tick 0 _
        λ k lt. then_read p (k * 8) 8 _ (omega arith) λ _. is_ok _)
      λ _.
        then-IsOk (push_each log_tx_per_tick 0 _) _
          (push_each-IsOk log_tx_per_tick 0 _
            λ k lt. then_read p (log_tx_per_tick * 8 + k * 8) 8 _ (omega arith) λ _. is_ok _)
          λ _. is_ok _

-- A status of transactions for whose count the allocator has no room.
abbrev pub IsRefused : (ℕ → Bool) → Bytes → Type 0
IsRefused reserves p = (524 ≤ length p) × (reserves (word p 8 4) ≡ false)

module _ (lib : External) where
  pub decode_computors-Decoded : (p : Bytes) → Decoded 21634 p (decode_computors lib p)
  unfolding decode_computors
  decode_computors-Decoded p = Decoded-intro 21634 p _ λ h.
      then_read p 0 2 _ (omega arith)
        λ _. then-IsOk (computor_keys 676 0 p) _ (computor_keys-IsOk 676 0 p) λ _. is_ok _

  contract_bid-IsOk : (p : Bytes) (i : ℕ) → 27048 ≤ length p → i < 676 → IsOk (contract_bid lib p i)
  unfolding contract_bid
  contract_bid-IsOk p i h lt =
      then_slice p (8 + i * 32) (8 + i * 32 + 32) _ (omega arith) (omega arith)
        λ _. then_read p (8 + 676 * 32 + i * 8) 8 _ (omega arith) λ _. is_ok _

  pub decode_contract_ipo-Decoded : (p : Bytes) → Decoded 27048 p (decode_contract_ipo lib p)
  unfolding decode_contract_ipo
  decode_contract_ipo-Decoded p = Decoded-intro 27048 p _ λ h. then_read p 0 4 _ (omega arith) λ _.
      then-IsOk (push_each 676 0 _) _
        (push_each-IsOk 676 0 _ λ k lt. contract_bid-IsOk p k h (omega arith)) λ _. is_ok _

  tx_digests_of-IsOk : (p : Bytes) (n : ℕ) → IsOk (tx_digests_of lib p n)
  unfolding tx_digests_of tx_digest
  tx_digests_of-IsOk p n = elim (Bool-cases (leb (524 + n * 32) (length p))) [
    | inl fits ↦
        let long : 524 + n * 32 ≤ length p = ground arith in
        rw fits (
          push_each-IsOk n 0 _ λ k lt.
            then_slice p (524 + k * 32) (524 + k * 32 + 32) _ (omega arith) (omega arith)
              λ _. is_ok _)
    | inr over ↦ rw over (is_ok _)
  ]

  module _ (reserves : ℕ → Bool) (p : Bytes) (tick : ℕ) where
    pub decode_tx_status-Decoded :
        reserves (word p 8 4) ≡ true → Decoded 524 p (decode_tx_status lib reserves p tick)
    unfolding decode_tx_status
    decode_tx_status-Decoded room = Decoded-intro 524 p _ λ h. then_read p 0 4 _ (omega arith) λ _.
        then_read p 4 4 _ (omega arith) λ _. rw (read_le-word p 8 4 (omega arith)) (
          then_slice p 12 524 _ (omega arith) (omega arith) λ _. rw room (
            then-IsOk (tx_digests_of lib p (word p 8 4)) _ (tx_digests_of-IsOk p (word p 8 4))
              λ _. is_ok _))

    decode_tx_status-refused :
        524 ≤ length p
        → reserves (word p 8 4) ≡ false
        → decode_tx_status lib reserves p tick ≡ panic
    unfolding decode_tx_status
    decode_tx_status-refused h none_left =
        rw
          (
            at_least_enough 524 p _ h,
            read_le-word p 0 4 (omega arith),
            read_le-word p 4 4 (omega arith),
            read_le-word p 8 4 (omega arith),
            slice-cut p 12 524 (omega arith) (omega arith),
            none_left,
          )
          refl

    -- The status of transactions aborts the process exactly if the payload is long enough and the
    -- allocator has no room for the count that it names.
    pub decode_tx_status-panic_iff :
        (decode_tx_status lib reserves p tick ≡ panic) ↔ IsRefused reserves p
    unfolding decode_tx_status
    decode_tx_status-panic_iff = elim (Bool-cases (reserves (word p 8 4))) [
      | inl room ↦ (
        λ e. absurd (Decoded-ne-panic 524 p _ (decode_tx_status-Decoded room) e),
        λ (_, refused). cc,
      )
      | inr none_left ↦ elim (Bool-cases (ltb (length p) 524)) [
        | inl short ↦ (λ e. absurd (cc (e, too_short short)), λ (h, _). absurd (ground arith))
        | inr long ↦
            let h : 524 ≤ length p = ground arith in
            (λ _. (h, none_left), λ _. decode_tx_status-refused h none_left)
      ]
    ]
      where
        too_short :
            ltb (length p) 524 ≡ true
            → decode_tx_status lib reserves p tick ≡ err (too_small (length p) 524)
        too_short short = rw short refl
