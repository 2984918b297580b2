-- ===== src/Ingestion/Decoders/Tick/Totality.antt =====
-- When the tick decoder panics.
use qonduit.Common.{
  ℕ, ◌≤◌, ◌<◌, ◌≡◌, ◌≢◌, ◌↔◌, ltb, leb, length, if◌then◌else◌, arith, Bool-cases, lt→ltb, ltb→lt,
  inl, inr,
}
use qonduit.Bytes.{Bytes, err, panic, too_small, invalid_epoch, invalid_computor_index}
use qonduit.Bytes.Slices.{word, read_le-word}
use qonduit.Core.Hash.{External}
use qonduit.Ingestion.Decoders.Guards.{IsOk, is_ok, then_read, then_slice, then-IsOk, ok-ne-panic}
use qonduit.Ingestion.Decoders.Tick.{tick_tail, decode_tick_body, decode_tick}
use qonduit.Ingestion.Decoders.Tick.Dates.{qubic_date_to_unix-IsOk, qubic_date_to_unix-panic}

module _ (lib : External) (p : Bytes) where
  tick_tail-IsOk : 48 ≤ length p → IsOk (tick_tail lib p)
  unfolding tick_tail
  tick_tail-IsOk h = elim (Bool-cases (leb 139376 (length p))) [
    | inl full ↦
        let long : 139376 ≤ length p = ground arith in
        rw full (
          then_slice p 48 131120 _ (omega arith) (omega arith) λ _.
            then_slice p 131120 139312 _ (omega arith) (omega arith)
              λ _. then_slice p 139312 139376 _ (omega arith) (omega arith) λ _. is_ok _)
    | inr partial ↦ elim (Bool-cases (ltb 48 (length p))) [
      | inl some_more ↦
          rw (partial, some_more)
            (then_slice p 48 (length p) _ (omega arith) (omega arith) λ _. is_ok _)
      | inr header ↦ rw (partial, header) (is_ok _)
    ]
  ]

  module _ (h : 48 ≤ length p) (computor_index epoch tick : ℕ) where
    body-IsOk : word p 14 1 < 14 → IsOk (decode_tick_body lib p computor_index epoch tick)
    unfolding decode_tick_body
    body-IsOk m = rw (read_le-word p 14 1 (omega arith)) (
        then_read p 8 2 _ (omega arith) λ _. then_read p 10 1 _ (omega arith) λ _.
          then_read p 11 1 _ (omega arith) λ _. then_read p 12 1 _ (omega arith) λ _.
            then_read p 13 1 _ (omega arith) λ _. then_read p 15 1 _ (omega arith) λ _.
              then-IsOk _ _ (qubic_date_to_unix-IsOk _ (word p 14 1) _ _ _ _ m) λ _.
                then_slice p 16 48 _ (omega arith) (omega arith)
                  λ _. then-IsOk _ _ (tick_tail-IsOk h) λ _. is_ok _)

    body-panic : 14 ≤ word p 14 1 → decode_tick_body lib p computor_index epoch tick ≡ panic
    unfolding decode_tick_body
    body-panic m = rw (
      read_le-word p 8 2 (omega arith),
      read_le-word p 10 1 (omega arith),
      read_le-word p 11 1 (omega arith),
      read_le-word p 12 1 (omega arith),
      read_le-word p 13 1 (omega arith),
      read_le-word p 14 1 (omega arith),
      read_le-word p 15 1 (omega arith),
      qubic_date_to_unix-panic _ (word p 14 1) _ _ _ _ m,
    )

  -- A payload that passes the checks of the tick decoder and whose month byte is 14 or more.
  abbrev pub HasBadMonth : Type 0
  HasBadMonth = (48 ≤ length p) × (word p 2 2 ≤ 1000) × (word p 0 2 ≤ 1000) × (14 ≤ word p 14 1)

  header_reads :
      48 ≤ length p
      → decode_tick lib p ≡ (
          if ltb 1000 (word p 2 2)
          then err (invalid_epoch (word p 2 2))
          else if ltb 1000 (word p 0 2)
          then err (invalid_computor_index (word p 0 2))
          else decode_tick_body lib p (word p 0 2) (word p 2 2) (word p 4 4))
  unfolding decode_tick
  header_reads h =
      rw
        (
          read_le-word p 0 2 (omega arith),
          read_le-word p 2 2 (omega arith),
          read_le-word p 4 4 (omega arith),
        )
        (ground arith)

  too_short : length p < 48 → decode_tick lib p ≡ err (too_small (length p) 48)
  unfolding decode_tick
  too_short h = rw (lt→ltb (length p) 48 h)

  body-ne-panic :
      (h : 48 ≤ length p)
      → word p 14 1 < 14
      → decode_tick_body lib p (word p 0 2) (word p 2 2) (word p 4 4) ≢ panic
  body-ne-panic h m = ok-ne-panic _ (body-IsOk h (word p 0 2) (word p 2 2) (word p 4 4) m)

  -- The tick decoder panics exactly on the payloads that are long enough, whose epoch and computor
  -- index are at most 1000, and whose month byte is 14 or more.
  pub decode_tick-panic_iff : (decode_tick lib p ≡ panic) ↔ HasBadMonth
  decode_tick-panic_iff = (only, λ b. conversely b)
    where
      conversely : HasBadMonth → decode_tick lib p ≡ panic
      conversely (h, e, c, m) =
          rw (header_reads h)
            (ground (arith, body-panic h (word p 0 2) (word p 2 2) (word p 4 4) m))

      only : decode_tick lib p ≡ panic → HasBadMonth
      only bad = elim (Bool-cases (ltb (length p) 48)) [
        | inl short ↦ absurd (cc (bad, too_short (ltb→lt (length p) 48 short)))
        | inr long ↦
            let h : 48 ≤ length p = ground arith in
            elim (Bool-cases (ltb (word p 14 1) 14)) [
              | inl fine ↦
                  absurd
                    (ground (arith, header_reads h, body-ne-panic h (ltb→lt (word p 14 1) 14 fine)))
              | inr late ↦
                  (h, ground (arith, header_reads h), ground (arith, header_reads h), ground arith)
            ]
      ]
