-- ===== src/Ingestion/Backfill/Fetching.antt =====
-- The transactions of a range are published when the node lists them.
use qonduit.Common.{
  ℕ, suc, ◌+◌, ◌-◌, ◌%◌, ◌^◌, ◌≤◌, List, [], ◌∷◌, ◌++◌, map, append_assoc, append-nil, ◌≡◌, ◌≢◌,
  ◌∙◌, refl, sym, ap, true, false, length, length-append, ==_ne, ◌==◌, arith,
}
use mathlib.Core.List.{map-append}
use qonduit.Bytes.{ok}
use qonduit.Core.Hash.{External}
use qonduit.Ingestion.Protocol.{Packet, Poll, received}
use qonduit.Ingestion.Decoders.Transaction.{Transaction, decode_transaction}
use qonduit.Ingestion.Dispatch.{Published, transaction}
use qonduit.Ingestion.Backfill.Transactions.{
  Fetcher, FetchState, FetchEnd, fetched, TickEnd, tick_done, tick_failed, tick_died, tick_waiting,
  keep_transaction, after_decoding, collect_answers, request_transactions, after_answers,
  fetch_ticks, fetch_txs_for_range,
}

-- The packets list the transactions of a tick, with other packets in between.
pub data Answers (lib : External) : List Poll → List Transaction → Type 0 where
  complete :
      {p : Packet} {polls : List Poll} → p.msg_type ≡ 35 → Answers lib (received p ∷ polls) []
  listed :
      {p : Packet} {polls : List Poll} {tx : Transaction} {txs : List Transaction}
      → p.msg_type ≡ 24
      → decode_transaction lib p.payload ≡ ok tx
      → Answers lib polls txs
      → Answers lib (received p ∷ polls) (tx ∷ txs)
  unrelated :
      {p : Packet} {polls : List Poll} {txs : List Transaction}
      → p.msg_type ≢ 24
      → p.msg_type ≢ 35
      → p.msg_type ≢ 54
      → Answers lib polls txs
      → Answers lib (received p ∷ polls) txs

-- So do the packets of each tick, one tick after another; the transactions are those of all ticks.
pub data RangeAnswers (lib : External) : ℕ → List (List Poll) → List Transaction → Type 0 where
  none_left : RangeAnswers lib 0 [] []
  one_more :
      {n : ℕ} {polls : List Poll} {answers : List (List Poll)} {txs rest : List Transaction}
      → Answers lib polls txs
      → RangeAnswers lib n answers rest
      → RangeAnswers lib (suc n) (polls ∷ answers) (txs ++ rest)

module _ (f : Fetcher) (accepts : (m : Published) → f.publish m ≡ true)
    (takes : (i : ℕ) → f.writable i ≡ true) where
  -- What the transactions add to the state.
  pub record Adds (t : FetchState) (txs : List Transaction) (u : FetchState) : Type 0 where
    pub published : u.published ≡ t.published ++ map (transaction f.epoch) txs
    pub counted : u.txs_discovered % 2 ^ 64 ≡ (t.txs_discovered + length txs) % 2 ^ 64

  Adds-nil :
      (t u : FetchState)
      → u.published ≡ t.published
      → u.txs_discovered ≡ t.txs_discovered
      → Adds t [] u
  Adds-nil t u p q = record {
    published = p ∙ sym (append-nil t.published);
    counted = omega (arith, q);
  }

  Adds-asked :
      (t u : FetchState) (tick : ℕ) (txs : List Transaction)
      → Adds (request_transactions f tick t) txs u
      → Adds t txs u
  Adds-asked t u tick txs a = record { published = a.published; counted = a.counted }

  Adds-append :
      (t u v : FetchState) (txs rest : List Transaction)
      → Adds t txs u
      → Adds u rest v
      → Adds t (txs ++ rest) v
  Adds-append t u v txs rest a b = record {
    published =
        b.published
        ∙ ap (λ l. l ++ map (transaction f.epoch) rest) a.published
        ∙ append_assoc t.published (map (transaction f.epoch) txs) (map (transaction f.epoch) rest)
        ∙ ap (λ l. t.published ++ l) (sym (map-append (transaction f.epoch) txs rest));
    counted = omega (arith, a.counted, b.counted, length-append txs rest);
  }

  keep-Adds : (t : FetchState) (tx : Transaction) → Adds t (tx ∷ []) (keep_transaction f tx t)
  unfolding keep_transaction
  keep-Adds t tx =
      rw (accepts (transaction f.epoch tx)) (record { published = refl; counted = omega arith })

  collect-Adds :
      {polls : List Poll} {txs : List Transaction} (t : FetchState)
      → Answers f.lib polls txs
      → ((collect_answers f polls t).0 ≡ tick_done) × Adds t txs (collect_answers f polls t).1
  unfolding collect_answers after_decoding
  collect-Adds t (complete {p} e) =
      let n24 : (p.msg_type == 24) ≡ false = ground arith in
      let is_35 : (p.msg_type == 35) ≡ true = ground arith in
      rw (n24, is_35) (refl, Adds-nil t t refl refl)
  collect-Adds t (listed {p} {polls} {tx} {txs} e decoded rest) =
      let is_24 : (p.msg_type == 24) ≡ true = ground arith in
      let u = keep_transaction f tx t in
      let (done, more) = collect-Adds u rest in
      rw (is_24, decoded) (done, Adds-append t u _ (tx ∷ []) txs (keep-Adds t tx) more)
  collect-Adds t (unrelated {p} h24 h35 h54 rest) =
      let n24 : (p.msg_type == 24) ≡ false = ==_ne p.msg_type 24 h24 in
      let n35 : (p.msg_type == 35) ≡ false = ==_ne p.msg_type 35 h35 in
      let n54 : (p.msg_type == 54) ≡ false = ==_ne p.msg_type 54 h54 in
      rw (n24, n35, n54) (collect-Adds t rest)

  after_done :
      (r : TickEnd × FetchState) (next : FetchState → FetchEnd × FetchState)
      → r.0 ≡ tick_done
      → after_answers f r next ≡ next r.1
  unfolding after_answers
  after_done (tick_done, t) next e = refl
  after_done (tick_failed, t) next e = absurd (ground arith)
  after_done (tick_died, t) next e = absurd (ground arith)
  after_done (tick_waiting, t) next e = absurd (ground arith)

  fetch_ticks-Adds :
      {n : ℕ} {answers : List (List Poll)} {txs : List Transaction} (tick : ℕ) (t : FetchState)
      → RangeAnswers f.lib n answers txs
      → ((fetch_ticks f n tick answers t).0 ≡ fetched (tick + n))
        × Adds t txs (fetch_ticks f n tick answers t).1
  unfolding fetch_ticks
  fetch_ticks-Adds tick t none_left = (ap fetched (omega arith), Adds-nil t t refl refl)
  fetch_ticks-Adds tick t (one_more {n} {polls} {answers} {txs} {rest} here later) =
      let asked = request_transactions f tick t in
      let (done, adds) = collect-Adds asked here in
      let u = (collect_answers f polls asked).1 in
      let (ended, more) = fetch_ticks-Adds (tick + 1) u later in
      let last : tick + 1 + n ≡ tick + suc n = omega arith in
      rw
        (
          takes (length t.sent),
          after_done (collect_answers f polls asked) (fetch_ticks f n (tick + 1) answers) done,
        )
        (ended ∙ ap fetched last, Adds-append t u _ txs rest (Adds-asked t u tick txs adds) more)

-- If every request is written and every message taken, and the node answers the request of each
-- tick of a range with a list of transactions that decode, other packets in between, then the range
-- is fetched to its end, exactly these transactions are published, in order, and each is counted.
pub fetch_txs_for_range-Adds :
    (f : Fetcher) (range_start range_end : ℕ) (answers : List (List Poll)) (txs : List Transaction)
    (t : FetchState)
    → ((m : Published) → f.publish m ≡ true)
    → ((i : ℕ) → f.writable i ≡ true)
    → range_start ≤ range_end
    → RangeAnswers f.lib (range_end - range_start) answers txs
    → let r = fetch_txs_for_range f range_start range_end answers t in
      (r.0 ≡ fetched range_end)
      × (r.1.published ≡ t.published ++ map (transaction f.epoch) txs)
      × (r.1.txs_discovered % 2 ^ 64 ≡ (t.txs_discovered + length txs) % 2 ^ 64)
unfolding fetch_txs_for_range
fetch_txs_for_range-Adds f range_start range_end answers txs t accepts takes le a =
    let (ended, adds) = fetch_ticks-Adds f accepts takes range_start t a in
    let last : range_start + (range_end - range_start) ≡ range_end = omega arith in
    (ended ∙ ap fetched last, adds.published, adds.counted)
