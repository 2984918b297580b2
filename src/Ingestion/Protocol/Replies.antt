-- ===== src/Ingestion/Protocol/Replies.antt =====
-- Which packet a request loop takes for its answer.
use qonduit.Common.{
  ℕ, ◌≡◌, ◌≢◌, ◌↔◌, refl, ap, ◌∙◌, List, [], ◌∷◌, ◌++◌, map, ◌||◌, ◌==◌, All, if◌then◌else◌, arith,
  append_assoc, append-nil, Bool-cases, inl, inr,
}
use qonduit.Bytes.{Bytes}
use qonduit.Ingestion.Protocol.{
  Packet, Poll, received, read_error, elapsed, got, await_packet, collect_transactions,
  request_tick_transactions, request_tick_data,
}

-- A packet that the loop for an answer of type `want` passes over.
abbrev pub Skipped : ℕ → Packet → Type 0
Skipped want p = (p.msg_type ≢ want) × (p.msg_type ≢ 35) × (p.msg_type ≢ 54)

-- Some packets are passed over, and the next one is of type `want` with the payload `x`.
abbrev pub FirstReply : ℕ → List Poll → Bytes → Type 0
FirstReply want polls x =
    (ps : List Packet) × (p : Packet) × (more : List Poll) × (polls
      ≡ map received ps ++ (received p ∷ more))
    × All (Skipped want) ps
    × (p.msg_type ≡ want)
    × (p.payload ≡ x)

got_of_first :
    (want : ℕ) (ps : List Packet) (p : Packet) (more : List Poll)
    → All (Skipped want) ps
    → p.msg_type ≡ want
    → await_packet want (map received ps ++ (received p ∷ more)) ≡ got p.payload
unfolding await_packet
got_of_first want [] p more h e = ground arith
got_of_first want (q ∷ ps) p more (h, hs) e = ground (arith, got_of_first want ps p more hs e)

first_of_got :
    (want : ℕ) (polls : List Poll) (x : Bytes)
    → await_packet want polls ≡ got x
    → FirstReply want polls x
unfolding await_packet
first_of_got want [] x h = absurd (cc)
first_of_got want (read_error ∷ polls) x h = absurd (cc)
first_of_got want (elapsed ∷ polls) x h = absurd (cc)
first_of_got want (received p ∷ polls) x h = elim (Bool-cases (p.msg_type == want)) [
  | inl here ↦ ([], p, polls, refl, tt, ground arith, ground arith)
  | inr other ↦ elim (Bool-cases (p.msg_type == 35 || p.msg_type == 54)) [
    | inl bad ↦ absurd (ground arith)
    | inr pass ↦
        let (ps, q, more, e, skipped, ty, pay) = first_of_got want polls x (ground arith) in
        (
          p ∷ ps,
          q,
          more,
          ap (λ l. received p ∷ l) e,
          ((ground arith, ground arith, ground arith), skipped),
          ty,
          pay,
        )
  ]
]

-- A request returns a payload exactly when the first packet that it does not pass over, before any
-- read error or timeout, is of the wanted type and has that payload.
pub await_packet-iff-FirstReply :
    (want : ℕ) (polls : List Poll) (x : Bytes)
    → (await_packet want polls ≡ got x) ↔ FirstReply want polls x
await_packet-iff-FirstReply want polls x = (
  first_of_got want polls x,
  λ f.
      let (ps, p, more, e, skipped, ty, pay) = f in
      ap (await_packet want) e ∙ got_of_first want ps p more skipped ty ∙ ap got pay,
)

-- The payloads of the transaction packets, in order.
unfoldable pub transaction_payloads : List Packet → List Bytes
transaction_payloads [] = []
transaction_payloads (p ∷ ps) =
    if p.msg_type == 24 then p.payload ∷ transaction_payloads ps else transaction_payloads ps

-- A packet that leaves the transaction loop running.
abbrev pub Continues : Packet → Type 0
Continues p = (p.msg_type ≢ 35) × (p.msg_type ≢ 54)

collect_until_end :
    (acc : List Bytes) (ps : List Packet) (p : Packet) (more : List Poll)
    → All Continues ps
    → p.msg_type ≡ 35
    → collect_transactions acc (map received ps ++ (received p ∷ more))
      ≡ got (acc ++ transaction_payloads ps)
unfolding collect_transactions transaction_payloads
collect_until_end acc [] p more h e = ground (arith, append-nil acc)
collect_until_end acc (q ∷ ps) p more (h, hs) e = elim (Bool-cases (q.msg_type == 24)) [
  | inl here ↦ ground (
    arith,
    collect_until_end (acc ++ (q.payload ∷ [])) ps p more hs e,
    append_assoc acc (q.payload ∷ []) (transaction_payloads ps),
  )
  | inr other ↦ ground (arith, collect_until_end acc ps p more hs e)
]

-- The request for the transactions of a tick returns the payloads of all transaction packets that
-- arrive before the end marker, in their order and nothing else, whatever other packets lie between.
pub request_tick_transactions_complete :
    (tick random : ℕ) (ps : List Packet) (p : Packet) (more : List Poll)
    → All Continues ps
    → p.msg_type ≡ 35
    → (request_tick_transactions tick random (map received ps ++ (received p ∷ more))).1
      ≡ got (transaction_payloads ps)
unfolding request_tick_transactions
request_tick_transactions_complete tick random ps p more h e = collect_until_end [] ps p more h e

-- Another choice of the correlation ids in the packets.
abbrev pub retag : (ℕ → ℕ) → Poll → Poll
retag f (received p) = received (record p { dejavu = f p.dejavu })
retag f read_error = read_error
retag f elapsed = elapsed

await_packet-retag :
    (f : ℕ → ℕ) (want : ℕ) (polls : List Poll)
    → await_packet want (map (retag f) polls) ≡ await_packet want polls
unfolding await_packet
await_packet-retag f want [] = refl
await_packet-retag f want (read_error ∷ polls) = refl
await_packet-retag f want (elapsed ∷ polls) = refl
await_packet-retag f want (received p ∷ polls) = rw (await_packet-retag f want polls)

-- A tick data request does not look at correlation ids or at the tick: whatever ids the packets
-- carry, and whichever tick was asked for, the reply is the same.
pub request_tick_data_uncorrelated :
    (f : ℕ → ℕ) (tick tick' random random' : ℕ) (polls : List Poll)
    → (request_tick_data tick random (map (retag f) polls)).1
      ≡ (request_tick_data tick' random' polls).1
unfolding request_tick_data
request_tick_data_uncorrelated f tick tick' random random' polls = await_packet-retag f 8 polls
