-- ===== src/Ingestion/Peers/Distinct.antt =====
-- The list of peers holds no address twice.
use qonduit.Common.{
  ℕ, List, [], ◌∷◌, ◌++◌, false, ◌||◌, ◌≡◌, refl, ◌∙◌, Option, none, some, Bool-cases, inl, inr,
  arith,
}
use qonduit.Bytes.{Bytes}
use qonduit.Core.Identity.{bytes_eq}
use qonduit.Ingestion.Peers.{
  SocketAddr, Peer, Operation, exchanged, broadcast, succeeded, failed, pruned, addr_eq, new_peer,
  known, update, saturating_inc, is_stale, add_peers_from_exchange, mark_broadcast, mark_success,
  mark_failure, prune_stale, apply_peers,
}
use qonduit.Ingestion.Peers.Known.{addr_eq_iff, known-append}
use qonduit.Ingestion.Peers.Bootstrap.{
  Change, operated, bootstrapped, add_parsed, add_listed, parse_peer_addr, bootstrap_from_api,
  apply_change, run_changes,
}

abbrev pub IsDistinct : List Peer → Type 0
IsDistinct [] = Unit
IsDistinct (p ∷ ps) = (known p.addr ps ≡ false) × IsDistinct ps

-- A new peer at the end, of an address that is not there.
append-IsDistinct :
    (p : Peer) (ps : List Peer)
    → known p.addr ps ≡ false
    → IsDistinct ps
    → IsDistinct (ps ++ (p ∷ []))
unfolding known
append-IsDistinct p [] new h = (refl, tt)
append-IsDistinct p (q ∷ qs) new (first, rest) = (
  known-append q.addr qs (p ∷ [])
      ∙ ground (arith, addr_eq_iff p.addr q.addr, addr_eq_iff q.addr p.addr),
  append-IsDistinct p qs (ground arith) rest,
)

known-update :
    (a addr : SocketAddr) (f : Peer → Peer) (ps : List Peer)
    → ((p : Peer) → (f p).addr ≡ p.addr)
    → known a (update addr f ps) ≡ known a ps
unfolding known update
known-update a addr f [] same = refl
known-update a addr f (p ∷ ps) same = elim (Bool-cases (addr_eq p.addr addr)) [
  | inl here ↦ rw here (rw (same p) refl)
  | inr other ↦ rw other (rw (known-update a addr f ps same) refl)
]

update-IsDistinct :
    (addr : SocketAddr) (f : Peer → Peer) (ps : List Peer)
    → ((p : Peer) → (f p).addr ≡ p.addr)
    → IsDistinct ps
    → IsDistinct (update addr f ps)
unfolding update
update-IsDistinct addr f [] same h = tt
update-IsDistinct addr f (p ∷ ps) same (first, rest) = elim (Bool-cases (addr_eq p.addr addr)) [
  | inl here ↦ rw here (rw (same p) first, rest)
  | inr other ↦
      rw other (known-update p.addr addr f ps same ∙ first, update-IsDistinct addr f ps same rest)
]

known-prune_stale :
    (now : ℕ) (a : SocketAddr) (ps : List Peer)
    → known a ps ≡ false
    → known a (prune_stale now ps) ≡ false
unfolding known prune_stale
known-prune_stale now a [] h = refl
known-prune_stale now a (p ∷ ps) h = ground (arith, known-prune_stale now a ps)

prune_stale-IsDistinct :
    (now : ℕ) (ps : List Peer) → IsDistinct ps → IsDistinct (prune_stale now ps)
unfolding prune_stale
prune_stale-IsDistinct now [] h = tt
prune_stale-IsDistinct now (p ∷ ps) (first, rest) = elim (Bool-cases (is_stale now p)) [
  | inl gone ↦ rw gone (prune_stale-IsDistinct now ps rest)
  | inr stays ↦ rw stays (known-prune_stale now p.addr ps first, prune_stale-IsDistinct now ps rest)
]

exchange-IsDistinct :
    (raws : List Bytes) (ps : List Peer)
    → IsDistinct ps
    → IsDistinct (add_peers_from_exchange raws ps)
unfolding add_peers_from_exchange
exchange-IsDistinct [] ps h = h
exchange-IsDistinct (raw ∷ raws) ps h =
    let addr : SocketAddr = record { ip = raw; port = 21841 } in
    elim (Bool-cases (bytes_eq raw (0 ∷ 0 ∷ 0 ∷ 0 ∷ []) || known addr ps)) [
      | inl skip ↦ rw skip (exchange-IsDistinct raws ps h)
      | inr new ↦
          rw new
            (exchange-IsDistinct raws _ (append-IsDistinct (new_peer addr) ps (ground arith) h))
    ]

mark_success-IsDistinct :
    (now : ℕ) (addr : SocketAddr) (ps : List Peer)
    → IsDistinct ps
    → IsDistinct (mark_success now addr ps)
unfolding mark_success
mark_success-IsDistinct now addr ps h = elim (Bool-cases (known addr ps)) [
  | inl old ↦ rw old (update-IsDistinct addr _ ps (λ p. refl) h)
  | inr new ↦ rw new (append-IsDistinct _ ps new h)
]

apply_peers-IsDistinct :
    (o : Operation) (ps : List Peer) → IsDistinct ps → IsDistinct (apply_peers o ps)
unfolding apply_peers mark_broadcast mark_failure
apply_peers-IsDistinct (exchanged raws) ps h = exchange-IsDistinct raws ps h
apply_peers-IsDistinct (broadcast now addr) ps h =
    update-IsDistinct addr
      (λ p. record p { broadcast_count = saturating_inc p.broadcast_count; last_seen = some now })
      ps (λ p. refl) h
apply_peers-IsDistinct (succeeded now addr) ps h = mark_success-IsDistinct now addr ps h
apply_peers-IsDistinct (failed now addr) ps h =
    update-IsDistinct addr
      (λ p. record p { failure_count = saturating_inc p.failure_count; last_failure = some now }) ps
      (λ p. refl) h
apply_peers-IsDistinct (pruned now) ps h = prune_stale-IsDistinct now ps h

add_parsed-IsDistinct :
    (o : Option SocketAddr) (ps : List Peer) → IsDistinct ps → IsDistinct (add_parsed o ps)
unfolding add_parsed
add_parsed-IsDistinct none ps h = h
add_parsed-IsDistinct (some addr) ps h = elim (Bool-cases (known addr ps)) [
  | inl old ↦ rw old h
  | inr new ↦ rw new (append-IsDistinct (new_peer addr) ps new h)
]

add_listed-IsDistinct :
    (port : ℕ) (texts : List Bytes) (ps : List Peer)
    → IsDistinct ps
    → IsDistinct (add_listed port texts ps)
unfolding add_listed
add_listed-IsDistinct port [] ps h = h
add_listed-IsDistinct port (ip_str ∷ rest) ps h =
    add_listed-IsDistinct port rest _ (add_parsed-IsDistinct (parse_peer_addr ip_str port) ps h)

apply_change-IsDistinct :
    (c : Change) (ps : List Peer) → IsDistinct ps → IsDistinct (apply_change c ps)
unfolding apply_change bootstrap_from_api
apply_change-IsDistinct (operated o) ps h = apply_peers-IsDistinct o ps h
apply_change-IsDistinct (bootstrapped none) ps h = h
apply_change-IsDistinct (bootstrapped (some body)) ps h =
    add_listed-IsDistinct 21842 body.bob_peers _ (add_listed-IsDistinct 21841 body.lite_peers ps h)

-- If no two peers of the list have the same address, then none have after any exchanges,
-- bootstraps, marks and prunings.
pub run_changes-IsDistinct :
    (cs : List Change) (ps : List Peer) → IsDistinct ps → IsDistinct (run_changes cs ps)
unfolding run_changes
run_changes-IsDistinct [] ps h = h
run_changes-IsDistinct (c ∷ cs) ps h =
    run_changes-IsDistinct cs (apply_change c ps) (apply_change-IsDistinct c ps h)
