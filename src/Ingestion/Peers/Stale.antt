-- ===== src/Ingestion/Peers/Stale.antt =====
-- Which peers pruning can remove.
use qonduit.Common.{
  ℕ, ◌<◌, ◌≡◌, refl, List, [], ◌∷◌, false, ◌||◌, Option, none, some, All, All-append, arith,
  Bool-cases, inl, inr,
}
use qonduit.Bytes.{Bytes}
use qonduit.Core.Identity.{bytes_eq}
use qonduit.Ingestion.Peers.{
  SocketAddr, Peer, addr_eq, new_peer, saturating_inc, stale_since, is_stale, new_manager, known,
  update, add_peers_from_exchange, mark_success, mark_failure, prune_stale, Operation, exchanged,
  broadcast, succeeded, failed, pruned, apply_peers, run_peers,
}

-- A peer that was seen has a success.
abbrev SeenAfterSuccess : Option ℕ → ℕ → Type 0
SeenAfterSuccess none successes = Unit
SeenAfterSuccess (some t) successes = 0 < successes

abbrev IsSeen : Peer → Type 0
IsSeen p = SeenAfterSuccess p.last_seen p.success_count

update-All {ℓ} :
    (P : Peer → Type ℓ) (addr : SocketAddr) (f : Peer → Peer) (ps : List Peer)
    → ((p : Peer) → P p → P (f p))
    → All P ps
    → All P (update addr f ps)
unfolding update
update-All P addr f [] h a = tt
update-All P addr f (p ∷ ps) h (a, all) = elim (Bool-cases (addr_eq p.addr addr)) [
  | inl here ↦ rw here (h p a, all)
  | inr other ↦ rw other (a, update-All P addr f ps h all)
]

prune_stale-All {ℓ} :
    (P : Peer → Type ℓ) (now : ℕ) (ps : List Peer) → All P ps → All P (prune_stale now ps)
unfolding prune_stale
prune_stale-All P now [] a = tt
prune_stale-All P now (p ∷ ps) (a, all) = elim (Bool-cases (is_stale now p)) [
  | inl gone ↦ rw gone (prune_stale-All P now ps all)
  | inr stays ↦ rw stays (a, prune_stale-All P now ps all)
]

add_peers-IsSeen :
    (raws : List Bytes) (ps : List Peer)
    → All IsSeen ps
    → All IsSeen (add_peers_from_exchange raws ps)
unfolding add_peers_from_exchange
add_peers-IsSeen [] ps a = a
add_peers-IsSeen (raw ∷ raws) ps a =
    let addr : SocketAddr = record { ip = raw; port = 21841 } in
    elim (Bool-cases (bytes_eq raw (0 ∷ 0 ∷ 0 ∷ 0 ∷ []) || known addr ps)) [
      | inl skip ↦ rw skip (add_peers-IsSeen raws ps a)
      | inr new ↦
          rw new (add_peers-IsSeen raws _ (All-append IsSeen ps (new_peer addr ∷ []) a (tt, tt)))
    ]

inc-pos : (n : ℕ) → 0 < saturating_inc n
unfolding saturating_inc
inc-pos n = ground arith

failure-IsSeen :
    (now : ℕ) (p : Peer)
    → IsSeen p
    → IsSeen (record p { failure_count = saturating_inc p.failure_count; last_failure = some now })
failure-IsSeen now p h = h

-- Not a report of broadcast data.
abbrev pub IsQuiet : Operation → Type 0
IsQuiet (broadcast now addr) = ⊥
IsQuiet _ = Unit

apply_peers-IsSeen :
    (o : Operation) (ps : List Peer) → IsQuiet o → All IsSeen ps → All IsSeen (apply_peers o ps)
unfolding apply_peers mark_success mark_failure
apply_peers-IsSeen (exchanged raws) ps q a = add_peers-IsSeen raws ps a
apply_peers-IsSeen (broadcast now addr) ps q a = absurd q
apply_peers-IsSeen (succeeded now addr) ps q a = elim (Bool-cases (known addr ps)) [
  | inl here ↦ rw here (update-All IsSeen addr _ ps (λ p h. inc-pos p.success_count) a)
  | inr other ↦ rw other (All-append IsSeen ps _ a (omega arith, tt))
]
apply_peers-IsSeen (failed now addr) ps q a = update-All IsSeen addr _ ps (failure-IsSeen now) a
apply_peers-IsSeen (pruned now) ps q a = prune_stale-All IsSeen now ps a

run_peers-IsSeen :
    (os : List Operation) (ps : List Peer)
    → All IsQuiet os
    → All IsSeen ps
    → All IsSeen (run_peers os ps)
unfolding run_peers
run_peers-IsSeen [] ps q a = a
run_peers-IsSeen (o ∷ os) ps (q, qs) a =
    run_peers-IsSeen os (apply_peers o ps) qs (apply_peers-IsSeen o ps q a)

new_manager-IsSeen : (addrs : List SocketAddr) → All IsSeen (new_manager addrs)
unfolding new_manager
new_manager-IsSeen [] = tt
new_manager-IsSeen (x ∷ xs) = (tt, new_manager-IsSeen xs)

not_stale :
    (now : ℕ) (p : Peer) (seen : Option ℕ)
    → SeenAfterSuccess seen p.success_count
    → stale_since now p seen ≡ false
unfolding stale_since
not_stale now p none h = refl
not_stale now p (some t) h = ground arith

prune_stale_seen : (now : ℕ) (ps : List Peer) → All IsSeen ps → prune_stale now ps ≡ ps
unfolding prune_stale is_stale
prune_stale_seen now [] a = refl
prune_stale_seen now (p ∷ ps) (a, all) =
    rw (not_stale now p p.last_seen a, prune_stale_seen now ps all)

-- As long as no peer is reported to broadcast, pruning removes no peer at all: whatever peers are
-- learned, connect and fail, and however long ago and often they failed, the list stays as it is.
pub prune_stale-quiet :
    (addrs : List SocketAddr) (os : List Operation) (now : ℕ)
    → All IsQuiet os
    → prune_stale now (run_peers os (new_manager addrs)) ≡ run_peers os (new_manager addrs)
prune_stale-quiet addrs os now q =
    prune_stale_seen now _ (run_peers-IsSeen os _ q (new_manager-IsSeen addrs))
