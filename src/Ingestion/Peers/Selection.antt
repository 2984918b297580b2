-- ===== src/Ingestion/Peers/Selection.antt =====
-- The selection of a peer of crates/ingestion/src/peer_manager.rs. The clock, in nanoseconds, and
-- the random numbers are arguments.
use qonduit.Common.{
  ℕ, ◌-◌, ◌/◌, ◌%◌, ◌^◌, min, List, [], ◌∷◌, Bool, ◌&&◌, ◌||◌, ◌==◌, leb, ltb, length, get_elem?,
  Option, none, some, if◌then◌else◌,
}
use qonduit.Ingestion.Peers.{SocketAddr, Peer}
use qonduit.Ingestion.Peers.Scores.{score, tenths}

abbrev pub bob_port : ℕ
bob_port = 21842

-- `last_seen.map(|t| now.duration_since(t).as_secs()).unwrap_or(u64::MAX)`
unfoldable pub seen : ℕ → Option ℕ → ℕ
seen now none = 2 ^ 64 - 1
seen now (some t) = (now - t) / 10 ^ 9

-- The comparison that sorts is `Less`: a higher score, or an equal one and seen longer ago.
unfoldable pub before : ℕ → Peer → Peer → Bool
before now a b =
    ltb (score b) (score a)
    || (score a == score b && ltb (seen now b.last_seen) (seen now a.last_seen))

-- `sort_by` with that comparison, a stable sort.
unfoldable pub insert : ℕ → Peer → List Peer → List Peer
insert now p [] = p ∷ []
insert now p (q ∷ qs) =
    let further = insert now p qs in if before now q p then q ∷ further else p ∷ q ∷ qs

unfoldable pub sort_peers : ℕ → List Peer → List Peer
sort_peers now [] = []
sort_peers now (p ∷ ps) = insert now p (sort_peers now ps)

unfoldable pub filter_peers : (Peer → Bool) → List Peer → List Peer
filter_peers f [] = []
filter_peers f (p ∷ ps) = let rest = filter_peers f ps in if f p then p ∷ rest else rest

-- `score() >= 0.2`
unfoldable pub qualifies : Peer → Bool
qualifies p = leb (tenths 2) (score p)

abbrev pub addr_of : Option Peer → Option SocketAddr
addr_of none = none
addr_of (some p) = some p.addr

-- One of the first three of the sorted candidates, which are not empty.
unfoldable pub pick : ℕ → ℕ → List Peer → Option SocketAddr
pick now random candidates =
    addr_of (get_elem? (sort_peers now candidates) (random % min (length candidates) 3))

-- All peers where none qualifies.
unfoldable pub candidates_or : List Peer → List Peer → List Peer
candidates_or peers [] = peers
candidates_or peers (p ∷ ps) = p ∷ ps

unfoldable pub pick_some : ℕ → ℕ → List Peer → Option SocketAddr
pick_some now random [] = none
pick_some now random (p ∷ ps) = pick now random (p ∷ ps)

unfoldable pub best_peer : ℕ → ℕ → List Peer → Option SocketAddr
best_peer now random peers =
    pick_some now random (candidates_or peers (filter_peers qualifies peers))

unfoldable pub is_bob : Peer → Bool
is_bob p = p.addr.port == bob_port && qualifies p

unfoldable pub pick_bob : ℕ → ℕ → List Peer → List Peer → Option SocketAddr
pick_bob now random peers [] = best_peer now random peers
pick_bob now random peers (p ∷ ps) = pick now random (p ∷ ps)

unfoldable pub best_bob_peer : ℕ → ℕ → List Peer → Option SocketAddr
best_bob_peer now random peers = pick_bob now random peers (filter_peers is_bob peers)

-- `choose`: an element of the list at a random index.
unfoldable pub random_peer : ℕ → List Peer → Option SocketAddr
random_peer random peers = addr_of (get_elem? peers (random % length peers))
