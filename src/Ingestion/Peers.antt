-- ===== src/Ingestion/Peers.antt =====
-- crates/ingestion/src/peer_manager.rs: the list of known peers, without its selection by score, a
-- floating-point number. The clock, in nanoseconds, is the argument `now`. The lock is held during
-- each operation that changes the list.
pub mod Known
pub mod Stale
pub mod Scores
pub mod Selection
pub mod Choice
pub mod Rounding
pub mod Favoured
pub mod Broadcasting
pub mod Bootstrap
pub mod Distinct
use qonduit.Common.{
  ℕ, ◌+◌, ◌-◌, ◌*◌, ◌^◌, List, [], ◌∷◌, ◌++◌, map, Bool, true, false, ◌&&◌, ◌||◌, ◌==◌, leb, ltb,
  length, Option, none, some, if◌then◌else◌,
}
use qonduit.Bytes.{Bytes}
use qonduit.Core.Identity.{bytes_eq}

-- An IPv4 address of four bytes, and a port.
pub record SocketAddr : Type 0 where
  pub ip : Bytes
  pub port : ℕ

unfoldable pub addr_eq : SocketAddr → SocketAddr → Bool
addr_eq a b = bytes_eq a.ip b.ip && a.port == b.port

pub record Peer : Type 0 where
  pub addr : SocketAddr
  pub last_seen : Option ℕ
  pub last_failure : Option ℕ
  pub success_count : ℕ
  pub failure_count : ℕ
  pub broadcast_count : ℕ

abbrev pub new_peer : SocketAddr → Peer
new_peer addr = record {
  addr = addr;
  last_seen = none;
  last_failure = none;
  success_count = 0;
  failure_count = 0;
  broadcast_count = 0;
}

-- `saturating_add(1)` of a u32.
unfoldable pub saturating_inc : ℕ → ℕ
saturating_inc n = if ltb n (2 ^ 32 - 1) then n + 1 else n

abbrev pub qubic_port : ℕ
qubic_port = 21841

abbrev pub stale_threshold : ℕ
stale_threshold = 600 * 10 ^ 9

abbrev pub prune_failure_threshold : ℕ
prune_failure_threshold = 5

-- The match on `last_seen`, with its early return.
unfoldable pub stale_since : ℕ → Peer → Option ℕ → Bool
stale_since now p none = false
stale_since now p (some t) =
    leb prune_failure_threshold p.failure_count
    && p.success_count == 0
    && leb stale_threshold (now - t)

unfoldable pub is_stale : ℕ → Peer → Bool
is_stale now p = stale_since now p p.last_seen

-- `PeerManager::new`
unfoldable pub new_manager : List SocketAddr → List Peer
new_manager bootstrap_addrs = map new_peer bootstrap_addrs

-- `iter().any(|p| p.addr == addr)`
unfoldable pub known : SocketAddr → List Peer → Bool
known addr [] = false
known addr (p ∷ ps) = addr_eq p.addr addr || known addr ps

-- The first peer with the address is changed: `iter_mut().find(…)`.
unfoldable pub update : SocketAddr → (Peer → Peer) → List Peer → List Peer
update addr f [] = []
update addr f (p ∷ ps) = if addr_eq p.addr addr then f p ∷ ps else p ∷ update addr f ps

-- The loop over the raw addresses.
unfoldable pub add_peers_from_exchange : List Bytes → List Peer → List Peer
add_peers_from_exchange [] peers = peers
add_peers_from_exchange (raw ∷ raws) peers =
    let addr : SocketAddr = record { ip = raw; port = qubic_port } in
    add_peers_from_exchange raws (
      if bytes_eq raw (0 ∷ 0 ∷ 0 ∷ 0 ∷ []) || known addr peers
      then peers
      else peers ++ (new_peer addr ∷ []))

unfoldable pub mark_broadcast : ℕ → SocketAddr → List Peer → List Peer
mark_broadcast now addr peers =
    update addr
      (λ p. record p { broadcast_count = saturating_inc p.broadcast_count; last_seen = some now })
      peers

unfoldable pub mark_success : ℕ → SocketAddr → List Peer → List Peer
mark_success now addr peers =
    if known addr peers
    then update addr
        (λ p. record p { success_count = saturating_inc p.success_count; last_seen = some now })
        peers
    else peers ++ (record (new_peer addr) { success_count = 1; last_seen = some now } ∷ [])

unfoldable pub mark_failure : ℕ → SocketAddr → List Peer → List Peer
mark_failure now addr peers =
    update addr
      (λ p. record p { failure_count = saturating_inc p.failure_count; last_failure = some now })
      peers

unfoldable pub prune_stale : ℕ → List Peer → List Peer
prune_stale now [] = []
prune_stale now (p ∷ ps) =
    let rest = prune_stale now ps in if is_stale now p then rest else p ∷ rest

-- The operations that change the list, each with the time at which it runs.
pub data Operation : Type 0 where
  exchanged : List Bytes → Operation
  broadcast : ℕ → SocketAddr → Operation
  succeeded : ℕ → SocketAddr → Operation
  failed : ℕ → SocketAddr → Operation
  pruned : ℕ → Operation

unfoldable pub apply_peers : Operation → List Peer → List Peer
apply_peers (exchanged raws) peers = add_peers_from_exchange raws peers
apply_peers (broadcast now addr) peers = mark_broadcast now addr peers
apply_peers (succeeded now addr) peers = mark_success now addr peers
apply_peers (failed now addr) peers = mark_failure now addr peers
apply_peers (pruned now) peers = prune_stale now peers

unfoldable pub run_peers : List Operation → List Peer → List Peer
run_peers [] peers = peers
run_peers (o ∷ os) peers = run_peers os (apply_peers o peers)
