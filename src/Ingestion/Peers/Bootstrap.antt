-- ===== src/Ingestion/Peers/Bootstrap.antt =====
-- The bootstrap of crates/ingestion/src/peer_manager.rs from the public API. The request over HTTP
-- and the parsing of its JSON are an outcome: `none` for every failure.
use qonduit.Common.{
  ℕ, List, [], ◌∷◌, ◌++◌, Bool, false, not, ◌&&◌, ◌||◌, ◌==◌, leb, length, Option, none, some,
  if◌then◌else◌, ◌≡◌, arith,
}
use qonduit.Bytes.{Bytes}
use qonduit.Query.Texts.{trim, parse_some}
use qonduit.Ingestion.Peers.{
  SocketAddr, Peer, Operation, addr_eq, new_peer, qubic_port, known, apply_peers,
}
use qonduit.Ingestion.Peers.Selection.{bob_port}
use qonduit.Ingestion.Peers.Known.{addr_eq_iff, known-append}

pub record RandomPeersResponse : Type 0 where
  pub lite_peers : List Bytes
  pub bob_peers : List Bytes

-- The parts between the dots.
abbrev pub put_first : ℕ → List Bytes → List Bytes
put_first c [] = (c ∷ []) ∷ []
put_first c (part ∷ parts) = (c ∷ part) ∷ parts

unfoldable pub split_dots : Bytes → List Bytes
split_dots [] = [] ∷ []
split_dots (c ∷ cs) = let rest = split_dots cs in if c == b'.' then [] ∷ rest else put_first c rest

-- A number below 256 of at most three digits, without a zero before other digits.
abbrev pub has_zero_prefix : Bytes → Bool
has_zero_prefix [] = false
has_zero_prefix (c ∷ cs) = c == b'0' && not (length cs == 0)

unfoldable pub parse_octet : Bytes → Option ℕ
parse_octet s = if leb (length s) 3 && not (has_zero_prefix s) then parse_some 256 s else none

abbrev pub put_octet : Option ℕ → Option Bytes → Option Bytes
put_octet none o = none
put_octet (some n) none = none
put_octet (some n) (some ns) = some (n ∷ ns)

unfoldable pub parse_octets : List Bytes → Option Bytes
parse_octets [] = some []
parse_octets (s ∷ ss) = put_octet (parse_octet s) (parse_octets ss)

-- `str::parse` of an Ipv4Addr: four numbers between dots.
unfoldable pub parse_ipv4 : Bytes → Option Bytes
parse_ipv4 s = let parts = split_dots s in if length parts == 4 then parse_octets parts else none

abbrev pub with_port : ℕ → Option Bytes → Option SocketAddr
with_port port none = none
with_port port (some ip) = some (record { ip = ip; port = port })

unfoldable pub parse_peer_addr : Bytes → ℕ → Option SocketAddr
parse_peer_addr ip_str port = with_port port (parse_ipv4 (trim ip_str))

-- One round of the loops over the lists of the response.
unfoldable pub add_parsed : Option SocketAddr → List Peer → List Peer
add_parsed none peers = peers
add_parsed (some addr) peers = if known addr peers then peers else peers ++ (new_peer addr ∷ [])

unfoldable pub add_listed : ℕ → List Bytes → List Peer → List Peer
add_listed port [] peers = peers
add_listed port (ip_str ∷ rest) peers =
    add_listed port rest (add_parsed (parse_peer_addr ip_str port) peers)

unfoldable pub bootstrap_from_api : Option RandomPeersResponse → List Peer → List Peer
bootstrap_from_api none peers = peers
bootstrap_from_api (some body) peers =
    add_listed bob_port body.bob_peers (add_listed qubic_port body.lite_peers peers)

-- All that changes the list.
pub data Change : Type 0 where
  operated : Operation → Change
  bootstrapped : Option RandomPeersResponse → Change

unfoldable pub apply_change : Change → List Peer → List Peer
apply_change (operated o) peers = apply_peers o peers
apply_change (bootstrapped body) peers = bootstrap_from_api body peers

unfoldable pub run_changes : List Change → List Peer → List Peer
run_changes [] peers = peers
run_changes (c ∷ cs) peers = run_changes cs (apply_change c peers)

-- A text of the list names the address.
abbrev pub is_named : SocketAddr → Option SocketAddr → Bool
is_named a none = false
is_named a (some addr) = addr_eq addr a

abbrev pub names : ℕ → List Bytes → SocketAddr → Bool
names port [] a = false
names port (ip_str ∷ rest) a = is_named a (parse_peer_addr ip_str port) || names port rest a

known-add_parsed :
    (a : SocketAddr) (o : Option SocketAddr) (ps : List Peer)
    → known a (add_parsed o ps) ≡ (known a ps || is_named a o)
unfolding add_parsed known
known-add_parsed a none ps = ground arith
known-add_parsed a (some addr) ps =
    ground (arith, addr_eq_iff addr a, known-append a ps (new_peer addr ∷ []))

known-add_listed :
    (a : SocketAddr) (port : ℕ) (texts : List Bytes) (ps : List Peer)
    → known a (add_listed port texts ps) ≡ (known a ps || names port texts a)
unfolding add_listed
known-add_listed a port [] ps = ground arith
known-add_listed a port (ip_str ∷ rest) ps =
    let o = parse_peer_addr ip_str port in
    ground (arith, known-add_parsed a o ps, known-add_listed a port rest (add_parsed o ps))

-- After a bootstrap the list holds an address exactly if it did before, or if a text of the response
-- names it: as a lite peer on the port 21841, or as a BOB peer on the port 21842.
pub known-bootstrap_from_api :
    (a : SocketAddr) (body : RandomPeersResponse) (ps : List Peer)
    → known a (bootstrap_from_api (some body) ps)
      ≡ (known a ps || names 21841 body.lite_peers a || names 21842 body.bob_peers a)
unfolding bootstrap_from_api
known-bootstrap_from_api a body ps = ground (
  arith,
  known-add_listed a 21841 body.lite_peers ps,
  known-add_listed a 21842 body.bob_peers (add_listed 21841 body.lite_peers ps),
)
