-- ===== src/Ingestion/Peers/Known.antt =====
-- Which addresses the list of peers holds.
use qonduit.Common.{
  ◌≡◌, ◌↔◌, refl, List, [], ◌∷◌, ◌++◌, Bool, true, false, not, ◌&&◌, ◌||◌, ◌==◌, arith, Bool-cases,
  inl, inr,
}
use qonduit.Bytes.{Bytes}
use qonduit.Core.Identity.{bytes_eq}
use qonduit.Core.Identity.Digits.{bytes_eq_iff}
use qonduit.Ingestion.Peers.{SocketAddr, Peer, addr_eq, new_peer, known, add_peers_from_exchange}

pub addr_eq_iff : (a b : SocketAddr) → (addr_eq a b ≡ true) ↔ (a ≡ b)
unfolding addr_eq
addr_eq_iff a b =
    (λ h. ground (arith, bytes_eq_iff a.ip b.ip), λ h. ground (arith, bytes_eq_iff a.ip b.ip))

abbrev pub zero_ip : Bytes
zero_ip = 0 ∷ 0 ∷ 0 ∷ 0 ∷ []

unfoldable pub contains_ip : Bytes → List Bytes → Bool
contains_ip ip [] = false
contains_ip ip (raw ∷ raws) = bytes_eq raw ip || contains_ip ip raws

pub known-append :
    (a : SocketAddr) (ps qs : List Peer) → known a (ps ++ qs) ≡ (known a ps || known a qs)
unfolding known
known-append a [] qs = refl
known-append a (p ∷ ps) qs = ground (arith, known-append a ps qs)

-- After an exchange the list holds an address exactly if it did before, or if it is one of the
-- received addresses, other than 0.0.0.0, on the port 21841.
pub known-add_peers_from_exchange :
    (a : SocketAddr) (raws : List Bytes) (ps : List Peer)
    → known a (add_peers_from_exchange raws ps)
      ≡ (known a ps || (a.port == 21841 && not (bytes_eq a.ip zero_ip) && contains_ip a.ip raws))
unfolding add_peers_from_exchange contains_ip known addr_eq
known-add_peers_from_exchange a [] ps = ground arith
known-add_peers_from_exchange a (raw ∷ raws) ps =
    let addr : SocketAddr = record { ip = raw; port = 21841 } in
    elim (Bool-cases (bytes_eq raw zero_ip || known addr ps)) [
      | inl skip ↦ ground (
        arith,
        bytes_eq_iff raw a.ip,
        addr_eq_iff addr a,
        known-add_peers_from_exchange a raws ps,
      )
      | inr new ↦ ground (
        arith,
        bytes_eq_iff raw a.ip,
        known-append a ps (new_peer addr ∷ []),
        known-add_peers_from_exchange a raws (ps ++ (new_peer addr ∷ [])),
      )
    ]
