-- ===== src/Ingestion/Peers/Favoured.antt =====
-- What the selection of a peer returns on any list of peers.
use qonduit.Common.{
  ℕ, ◌<◌, List, [], ◌∷◌, Bool, true, false, ◌&&◌, ◌≡◌, inl, inr, refl, ◌∙◌, ap, sym, Option, none,
  some, All, StandsIn, All-StandsIn, All-get_elem?, count, count-none, count-le, ◌⊎◌, Bool-cases,
  arith,
}
use qonduit.Ingestion.Peers.{SocketAddr, Peer}
use qonduit.Ingestion.Peers.Selection.{
  before, filter_peers, qualifies, pick, pick_some, candidates_or, best_peer, is_bob, pick_bob,
  best_bob_peer,
}
use qonduit.Ingestion.Peers.Choice.{
  filter_peers-All, filter_peers-passes, count-filter_peers, pick-IsNearTop,
}

-- What a choice among the peers that pass a filter gives.
abbrev pub Picked : ℕ → ℕ → (Peer → Bool) → List Peer → Type 0
Picked now random f peers =
    (p : Peer) × (pick now random (filter_peers f peers) ≡ some p.addr)
    × StandsIn peers p
    × (f p ≡ true)
    × (count (λ q. f q && before now q p) peers < 3)

-- The address is that of a peer of the list which qualifies, or no peer does, and fewer than three
-- of all peers come before it.
pub record Chosen (now : ℕ) (peers : List Peer) (addr : SocketAddr) : Type 0 where
  pub peer : Peer
  pub has_addr : peer.addr ≡ addr
  pub stands_in : StandsIn peers peer
  pub qualified : (qualifies peer ≡ true) ⊎ All (λ q. qualifies q ≡ false) peers
  pub few_before : count (λ q. before now q peer) peers < 3

abbrev pub Selected : ℕ → List Peer → Option SocketAddr → Type 0
Selected now peers none = peers ≡ []
Selected now peers (some addr) = Chosen now peers addr

filter_peers-nil :
    (f : Peer → Bool) (ps : List Peer) → filter_peers f ps ≡ [] → All (λ p. f p ≡ false) ps
unfolding filter_peers
filter_peers-nil f [] e = tt
filter_peers-nil f (p ∷ ps) e = elim (Bool-cases (f p)) [
  | inl passes ↦ absurd (ground arith)
  | inr fails ↦
      let rest : filter_peers f ps ≡ [] = ground arith in (fails, filter_peers-nil f ps rest)
]

before-unqualified :
    (now : ℕ) (p q : Peer) → qualifies p ≡ true → qualifies q ≡ false → before now q p ≡ false
unfolding before qualifies
before-unqualified now p q h k = ground arith

module _ (now random : ℕ) where
  -- What holds of all peers of a list holds of one that stands in its filtered part.
  passing :
      (f : Peer → Bool) (peers cs : List Peer) (p : Peer)
      → filter_peers f peers ≡ cs
      → StandsIn cs p
      → StandsIn peers p × (f p ≡ true)
  passing f peers cs p e (i, at) = (
    All-get_elem? (StandsIn peers) cs i p
        (rw (← e) (filter_peers-All (StandsIn peers) f peers (All-StandsIn peers))) at,
    All-get_elem? (λ q. f q ≡ true) cs i p (rw (← e) (filter_peers-passes f peers)) at,
  )

  filtered_pick :
      (f : Peer → Bool) (peers cs : List Peer)
      → filter_peers f peers ≡ cs
      → 0 < count f peers
      → Picked now random f peers
  filtered_pick f peers [] e some_pass =
      absurd (omega (arith, count-none f peers (filter_peers-nil f peers e)))
  filtered_pick f peers (c ∷ cs) e some_pass =
      let (p, picked, near) = pick-IsNearTop now random c cs in
      let (known, passes) = passing f peers (c ∷ cs) p e near.0 in
      let better : Peer → Bool = λ q. f q && before now q p in
      let same : count better (c ∷ cs) ≡ count better peers =
        ap (count better) (sym e) ∙ count-filter_peers f better (λ q h. rw h refl) peers in
      (
        p,
        rw e picked,
        known,
        passes,
        omega (
          arith,
          same,
          near.1,
          count-le better (λ q. before now q p) (λ q h. ground arith) (c ∷ cs),
        ),
      )

  Selected-from :
      (peers cs : List Peer)
      → filter_peers qualifies peers ≡ cs
      → Selected now peers (pick_some now random (candidates_or peers cs))
  unfolding pick_some candidates_or
  Selected-from [] [] e = refl
  Selected-from (p ∷ ps) [] e =
      let (q, picked, near) = pick-IsNearTop now random p ps in
      rw picked (record {
        peer = q;
        has_addr = refl;
        stands_in = near.0;
        qualified = inr (filter_peers-nil qualifies (p ∷ ps) e);
        few_before = near.1;
      })
  Selected-from peers (c ∷ cs) e =
      let (p, picked, near) = pick-IsNearTop now random c cs in
      let (known, passes) = passing qualifies peers (c ∷ cs) p e near.0 in
      let same : count (λ q. before now q p) (c ∷ cs) ≡ count (λ q. before now q p) peers =
        ap (count (λ q. before now q p)) (sym e)
        ∙ count-filter_peers qualifies (λ q. before now q p)
            (λ q. before-unqualified now p q passes) peers in
      rw picked (record {
        peer = p;
        has_addr = refl;
        stands_in = known;
        qualified = inl passes;
        few_before = omega (arith, same, near.1);
      })

bob_port : (p : Peer) → is_bob p ≡ true → p.addr.port ≡ 21842
unfolding is_bob
bob_port p h = ground arith

-- With BOB peers to choose from there is no fallback.
pick_bob-filtered :
    (now random : ℕ) (peers cs : List Peer)
    → filter_peers is_bob peers ≡ cs
    → 0 < count is_bob peers
    → pick_bob now random peers cs ≡ pick now random cs
unfolding pick_bob
pick_bob-filtered now random peers [] e h =
    absurd (omega (arith, count-none is_bob peers (filter_peers-nil is_bob peers e)))
pick_bob-filtered now random peers (c ∷ cs) e h = refl

-- A best peer is returned exactly when there is a peer. It qualifies, or no peer does, and fewer
-- than three peers have a higher score, or an equal one and were seen longer ago.
pub best_peer-Selected :
    (now random : ℕ) (peers : List Peer) → Selected now peers (best_peer now random peers)
unfolding best_peer
best_peer-Selected now random peers =
    Selected-from now random peers (filter_peers qualifies peers) refl

-- If a peer on the port 21842 qualifies, the best BOB peer is such a peer, and fewer than three
-- such peers come before it.
pub best_bob_peer-IsBob :
    (now random : ℕ) (peers : List Peer)
    → 0 < count is_bob peers
    → (p : Peer) × (best_bob_peer now random peers ≡ some p.addr)
      × StandsIn peers p
      × (p.addr.port ≡ 21842)
      × (count (λ q. is_bob q && before now q p) peers < 3)
unfolding best_bob_peer
best_bob_peer-IsBob now random peers h =
    let (p, picked, known, bob, few) =
      filtered_pick now random is_bob peers (filter_peers is_bob peers) refl h in
    (
      p,
      pick_bob-filtered now random peers (filter_peers is_bob peers) refl h ∙ picked,
      known,
      bob_port p bob,
      few,
    )
