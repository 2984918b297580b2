-- ===== src/Ingestion/Peers/Broadcasting.antt =====
-- The selection favours peers that have broadcast, the ones that the live ingestion needs.
use qonduit.Common.{
  ℕ, ◌+◌, ◌^◌, ◌≤◌, ◌<◌, List, Bool, true, false, ◌≡◌, inl, inr, sym, ap, Option, none, some, All,
  All-get_elem?, StandsIn, count, count-le, ltb, Bool-cases, arith,
}
use native.Mathlib.Nat.{mod-eq_of_lt}
use qonduit.Ingestion.Peers.{SocketAddr, Peer}
use qonduit.Ingestion.Peers.Scores.{score}
use qonduit.Ingestion.Peers.Selection.{before, best_peer}
use qonduit.Ingestion.Peers.Favoured.{Selected, best_peer-Selected}
use qonduit.Ingestion.Peers.Rounding.{ratio_score-le, broadcast_score-gt}

abbrev pub has_broadcast : Peer → Bool
has_broadcast p = ltb 0 p.broadcast_count

-- The sum of the counts of a peer stays in u32.
abbrev pub IsCounted : Peer → Type 0
IsCounted p = p.success_count + p.failure_count < 2 ^ 32

score-quiet : (p : Peer) → IsCounted p → has_broadcast p ≡ false → score p ≤ 2 ^ 127
unfolding score
score-quiet p counted quiet =
    rw (quiet, mod-eq_of_lt counted)
      (ratio_score-le p.success_count (p.success_count + p.failure_count) (omega arith))

score-broadcast : (p : Peer) → has_broadcast p ≡ true → 2 ^ 127 < score p
unfolding score
score-broadcast p h = rw h (broadcast_score-gt p.broadcast_count (ground arith))

before-broadcast :
    (now : ℕ) (p q : Peer)
    → IsCounted p
    → has_broadcast p ≡ false
    → has_broadcast q ≡ true
    → before now q p ≡ true
unfolding before
before-broadcast now p q counted quiet loud =
    ground (arith, score-quiet p counted quiet, score-broadcast q loud)

chosen-broadcast :
    (now : ℕ) (peers : List Peer) (o : Option SocketAddr)
    → 3 ≤ count has_broadcast peers
    → All IsCounted peers
    → Selected now peers o
    → (p : Peer) × (o ≡ some p.addr) × StandsIn peers p × (0 < p.broadcast_count)
chosen-broadcast now peers none many counted empty =
    let nobody : count has_broadcast peers ≡ 0 = ap (count has_broadcast) empty in
    absurd (omega arith)
chosen-broadcast now peers (some addr) many counted c = elim (Bool-cases (has_broadcast c.peer)) [
  | inl loud ↦ (c.peer, ap some (sym c.has_addr), c.stands_in, ground arith)
  | inr quiet ↦
      let in_range : IsCounted c.peer =
        All-get_elem? IsCounted peers c.stands_in.0 c.peer counted c.stands_in.1 in
      absurd (
        omega (
          arith,
          c.few_before,
          count-le has_broadcast (λ q. before now q c.peer)
              (λ q. before-broadcast now c.peer q in_range quiet) peers,
        ))
]

-- If at least three of the known peers have broadcast and the counts of no peer overflow when they
-- are added, then the best peer is one that has broadcast, whatever number is drawn.
pub best_peer-broadcast :
    (now random : ℕ) (peers : List Peer)
    → 3 ≤ count has_broadcast peers
    → All IsCounted peers
    → (p : Peer) × (best_peer now random peers ≡ some p.addr)
      × StandsIn peers p
      × (0 < p.broadcast_count)
best_peer-broadcast now random peers many counted =
    chosen-broadcast now peers (best_peer now random peers) many counted
      (best_peer-Selected now random peers)
