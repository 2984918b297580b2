-- ===== src/Tests/PeerRuns.antt =====
-- Runs of crates/ingestion/src/peer_manager.rs.
use qonduit.Common.{
  ℕ, ◌<◌, some, none, count, StandsIn, arith, ◌*◌, ◌^◌, ◌≡◌, refl, List, [], ◌∷◌, length,
}
use qonduit.Bytes.{Bytes}
use qonduit.Core.Identity.{bytes_eq}
use qonduit.Ingestion.Peers.{
  SocketAddr, Peer, Operation, exchanged, failed, broadcast, new_manager, known, update, addr_eq,
  add_peers_from_exchange, mark_failure, mark_broadcast, prune_stale, is_stale, stale_since,
  saturating_inc, apply_peers, run_peers,
}
use qonduit.Ingestion.Peers.Known.{zero_ip}
use qonduit.Ingestion.Peers.Stale.{prune_stale-quiet}
use qonduit.Ingestion.Peers.Scores.{
  score, broadcast_score, ratio_score, add, mul, div, of_u32, tenths, round, half_even, exponent,
}
use qonduit.Ingestion.Peers.Selection.{
  seen, before, insert, sort_peers, filter_peers, qualifies, pick, pick_some, is_bob, candidates_or,
  best_peer,
}
use qonduit.Ingestion.Peers.Favoured.{Selected, best_peer-Selected}
use qonduit.Ingestion.Peers.Broadcasting.{best_peer-broadcast}
use qonduit.Ingestion.Peers.Bootstrap.{
  RandomPeersResponse, split_dots, parse_octet, parse_octets, parse_ipv4, parse_peer_addr,
  add_parsed, add_listed, bootstrap_from_api, operated, bootstrapped, run_changes,
}
use qonduit.Ingestion.Peers.Distinct.{IsDistinct, run_changes-IsDistinct}
use qonduit.Query.Texts.{
  codes, trim, trim_start, is_whitespace, parse_some, parse_digits, is_ascii_digit,
}

abbrev home : SocketAddr
home = record { ip = 10 ∷ 0 ∷ 0 ∷ 1 ∷ []; port = 21841 }

abbrev other : Bytes
other = 10 ∷ 0 ∷ 0 ∷ 2 ∷ []

-- Five failures, long ago.
abbrev failures : List Operation
failures =
    failed 1 home
    ∷ failed 2 home
    ∷ failed 3 home
    ∷ failed 4 home
    ∷ failed 5 home
    ∷ exchanged (zero_ip ∷ other ∷ [])
    ∷ []

prune_stale-quiet_example :
    prune_stale (900 * 10 ^ 9) (run_peers failures (new_manager (home ∷ [])))
    ≡ run_peers failures (new_manager (home ∷ []))
prune_stale-quiet_example =
    prune_stale-quiet (home ∷ []) failures (900 * 10 ^ 9) (tt, (tt, (tt, (tt, (tt, (tt, tt))))))

-- A peer that once broadcast is removed after the same failures.
broadcast_run :
    length (
      prune_stale
        (900 * 10 ^ 9)
        (run_peers (broadcast 0 home ∷ failures) (new_manager (home ∷ []))))
    ≡ 1
unfolding prune_stale is_stale stale_since run_peers apply_peers new_manager mark_broadcast
    mark_failure add_peers_from_exchange update known addr_eq bytes_eq saturating_inc
broadcast_run = refl

abbrev peer_at : ℕ → ℕ → ℕ → ℕ → ℕ → Peer
peer_at last port successes failures broadcasts = record {
  addr = record { ip = 10 ∷ 0 ∷ 0 ∷ last ∷ []; port = port };
  last_seen = some 5;
  last_failure = none;
  success_count = successes;
  failure_count = failures;
  broadcast_count = broadcasts;
}

-- Three peers that have broadcast, a reliable one that has not, and two BOB peers.
abbrev six_peers : List Peer
six_peers =
    peer_at 1 21841 1 9 2
    ∷ peer_at 2 21841 8 0 0
    ∷ peer_at 3 21841 0 1 12
    ∷ peer_at 4 21842 2 2 0
    ∷ peer_at 5 21841 0 0 1
    ∷ peer_at 6 21842 0 7 0
    ∷ []

-- The f64 values 0.15, 0.85 and 0.5 of the source's tests, in units of 2 ^ -128.
score_run :
    (score (peer_at 1 21841 3 7 0) ≡ 5404319552844595 * 2 ^ 73)
    × (score (peer_at 1 21841 0 0 5) ≡ 7656119366529843 * 2 ^ 75)
    × (score (peer_at 1 21841 10 0 0) ≡ 2 ^ 127)
unfolding score broadcast_score ratio_score add mul div of_u32 tenths round half_even exponent
score_run = (refl, refl, refl)

best_peer_run : best_peer 9 1 six_peers ≡ some (peer_at 1 21841 1 9 2).addr
unfolding best_peer pick_some pick candidates_or filter_peers qualifies sort_peers insert before
    seen score broadcast_score ratio_score add mul div of_u32 tenths round half_even exponent
best_peer_run = refl

best_peer-Selected_example : Selected 9 six_peers (best_peer 9 1 six_peers)
best_peer-Selected_example = best_peer-Selected 9 1 six_peers

best_peer-broadcast_example :
    (p : Peer) × (best_peer 9 1 six_peers ≡ some p.addr)
    × StandsIn six_peers p
    × (0 < p.broadcast_count)
best_peer-broadcast_example = best_peer-broadcast 9 1 six_peers (omega arith) (omega arith)

bobs : 0 < count is_bob six_peers
unfolding is_bob qualifies score broadcast_score ratio_score add mul div of_u32 tenths round
    half_even exponent
bobs = omega arith

abbrev answer : RandomPeersResponse
answer = record {
  lite_peers = codes " 10.0.0.1" ∷ codes "10.0.0.256" ∷ codes "10.0.0.07" ∷ [];
  bob_peers = codes "10.0.0.1" ∷ codes "10.0.0" ∷ codes "10.0.0.1 " ∷ [];
}

-- Of six texts three are addresses, two of them the same.
bootstrap_run : length (bootstrap_from_api (some answer) []) ≡ 2
unfolding bootstrap_from_api add_listed add_parsed parse_peer_addr parse_ipv4 parse_octets
    parse_octet split_dots trim trim_start is_whitespace parse_some parse_digits is_ascii_digit
    known addr_eq bytes_eq
bootstrap_run = refl

run_changes-IsDistinct_example : IsDistinct (
    run_changes
      (bootstrapped (some answer)
        ∷ operated (exchanged (other ∷ other ∷ []))
        ∷ bootstrapped (some answer)
        ∷ [])
      [])
run_changes-IsDistinct_example =
    run_changes-IsDistinct
      (bootstrapped (some answer)
        ∷ operated (exchanged (other ∷ other ∷ []))
        ∷ bootstrapped (some answer)
        ∷ [])
      [] tt
