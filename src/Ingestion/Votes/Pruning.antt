-- ===== src/Ingestion/Votes/Pruning.antt =====
-- What pruning keeps.
use qonduit.Common.{ℕ, ◌-◌, ◌≡◌, List, [], ◌∷◌, Bool, false, ◌&&◌, leb, ltb, if◌then◌else◌, arith}
use qonduit.Ingestion.Votes.{
  Key, key_eq, contains_key, votes_for, retain_votes, retain_keys, TickVoteAggregator, prune,
}

votes_for-retain_votes :
    (cutoff e t : ℕ) (m : List (Key × List ℕ))
    → votes_for (e, t) (retain_votes cutoff m) ≡ (if leb cutoff t then votes_for (e, t) m else [])
unfolding votes_for retain_votes key_eq
votes_for-retain_votes cutoff e t [] = ground arith
votes_for-retain_votes cutoff e t (((e', t'), s) ∷ m) =
    ground (arith, votes_for-retain_votes cutoff e t m)

contains_key-retain_keys :
    (cutoff e t : ℕ) (m : List Key)
    → contains_key (e, t) (retain_keys cutoff m)
      ≡ (if leb cutoff t then contains_key (e, t) m else false)
unfolding contains_key retain_keys key_eq
contains_key-retain_keys cutoff e t [] = ground arith
contains_key-retain_keys cutoff e t ((e', t') ∷ m) =
    ground (arith, contains_key-retain_keys cutoff e t m)

-- Whether pruning at `latest` forgets the tick `t`.
abbrev pub is_forgotten : ℕ → ℕ → ℕ → Bool
is_forgotten latest keep t = ltb keep latest && ltb t (latest - keep)

-- Pruning forgets the votes and the published mark of exactly the ticks that lie more than
-- `keep` behind the latest one, of every epoch, and leaves those of all other ticks as they were.
pub prune-forgets :
    (agg : TickVoteAggregator) (latest keep e t : ℕ)
    → (votes_for (e, t) (prune agg latest keep).votes
        ≡ (if is_forgotten latest keep t then [] else votes_for (e, t) agg.votes))
      × (contains_key (e, t) (prune agg latest keep).quorum_published ≡ (
          if is_forgotten latest keep t then false else contains_key (e, t) agg.quorum_published))
unfolding prune
prune-forgets agg latest keep e t = (
  ground (arith, votes_for-retain_votes (latest - keep) e t agg.votes),
  ground (arith, contains_key-retain_keys (latest - keep) e t agg.quorum_published),
)
