-- ===== src/Ingestion/Votes.antt =====
-- crates/ingestion/src/decoder.rs: the vote aggregator and the handler of tick votes. A hash map is
-- an association list, a hash set a list without repetitions, with no meaning in their order.
pub mod Sets
pub mod Counting
pub mod Pruning
pub mod Handler
use qonduit.Common.{
  ℕ, suc, ◌+◌, ◌-◌, ◌%◌, ◌^◌, List, [], ◌∷◌, ◌++◌, Bool, true, false, not, ◌&&◌, ◌||◌, ◌==◌, ltb,
  leb, length, Option, none, some, if◌then◌else◌,
}

-- QUORUM of crates/core/src/constants.rs: 676 * 2 / 3 + 1.
abbrev pub quorum : ℕ
quorum = 451

-- An epoch and a tick.
abbrev pub Key : Type 0
Key = ℕ × ℕ

unfoldable pub key_eq : Key → Key → Bool
key_eq (e, t) (e', t') = e == e' && t == t'

unfoldable pub contains_index : ℕ → List ℕ → Bool
contains_index c [] = false
contains_index c (x ∷ xs) = c == x || contains_index c xs

-- `HashSet::insert`.
unfoldable pub insert_index : ℕ → List ℕ → List ℕ
insert_index c xs = if contains_index c xs then xs else c ∷ xs

unfoldable pub contains_key : Key → List Key → Bool
contains_key k [] = false
contains_key k (x ∷ xs) = key_eq x k || contains_key k xs

-- The set of a key, empty by default: `votes.entry(key).or_default()`.
unfoldable pub votes_for : Key → List (Key × List ℕ) → List ℕ
votes_for k [] = []
votes_for k ((j, s) ∷ m) = if key_eq j k then s else votes_for k m

unfoldable pub put_votes : Key → List ℕ → List (Key × List ℕ) → List (Key × List ℕ)
put_votes k s [] = (k, s) ∷ []
put_votes k s ((j, t) ∷ m) = if key_eq j k then (j, s) ∷ m else (j, t) ∷ put_votes k s m

-- `sort_unstable` of a list of numbers.
unfoldable pub insert_sorted : ℕ → List ℕ → List ℕ
insert_sorted x [] = x ∷ []
insert_sorted x (y ∷ ys) = if leb x y then x ∷ (y ∷ ys) else y ∷ insert_sorted x ys

unfoldable pub sort : List ℕ → List ℕ
sort [] = []
sort (x ∷ xs) = insert_sorted x (sort xs)

pub record TickVoteAggregator : Type 0 where
  pub votes : List (Key × List ℕ)
  pub quorum_published : List Key

pub record QuorumTick : Type 0 where
  pub epoch : ℕ
  pub tick : ℕ
  pub vote_count : ℕ
  pub voted_computors : List ℕ

abbrev pub new_aggregator : TickVoteAggregator
new_aggregator = record { votes = []; quorum_published = [] }

-- Record a vote; the event is returned if the quorum is reached and not published yet.
unfoldable pub record_vote : TickVoteAggregator → ℕ → ℕ → ℕ → TickVoteAggregator × Option QuorumTick
record_vote agg epoch tick computor_index =
    let key : Key = (epoch, tick) in
    let voted = insert_index computor_index (votes_for key agg.votes) in
    let votes' = put_votes key voted agg.votes in
    if leb quorum (length voted) && not (contains_key key agg.quorum_published)
    then (
      record { votes = votes'; quorum_published = key ∷ agg.quorum_published },
      some (record {
        epoch = epoch;
        tick = tick;
        vote_count = length voted % 2 ^ 16;
        voted_computors = sort voted;
      }),
    )
    else (record { votes = votes'; quorum_published = agg.quorum_published }, none)

unfoldable pub retain_votes : ℕ → List (Key × List ℕ) → List (Key × List ℕ)
retain_votes cutoff [] = []
retain_votes cutoff (((e, t), s) ∷ m) =
    let rest = retain_votes cutoff m in if leb cutoff t then ((e, t), s) ∷ rest else rest

unfoldable pub retain_keys : ℕ → List Key → List Key
retain_keys cutoff [] = []
retain_keys cutoff ((e, t) ∷ m) =
    let rest = retain_keys cutoff m in if leb cutoff t then (e, t) ∷ rest else rest

-- Drop what lies more than `keep_ticks` behind `latest_tick`.
unfoldable pub prune : TickVoteAggregator → ℕ → ℕ → TickVoteAggregator
prune agg latest_tick keep_ticks =
    if ltb keep_ticks latest_tick
    then record {
      votes = retain_votes (latest_tick - keep_ticks) agg.votes;
      quorum_published = retain_keys (latest_tick - keep_ticks) agg.quorum_published;
    }
    else agg
