-- ===== src/Ingestion/Votes/Counting.antt =====
-- Quorum events: for a sequence of votes, one for each tick that reaches the quorum, and no other.
use qonduit.Common.{
  ℕ, ◌+◌, ◌≤◌, ◌≡◌, refl, ap, sym, ◌∙◌, List, [], ◌∷◌, ◌++◌, Bool, true, false, leb, length, Option,
  none, some, if◌then◌else◌, arith, All, All-append, le→leb,
}
use qonduit.Ingestion.Votes.{
  Key, key_eq, quorum, insert_index, contains_key, votes_for, TickVoteAggregator, QuorumTick,
  new_aggregator, record_vote,
}
use qonduit.Ingestion.Votes.Sets.{
  key_eq_iff, votes_for-put_votes, length-insert_index_le, length-sort,
}

pub record Vote : Type 0 where
  pub epoch : ℕ
  pub tick : ℕ
  pub computor_index : ℕ

abbrev pub event_of : Option QuorumTick → List QuorumTick
event_of none = []
event_of (some q) = q ∷ []

-- The votes in order, and the events that they cause.
unfoldable pub run_votes : TickVoteAggregator → List Vote → TickVoteAggregator × List QuorumTick
run_votes agg [] = (agg, [])
run_votes agg (v ∷ vs) =
    let (agg', event) = record_vote agg v.epoch v.tick v.computor_index in
    let (agg'', events) = run_votes agg' vs in (agg'', event_of event ++ events)

-- The computors that vote for `k`, each once, added to `s`.
unfoldable pub voters : Key → List ℕ → List Vote → List ℕ
voters k s [] = s
voters k s (v ∷ vs) =
    voters k (if key_eq (v.epoch, v.tick) k then insert_index v.computor_index s else s) vs

abbrev pub one_if : Bool → ℕ
one_if true = 1
one_if false = 0

-- How many of the events are for `k`.
pub events_for : Key → List QuorumTick → ℕ
events_for k [] = 0
events_for k (q ∷ qs) = one_if (key_eq (q.epoch, q.tick) k) + events_for k qs

abbrev has_quorum : List ℕ → Bool
has_quorum s = leb quorum (length s)

-- `k` is marked as published exactly if its set has the quorum.
abbrev IsConsistent : TickVoteAggregator → Key → Type 0
IsConsistent agg k = contains_key k agg.quorum_published ≡ has_quorum (votes_for k agg.votes)

module _ (agg : TickVoteAggregator) (v : Vote) (k : Key) where
  abbrev after : TickVoteAggregator × Option QuorumTick
  after = record_vote agg v.epoch v.tick v.computor_index

  abbrev old : List ℕ
  old = votes_for k agg.votes

  abbrev new : List ℕ
  new = if key_eq (v.epoch, v.tick) k then insert_index v.computor_index old else old

  abbrev key : Key
  key = (v.epoch, v.tick)

  votes_after : votes_for k after.0.votes ≡ new
  unfolding record_vote
  votes_after = ground (
    arith,
    key_eq_iff key k,
    votes_for-put_votes key k (insert_index v.computor_index (votes_for key agg.votes)) agg.votes,
  )

  IsConsistent-after : IsConsistent agg k → IsConsistent after.0 k
  unfolding record_vote contains_key
  IsConsistent-after c = ground (
    arith,
    key_eq_iff key k,
    votes_for-put_votes key k (insert_index v.computor_index (votes_for key agg.votes)) agg.votes,
    length-insert_index_le v.computor_index (votes_for key agg.votes),
  )

  events_after :
      IsConsistent agg k
      → events_for k (event_of after.1) + one_if (has_quorum old) ≡ one_if (has_quorum new)
  unfolding record_vote events_for
  events_after c =
      ground
        (arith, key_eq_iff key k, length-insert_index_le v.computor_index (votes_for key agg.votes))

events_for-append :
    (k : Key) (xs ys : List QuorumTick)
    → events_for k (xs ++ ys) ≡ events_for k xs + events_for k ys
unfolding events_for
events_for-append k [] ys = omega arith
events_for-append k (x ∷ xs) ys = omega (arith, events_for-append k xs ys)

run_votes-events_from :
    (vs : List Vote) (agg : TickVoteAggregator) (k : Key)
    → IsConsistent agg k
    → events_for k (run_votes agg vs).1 + one_if (has_quorum (votes_for k agg.votes))
      ≡ one_if (has_quorum (voters k (votes_for k agg.votes) vs))
unfolding run_votes voters events_for
run_votes-events_from [] agg k c = omega arith
run_votes-events_from (v ∷ vs) agg k c =
    let step = record_vote agg v.epoch v.tick v.computor_index in
    let rest = run_votes-events_from vs step.0 k (IsConsistent-after agg v k c) in
    let sets : votes_for k step.0.votes ≡ (
        if key_eq (v.epoch, v.tick) k
        then insert_index v.computor_index (votes_for k agg.votes)
        else votes_for k agg.votes) =
      votes_after agg v k in
    omega (
      arith,
      rest,
      events_after agg v k c,
      events_for-append k (event_of step.1) (run_votes step.0 vs).1,
      ap (λ s. one_if (has_quorum s)) sets,
      ap (λ s. one_if (has_quorum (voters k s vs))) sets,
    )

-- From an empty aggregator and without pruning, a sequence of votes publishes exactly one quorum
-- event for each epoch and tick that at least 451 different computors voted for, and none for any
-- other, in whatever order and however often the votes arrive.
pub run_votes-events_for :
    (vs : List Vote) (k : Key)
    → events_for k (run_votes new_aggregator vs).1 ≡ one_if (leb 451 (length (voters k [] vs)))
unfolding votes_for contains_key
run_votes-events_for vs k = omega (arith, run_votes-events_from vs new_aggregator k refl)

-- A quorum event names the 451 computors that reached the quorum.
abbrev pub IsExact : QuorumTick → Type 0
IsExact q = (q.vote_count ≡ 451) × (length q.voted_computors ≡ 451)

event-IsExact :
    (agg : TickVoteAggregator) (v : Vote)
    → IsConsistent agg (v.epoch, v.tick)
    → All IsExact (event_of (record_vote agg v.epoch v.tick v.computor_index).1)
unfolding record_vote
event-IsExact agg v c =
    let s = votes_for (v.epoch, v.tick) agg.votes in
    ground (
      arith,
      length-insert_index_le v.computor_index s,
      length-sort (insert_index v.computor_index s),
    )

run_votes-IsExact_from :
    (vs : List Vote) (agg : TickVoteAggregator)
    → ((k : Key) → IsConsistent agg k)
    → All IsExact (run_votes agg vs).1
unfolding run_votes
run_votes-IsExact_from [] agg c = tt
run_votes-IsExact_from (v ∷ vs) agg c =
    let step = record_vote agg v.epoch v.tick v.computor_index in
    All-append IsExact (event_of step.1) (run_votes step.0 vs).1
      (event-IsExact agg v (c (v.epoch, v.tick)))
      (run_votes-IsExact_from vs step.0 (λ k. IsConsistent-after agg v k (c k)))

-- Every quorum event that a sequence of votes publishes, from an empty aggregator and without
-- pruning, carries the vote count 451 and a list of 451 computor indices: it is sent when the
-- quorum is reached, neither early nor late.
pub run_votes-IsExact : (vs : List Vote) → All IsExact (run_votes new_aggregator vs).1
unfolding contains_key votes_for
run_votes-IsExact vs = run_votes-IsExact_from vs new_aggregator (λ k. refl)

-- Once the set of a tick has the quorum and is marked, no further votes publish an event for it.
pub run_votes-no_more :
    (vs : List Vote) (agg : TickVoteAggregator) (k : Key)
    → contains_key k agg.quorum_published ≡ true
    → quorum ≤ length (votes_for k agg.votes)
    → events_for k (run_votes agg vs).1 ≡ 0
run_votes-no_more vs agg k marked full =
    let reached : has_quorum (votes_for k agg.votes) ≡ true = le→leb _ _ full in
    omega (
      arith,
      run_votes-events_from vs agg k (marked ∙ sym reached),
      ap one_if reached,
      one_if_le (has_quorum (voters k (votes_for k agg.votes) vs)),
    )
  where
    one_if_le : (b : Bool) → one_if b ≤ 1
    one_if_le true = omega arith
    one_if_le false = omega arith
