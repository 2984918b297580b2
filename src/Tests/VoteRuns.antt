-- ===== src/Tests/VoteRuns.antt =====
-- Runs of crates/ingestion/src/decoder.rs.
use qonduit.Common.{ℕ, zero, suc, ◌≡◌, refl, List, [], ◌∷◌, Bool, true, false, leb, length, arith}
use qonduit.Bytes.{err, publish_failed}
use qonduit.Ingestion.Votes.{
  key_eq, TickVoteAggregator, votes_for, contains_key, insert_index, contains_index, new_aggregator,
}
use qonduit.Ingestion.Votes.Counting.{
  Vote, run_votes, events_for, voters, one_if, run_votes-events_for,
}
use qonduit.Ingestion.Votes.Handler.{
  Message, tick_vote, quorum_tick, VoteState, handle_vote, quorum_event_lost,
}

-- One vote of each of the computors below `n`, for tick 7 of epoch 150.
votes_below : ℕ → List Vote
votes_below zero = []
votes_below (suc n) = record { epoch = 150; tick = 7; computor_index = n } ∷ votes_below n

abbrev vote : Vote
vote = record { epoch = 150; tick = 7; computor_index = 450 }

run_votes-events_for_example :
    events_for (150, 7) (run_votes new_aggregator (votes_below 452)).1
    ≡ one_if (leb 451 (length (voters (150, 7) [] (votes_below 452))))
run_votes-events_for_example = run_votes-events_for (votes_below 452) (150, 7)

voters_run : length (voters (150, 7) [] (vote ∷ vote ∷ votes_below 3)) ≡ 4
unfolding voters votes_below insert_index contains_index key_eq
voters_run = refl

abbrev two_ticks : TickVoteAggregator
two_ticks = record {
  votes = ((150, 7), 1 ∷ []) ∷ ((150, 400), 2 ∷ []) ∷ [];
  quorum_published = (150, 7) ∷ [];
}

-- The first `n` computors.
indices : ℕ → List ℕ
indices zero = []
indices (suc n) = n ∷ indices n

-- Tick 7 is one vote short of the quorum.
abbrev short_by_one : VoteState
short_by_one = record {
  vote_aggregator = record { votes = ((150, 7), indices 450) ∷ []; quorum_published = [] };
  vote_count = 450;
}

-- A publisher that takes votes and refuses quorum events.
votes_only : Message → Bool
votes_only (tick_vote e v) = true
votes_only (quorum_tick e q) = false

short_by_one-reached :
    length (insert_index 450 (votes_for (150, 7) short_by_one.vote_aggregator.votes)) ≡ 451
unfolding insert_index contains_index votes_for key_eq indices
short_by_one-reached = refl

short_by_one-fresh : contains_key (150, 7) [] ≡ false
unfolding contains_key
short_by_one-fresh = refl

quorum_event_lost_example :
    ((handle_vote votes_only short_by_one 150 vote).2 ≡ err publish_failed)
    × (events_for
          (150, 7)
          (run_votes
            (handle_vote votes_only short_by_one 150 vote).0.vote_aggregator
            (vote ∷ vote ∷ [])).1
        ≡ 0)
unfolding votes_only
quorum_event_lost_example =
    quorum_event_lost votes_only short_by_one 150 vote (vote ∷ vote ∷ []) refl (λ qt. refl)
      (omega (arith, short_by_one-reached)) short_by_one-fresh (omega arith)
