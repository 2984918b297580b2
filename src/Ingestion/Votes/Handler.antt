-- ===== src/Ingestion/Votes/Handler.antt =====
-- `PacketDecoder::decode_tick_vote`: the vote is published, counted and, when it completes a
-- quorum, followed by a quorum event. Publishing is a parameter that says whether it succeeds.
use qonduit.Common.{
  ℕ, ◌+◌, ◌%◌, ◌^◌, ◌≤◌, ◌≡◌, ◌≢◌, refl, ap, ◌∙◌, List, [], ◌∷◌, Bool, true, false, ◌==◌, ltb,
  length, Option, none, some, if◌then◌else◌, arith, le→leb, ==_ne,
}
use qonduit.Bytes.{Bytes, Result, ok, err, panic, publish_failed, read_le, ◌>>=◌}
use qonduit.Ingestion.Votes.{
  Key, quorum, insert_index, contains_key, votes_for, put_votes, TickVoteAggregator, QuorumTick,
  record_vote, prune,
}
use qonduit.Ingestion.Votes.Sets.{key_eq_refl, votes_for-put_votes}
use qonduit.Ingestion.Votes.Counting.{Vote, run_votes, events_for, run_votes-no_more}

pub data Message : Type 0 where
  tick_vote : ℕ → Vote → Message
  quorum_tick : ℕ → QuorumTick → Message

pub record VoteState : Type 0 where
  pub vote_aggregator : TickVoteAggregator
  pub vote_count : ℕ

-- The new state, the messages handed to the publisher, and the outcome.
abbrev pub Outcome : Type 0
Outcome = VoteState × List Message × Result (Unit {0})

abbrev prune_interval : ℕ
prune_interval = 10000

abbrev keep_ticks : ℕ
keep_ticks = 256

-- The critical section: the vote is recorded, and every `prune_interval` votes old ticks go.
unfoldable pub aggregate : VoteState → Vote → VoteState × Option QuorumTick
aggregate s v =
    let (agg, result) = record_vote s.vote_aggregator v.epoch v.tick v.computor_index in
    let count = (s.vote_count + 1) % 2 ^ 64 in
    (
      record {
        vote_aggregator = if count % prune_interval == 0 then prune agg v.tick keep_ticks else agg;
        vote_count = count;
      },
      result,
    )

unfoldable pub vote_fields : Bytes → Result Vote
vote_fields payload = do
  computor_index ← read_le payload 0 2
  epoch ← read_le payload 2 2
  tick ← read_le payload 4 4
  ok (record { epoch = epoch; tick = tick; computor_index = computor_index })

module _ (publish : Message → Bool) where
  unfoldable pub publish_quorum : ℕ → VoteState → Message → Option QuorumTick → Outcome
  publish_quorum current_epoch s vote none = (s, vote ∷ [], ok tt)
  publish_quorum current_epoch s vote (some qt) =
      let event = quorum_tick current_epoch qt in
      (s, vote ∷ event ∷ [], if publish event then ok tt else err publish_failed)

  unfoldable pub handle_vote : VoteState → ℕ → Vote → Outcome
  handle_vote s current_epoch v =
      let message = tick_vote current_epoch v in
      let (s', result) = aggregate s v in
      if publish message
      then publish_quorum current_epoch s' message result
      else (s, message ∷ [], err publish_failed)

  -- A payload of less than 20 bytes is ignored.
  unfoldable pub decode_tick_vote : VoteState → Bytes → ℕ → Outcome
  decode_tick_vote s payload current_epoch =
      if ltb (length payload) 20 then (s, [], ok tt) else elim (vote_fields payload) [
        | ok v ↦ handle_vote s current_epoch v
        | err e ↦ (s, [], err e)
        | panic ↦ (s, [], panic)
      ]

  -- If the publisher takes a vote but refuses the quorum event that the vote completes, and the vote
  -- is not one at which the handler prunes, the handler fails, and the tick stays marked as
  -- published: no later votes that are recorded without pruning publish an event for it.
  pub quorum_event_lost :
      (s : VoteState) (current_epoch : ℕ) (v : Vote) (later : List Vote)
      → publish (tick_vote current_epoch v) ≡ true
      → ((qt : QuorumTick) → publish (quorum_tick current_epoch qt) ≡ false)
      → quorum
        ≤ length
            (insert_index v.computor_index (votes_for (v.epoch, v.tick) s.vote_aggregator.votes))
      → contains_key (v.epoch, v.tick) s.vote_aggregator.quorum_published ≡ false
      → ((s.vote_count + 1) % 2 ^ 64) % 10000 ≢ 0
      → ((handle_vote s current_epoch v).2 ≡ err publish_failed)
        × (events_for
              (v.epoch, v.tick)
              (run_votes (handle_vote s current_epoch v).0.vote_aggregator later).1
            ≡ 0)
  unfolding handle_vote publish_quorum aggregate record_vote contains_key
  quorum_event_lost s ce v later took refused full fresh no_prune =
      let key : Key = (v.epoch, v.tick) in
      let voted = insert_index v.computor_index (votes_for key s.vote_aggregator.votes) in
      let marked : contains_key key (key ∷ s.vote_aggregator.quorum_published) ≡ true =
        rw (key_eq_refl key) in
      let held : votes_for key (put_votes key voted s.vote_aggregator.votes) ≡ voted =
        votes_for-put_votes key key voted s.vote_aggregator.votes ∙ rw (key_eq_refl key) in
      rw (le→leb _ _ full, fresh, ==_ne _ _ no_prune, took, refused)
        (refl, run_votes-no_more later _ key marked (omega (arith, ap length held)))
