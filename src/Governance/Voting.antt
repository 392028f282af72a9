-- ===== src/Governance/Voting.antt =====
-- `vote` and `voteWithType` of backend/src/governance/governance.service.ts.
use stellar_split.Prelude.{
  ℕ, ◌+◌, Bool, true, false, not, ◌&&◌, ◌||◌, Option, ltb, leb, ◌==◌, if◌then◌else◌, is_some,
  find_where, bad_request, Action, return, gets, throw_if, ◌>>=◌, ◌>>◌,
}
use stellar_split.Entities.{Text}
use stellar_split.Governance.Entity.{
  pending, active, same_status, Proposal, proposal_keyed, VoteType, for_, against, abstain, Vote,
  vote_keyed, action_keyed, config_keyed, CastVoteDto, CastVoteWithTypeDto,
}
use stellar_split.Governance.Store.{
  Event, Store, Env, get_proposal, save_proposal, save_vote, emit, get_voting_power,
}

-- `where: { proposalId, voter }`.
abbrev pub is_ballot : ℕ → ℕ → Vote → Bool
is_ballot proposal voter v = (v.proposal_id == proposal) && (v.voter == voter)

unfoldable pub new_vote : Env → ℕ → ℕ → VoteType → Option Text → Vote
unfolding get_voting_power
new_vote env proposal voter type reason = record {
  id = env.new_id 1;
  proposal_id = proposal;
  voter = voter;
  vote_type = type;
  voting_power = get_voting_power voter;
  reason = reason;
}

-- The vote is added to the count of its type.
abbrev pub count_vote : VoteType → ℕ → Proposal → Proposal
count_vote for_ power p = record p { votes_for = p.votes_for + power }
count_vote against power p = record p { votes_against = p.votes_against + power }
count_vote abstain power p = record p { votes_abstain = p.votes_abstain + power }

abbrev pub type_of : Bool → VoteType
type_of true = for_
type_of false = against

-- A pending proposal becomes active with the first vote.
unfoldable pub activate : Env → Proposal → Action Store Proposal
unfolding save_proposal
activate env p =
    if same_status p.status pending && leb p.voting_start_time env.now
    then (let p' = record p { status = active } in save_proposal env 1 p' >> return p')
    else return p

-- Both operations, from the search for an earlier vote on.
unfoldable pub cast : Env → Proposal → ℕ → ℕ → VoteType → Option Text → Action Store (Unit {0})
unfolding get_voting_power new_vote save_vote save_proposal
cast env p proposal voter type reason = do
  existing ← gets (λ s. find_where (is_ballot proposal voter) s.votes)
  throw_if (is_some existing) bad_request
  throw_if (get_voting_power voter == 0) bad_request
  save_vote env 2 (new_vote env proposal voter type reason)
  save_proposal env 3 (count_vote type (get_voting_power voter) p)

unfoldable pub vote : Env → CastVoteDto → Action Store (Unit {0})
unfolding get_proposal emit
vote env dto = do
  p ← get_proposal dto.proposal_id
  throw_if (ltb env.now p.voting_start_time) bad_request
  throw_if (ltb p.voting_end_time env.now) bad_request
  throw_if (not (same_status p.status active || same_status p.status pending)) bad_request
  p' ← activate env p
  cast env p' dto.proposal_id dto.voter (type_of dto.support) dto.reason
  emit
      (Event.vote_cast dto.proposal_id dto.voter (type_of dto.support) (get_voting_power dto.voter))

-- This one asks for no status, sets none and emits nothing.
unfoldable pub vote_with_type : Env → CastVoteWithTypeDto → Action Store (Unit {0})
unfolding get_proposal
vote_with_type env dto = do
  p ← get_proposal dto.proposal_id
  throw_if (ltb env.now p.voting_start_time || ltb p.voting_end_time env.now) bad_request
  cast env p dto.proposal_id dto.voter dto.vote_type dto.reason
