-- ===== src/Governance/Ballots.antt =====
-- How many votes a voter has on a proposal.
use stellar_split.Prelude.{
  ℕ, ◌≤◌, ◌≡◌, refl, ◌≢◌, ◌⊎◌, inl, inr, Bool, true, false, Option, none, some, arith, ◌==◌, count,
  select, find_where, find_by_id, save_row, db_failure, ok, err, is_ok,
}
use stellar_split.Entities.{Text}
use stellar_split.Governance.Entity.{
  active, Proposal, proposal_keyed, VoteType, vote_keyed, action_keyed, config_keyed,
  CreateProposalDto, CastVoteDto, CastVoteWithTypeDto,
}
use stellar_split.Governance.Store.{Store, Env, config_of, get_active_config}
use stellar_split.Prelude.{Option-cases, count-save_fresh, count-find_where-none}
use stellar_split.Governance.Proposing.{create_proposal, new_proposal}
use stellar_split.Governance.Voting.{
  is_ballot, new_vote, activate, cast, vote, vote_with_type, type_of,
}
use stellar_split.Governance.Executing.{
  finalize_proposal, execute_proposal, veto_proposal, finalize_if_active, carry_out,
}
use stellar_split.Governance.Service.{Call, perform}
use stellar_split.Governance.Tallies.{execute_actions_keeps, create_actions_keeps}

abbrev pub BallotsUnique : Store → Type 0
BallotsUnique s = (i voter : ℕ) → count (is_ballot i voter) s.votes ≤ 1

module _ (env : Env) (s : Store) where
  finalize_proposal-votes : (i : ℕ) → (finalize_proposal env i s).1.votes ≡ s.votes
  unfolding finalize_proposal
  finalize_proposal-votes i = ground arith

  finalize_if_active-votes : (p : Proposal) → (finalize_if_active env p s).1.votes ≡ s.votes
  unfolding finalize_if_active
  finalize_if_active-votes p = ground (arith, finalize_proposal-votes p.id)

  carry_out-votes : (i : ℕ) → (carry_out env i s).1.votes ≡ s.votes
  unfolding carry_out
  carry_out-votes i =
      ground (arith, execute_actions_keeps env 3 (select (λ a. a.proposal_id == i) s.actions) s)

  veto_proposal-votes :
      (i vetoer : ℕ) (reason : Text) → (veto_proposal env i vetoer reason s).1.votes ≡ s.votes
  unfolding veto_proposal
  veto_proposal-votes i vetoer reason = ground arith

  create_proposal-votes : (dto : CreateProposalDto) → (create_proposal env dto s).1.votes ≡ s.votes
  unfolding create_proposal
  create_proposal-votes dto =
      let sc : Store = (get_active_config env s).1 in
      let sp : Store = record sc {
        proposals = save_row (new_proposal env (config_of env s) dto) sc.proposals;
      } in
      ground (arith, create_actions_keeps env (env.new_id 1) 2 dto.actions sp)

  activate-votes : (p : Proposal) → (activate env p s).1.votes ≡ s.votes
  unfolding activate
  activate-votes p = ground arith

execute_proposal-votes :
    (env : Env) (s : Store) (i : ℕ) → (execute_proposal env i s).1.votes ≡ s.votes
unfolding execute_proposal
execute_proposal-votes env s i = elim (Option-cases (find_by_id i s.proposals)) [
  | inl e ↦ ground arith
  | inr (p, e) ↦
      let sc : Store = (get_active_config env s).1 in
      ground (
        arith,
        finalize_if_active-votes env sc p,
        carry_out-votes env (finalize_if_active env p sc).1 i,
      )
]

cast_unique :
    (env : Env) (p : Proposal) (k v : ℕ) (t : VoteType) (r : Option Text) (s : Store) (i voter : ℕ)
    → count (is_ballot i voter) s.votes ≤ 1
    → find_by_id (env.new_id 1) s.votes ≡ none
    → count (is_ballot i voter) (cast env p k v t r s).1.votes ≤ 1
unfolding cast new_vote
cast_unique env p k v t r s i voter h fresh = ground (
  arith,
  count-save_fresh (is_ballot i voter) (new_vote env k v t r) s.votes,
  count-find_where-none (is_ballot k v) s.votes,
)

-- The proposal stays, is saved as active, or cannot be saved.
pub activate_outcomes :
    (env : Env) (p : Proposal) (s : Store)
    → let p' : Proposal = record p { status = active } in
      (activate env p s ≡ (ok p, s))
      ⊎ (activate env p s ≡ (ok p', record s { proposals = save_row p' s.proposals }))
      ⊎ (activate env p s ≡ (err db_failure, s))
unfolding activate
activate_outcomes env p s = ground arith

module _ (env : Env) (s : Store) (i voter : ℕ) where
  vote_unique :
      (dto : CastVoteDto)
      → count (is_ballot i voter) s.votes ≤ 1
      → find_by_id (env.new_id 1) s.votes ≡ none
      → count (is_ballot i voter) (vote env dto s).1.votes ≤ 1
  unfolding vote
  vote_unique dto h fresh = elim (Option-cases (find_by_id dto.proposal_id s.proposals)) [
    | inl e ↦ ground arith
    | inr (p, e) ↦
        let p' : Proposal = record p { status = active } in
        let s' : Store = record s { proposals = save_row p' s.proposals } in
        let t = type_of dto.support in
        ground (
          arith,
          activate_outcomes env p s,
          cast_unique env p dto.proposal_id dto.voter t dto.reason s i voter h fresh,
          cast_unique env p' dto.proposal_id dto.voter t dto.reason s' i voter h fresh,
        )
  ]

  vote_with_type_unique :
      (dto : CastVoteWithTypeDto)
      → count (is_ballot i voter) s.votes ≤ 1
      → find_by_id (env.new_id 1) s.votes ≡ none
      → count (is_ballot i voter) (vote_with_type env dto s).1.votes ≤ 1
  unfolding vote_with_type
  vote_with_type_unique dto h fresh = elim (Option-cases (find_by_id dto.proposal_id s.proposals)) [
    | inl e ↦ ground arith
    | inr (p, e) ↦ ground (
      arith,
      cast_unique env p dto.proposal_id dto.voter dto.vote_type dto.reason s i voter h fresh,
    )
  ]

-- No call, whatever its outcome, makes a second vote of one voter on one proposal. The database's new
-- identifier must be unused.
pub perform-BallotsUnique :
    (env : Env) (c : Call) (s : Store)
    → BallotsUnique s
    → find_by_id (env.new_id 1) s.votes ≡ none
    → BallotsUnique (perform env c s).1
unfolding perform
perform-BallotsUnique env (Call.create dto) s h fresh i voter =
    rw (create_proposal-votes env s dto) (h i voter)
perform-BallotsUnique env (Call.cast dto) s h fresh i voter =
    vote_unique env s i voter dto (h i voter) fresh
perform-BallotsUnique env (Call.cast_typed dto) s h fresh i voter =
    vote_with_type_unique env s i voter dto (h i voter) fresh
perform-BallotsUnique env (Call.execute j) s h fresh i voter =
    rw (execute_proposal-votes env s j) (h i voter)
perform-BallotsUnique env (Call.veto j vetoer reason) s h fresh i voter =
    rw (veto_proposal-votes env s j vetoer reason) (h i voter)
perform-BallotsUnique env (Call.finalize j) s h fresh i voter =
    rw (finalize_proposal-votes env s j) (h i voter)

-- Who has voted is refused.
voted_refused :
    (env : Env) (dto : CastVoteDto) (s : Store)
    → find_where (is_ballot dto.proposal_id dto.voter) s.votes ≢ none
    → is_ok (vote env dto s).0 ≡ false
unfolding vote cast
voted_refused env dto s voted = elim (Option-cases (find_by_id dto.proposal_id s.proposals)) [
  | inl e ↦ ground arith
  | inr (p, e) ↦ ground (arith, activate_outcomes env p s)
]

-- The vote and its count are two writes with no transaction. If the second one fails, the voter's
-- power is on record and counted nowhere, and no later call of `vote` by the voter on the proposal goes
-- through: for every active proposal within its voting time and every voter with no vote yet.
pub vote_lost :
    (env env' : Env) (dto : CastVoteDto) (support : Bool) (reason : Option Text) (s : Store)
    (p : Proposal)
    → find_by_id dto.proposal_id s.proposals ≡ some p
    → p.status ≡ active
    → (p.voting_start_time ≤ env.now) × (env.now ≤ p.voting_end_time)
    → find_where (is_ballot dto.proposal_id dto.voter) s.votes ≡ none
    → find_by_id (env.new_id 1) s.votes ≡ none
    → (env.write 2 ≡ true) × (env.write 3 ≡ false)
    → let (r, s') = vote env dto s in
      (r ≡ err db_failure)
      × (s'.proposals ≡ s.proposals)
      × (count (is_ballot dto.proposal_id dto.voter) s'.votes ≡ 1)
      × (is_ok (vote env' (record dto { support = support; reason = reason }) s').0 ≡ false)
unfolding vote cast activate new_vote
vote_lost env env' dto support reason s p found status window none_yet fresh writes =
    let v = new_vote env dto.proposal_id dto.voter (type_of dto.support) dto.reason in
    let p = is_ballot dto.proposal_id dto.voter in
    let s' : Store = record s { votes = save_row v s.votes } in
    let result : vote env dto s ≡ (err db_failure, s') = ground arith in
    let once : count p s'.votes ≡ 1 =
      ground
        (arith, count-find_where-none p s.votes none_yet, count-save_fresh p v s.votes fresh) in
    let there : find_where p s'.votes ≢ none =
      λ e. omega (arith, once, count-find_where-none p s'.votes e) in
    rw result (
      refl,
      refl,
      once,
      voted_refused env' (record dto { support = support; reason = reason }) s' there,
    )
