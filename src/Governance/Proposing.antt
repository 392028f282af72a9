-- ===== src/Governance/Proposing.antt =====
-- `createProposal` of backend/src/governance/governance.service.ts.
use stellar_split.Prelude.{
  ℕ, ◌+◌, ◌*◌, false, Option, none, some, List, [], ◌∷◌, ltb, ◌==◌, if◌then◌else◌, bad_request, ok,
  Action, throw_if, ◌>>=◌, ◌>>◌,
}
use stellar_split.Governance.Entity.{
  pending, Proposal, proposal_keyed, vote_keyed, ProposalActionDto, action_keyed, GovernanceConfig,
  config_keyed, CreateProposalDto,
}
use stellar_split.Governance.Store.{
  Event, Store, Env, get_proposal, save_proposal, save_action, emit, get_active_config,
  get_voting_power, get_total_voting_power,
}

-- `dto.quorumPercentage || config.quorumPercentage`.
abbrev pub quorum_of : Option ℕ → ℕ → ℕ
quorum_of none d = d
quorum_of (some q) d = if q == 0 then d else q

unfoldable pub new_proposal : Env → GovernanceConfig → CreateProposalDto → Proposal
unfolding get_total_voting_power
new_proposal env config dto =
    let start = env.now + 60_000 in
    record {
      id = env.new_id 1;
      proposer = dto.proposer;
      description = dto.description;
      status = pending;
      votes_for = 0;
      votes_against = 0;
      votes_abstain = 0;
      voting_start_time = start;
      voting_end_time = start + config.voting_period * 1000;
      execution_time = none;
      executed_at = none;
      vetoed_by = none;
      veto_reason = none;
      quorum_percentage = quorum_of dto.quorum_percentage config.quorum_percentage;
      total_voting_power = get_total_voting_power;
    }

-- The loop over the actions; row and write n are the next ones.
unfoldable pub create_actions : Env → ℕ → ℕ → List ProposalActionDto → Action Store (Unit {0})
unfolding save_action
create_actions env i n [] s = (ok tt, s)
create_actions env i n (a ∷ rest) s =
    ◌>>◌
      (save_action env n
        (record { id = env.new_id n; proposal_id = i; body = a; executed = false }))
      (create_actions env i (n + 1) rest) s

unfoldable pub create_proposal : Env → CreateProposalDto → Action Store Proposal
unfolding get_active_config get_voting_power get_proposal save_proposal new_proposal emit
create_proposal env dto = do
  config ← get_active_config env
  throw_if (ltb (get_voting_power dto.proposer) config.proposal_threshold) bad_request
  save_proposal env 1 (new_proposal env config dto)
  create_actions env (env.new_id 1) 2 dto.actions
  emit (Event.proposal_created (env.new_id 1) dto.proposer)
  get_proposal (env.new_id 1)
