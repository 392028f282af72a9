-- ===== src/Governance/Examples.antt =====
-- The theorems on proposals at concrete stores, and a run of the service.
use stellar_split.Prelude.{
  ℕ, ◌+◌, ◌≤◌, ◌≡◌, refl, ◌↔◌, ◌⊎◌, true, false, not, Option, none, some, List, [], ◌∷◌, arith,
  ◌==◌, find_where, find_by_id, save_row, is_ok,
}
use stellar_split.Governance.Entity.{
  ProposalStatus, active, defeated, queued, executed, vetoed, Proposal, proposal_keyed, for_,
  against, Vote, vote_keyed, ActionType, ProposalAction, action_keyed, GovernanceConfig,
  config_keyed, CastVoteDto,
}
use stellar_split.Governance.Store.{Store, Env, config_of}
use stellar_split.Governance.Executing.{
  is_timelocked, finalize_proposal, execute_proposal, execute_actions, finalize_if_active,
  carry_out,
}
use stellar_split.Governance.Service.{Call, perform}
use stellar_split.Governance.Counts.{Tallied}
use stellar_split.Governance.Tallies.{TalliesMatch, perform-TalliesMatch}
use stellar_split.Governance.Ballots.{BallotsUnique, perform-BallotsUnique}
use stellar_split.Governance.Outcomes.{
  Passes, status_at, execution_time_at, finalize_proposal_outcome,
}
use stellar_split.Governance.Timelock.{execute_proposal_needs}
use stellar_split.Governance.Vetoes.{perform_keeps_veto}
use stellar_split.Governance.Revival.{vetoed_revived}

abbrev env_at : ℕ → Env
env_at t = record { now = t; new_id = λ n. 100 + n; write = λ n. true }

-- The write of the count fails.
abbrev env_down : Env
env_down = record { now = 50; new_id = λ n. 100 + n; write = λ n. not (n == 3) }

abbrev config : GovernanceConfig
config = record {
  id = 1;
  quorum_percentage = 51;
  voting_period = 10;
  timelock_delay = 2;
  proposal_lifetime = 100;
  proposal_threshold = 1;
  veto_addresses = 8 ∷ [];
  is_active = true;
}

abbrev proposal_in : ProposalStatus → Option ℕ → Proposal
proposal_in status execution = record {
  id = 3;
  proposer = 20;
  description = 112 ∷ [];
  status = status;
  votes_for = 60;
  votes_against = 10;
  votes_abstain = 0;
  voting_start_time = 10;
  voting_end_time = 100;
  execution_time = execution;
  executed_at = none;
  vetoed_by = none;
  veto_reason = none;
  quorum_percentage = 51;
  total_voting_power = 100;
}

abbrev ballots : List Vote
ballots =
    record {
      id = 31;
      proposal_id = 3;
      voter = 40;
      vote_type = for_;
      voting_power = 60;
      reason = none;
    }
    ∷ record {
      id = 32;
      proposal_id = 3;
      voter = 41;
      vote_type = against;
      voting_power = 10;
      reason = none;
    }
    ∷ []

abbrev action : ProposalAction
action = record {
  id = 51;
  proposal_id = 3;
  body = record {
    action_type = ActionType.add_member;
    target = 109 ∷ [];
    parameters = [];
    calldata = none;
  };
  executed = false;
}

abbrev store_in : ProposalStatus → Option ℕ → Store
store_in status execution = record {
  proposals = proposal_in status execution ∷ [];
  votes = ballots;
  actions = action ∷ [];
  configs = config ∷ [];
  events = [];
}

abbrev ballot : CastVoteDto
ballot = record { proposal_id = 3; voter = 42; support = true; reason = none }

store-TalliesMatch : TalliesMatch (store_in active none)
unfolding find_by_id
store-TalliesMatch j = ground arith

store-BallotsUnique : BallotsUnique (store_in active none)
store-BallotsUnique i voter = ground arith

executes :
    status_at 3 (execute_proposal (env_at 200) 3 (store_in queued (some 150))).1 ≡ some executed
unfolding execute_proposal finalize_if_active carry_out execute_actions find_by_id find_where
    save_row
executes = refl

perform-TalliesMatch_example :
    let s' = (perform (env_at 50) (Call.cast ballot) (store_in active none)).1 in
    Tallied s'.votes (find_by_id 3 s'.proposals)
unfolding find_by_id
perform-TalliesMatch_example =
    perform-TalliesMatch (env_at 50) (Call.cast ballot) (store_in active none) 3 store-TalliesMatch
      (λ n. refl) refl (λ t. refl)

perform-BallotsUnique_example :
    BallotsUnique (perform (env_at 50) (Call.cast ballot) (store_in active none)).1
unfolding find_by_id
perform-BallotsUnique_example =
    perform-BallotsUnique (env_at 50) (Call.cast ballot) (store_in active none) store-BallotsUnique
      refl

finalize_proposal_outcome_example :
    let s' = (finalize_proposal (env_at 100) 3 (store_in active none)).1 in
    ((status_at 3 s' ≡ some queued) ↔ Passes (proposal_in active none))
    × ((status_at 3 s' ≡ some defeated) ↔ (¬ Passes (proposal_in active none)))
    × (execution_time_at 3 s' ≡ some 2100)
unfolding finalize_proposal find_by_id find_where save_row
finalize_proposal_outcome_example =
    finalize_proposal_outcome (env_at 100) 3 (store_in active none) (proposal_in active none) refl
      refl

execute_proposal_needs_example :
    let s = store_in queued (some 150) in
    (100 ≤ 200)
    × (status_at 3 (execute_proposal (env_at 200) 3 s).1 ≡ some executed)
    × (((queued ≡ queued) × (is_timelocked 200 (some 150) ≡ false))
        ⊎ ((queued ≡ active)
            × Passes (proposal_in queued (some 150))
            × ((config_of (env_at 200) s).timelock_delay ≡ 0)))
unfolding execute_proposal finalize_if_active carry_out execute_actions find_by_id find_where
    save_row
execute_proposal_needs_example =
    execute_proposal_needs (env_at 200) 3 (store_in queued (some 150))
      (proposal_in queued (some 150)) refl refl

perform_keeps_veto_example :
    status_at 3 (perform (env_at 200) (Call.execute 3) (store_in vetoed none)).1 ≡ some vetoed
unfolding find_by_id
perform_keeps_veto_example =
    perform_keeps_veto (env_at 200) (Call.execute 3) (store_in vetoed none) 3 refl (λ e. cc)
      (omega arith)

vetoed_revived_example :
    let s = store_in vetoed none in
    let s' = (finalize_proposal (env_at 100) 3 s).1 in
    (is_ok (finalize_proposal (env_at 100) 3 s).0 ≡ true)
    × (is_ok (execute_proposal (env_at 2100) 3 s').0 ≡ true)
    × (status_at 3 (execute_proposal (env_at 2100) 3 s').1 ≡ some executed)
unfolding find_by_id find_where
vetoed_revived_example =
    vetoed_revived (env_at 100) (env_at 2100) 3 (store_in vetoed none) (proposal_in vetoed none)
      refl refl (omega arith) (omega arith) (omega arith) (λ m. refl) (λ m. refl)
