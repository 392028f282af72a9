-- ===== src/Governance/Executing.antt =====
-- `finalizeProposal`, `executeProposal` and `vetoProposal` of
-- backend/src/governance/governance.service.ts.
use stellar_split.Prelude.{
  ℕ, ◌+◌, ◌*◌, Bool, true, false, not, Option, none, some, List, [], ◌∷◌, ltb, leb, ◌==◌,
  if◌then◌else◌, select, bad_request, forbidden, ok, Action, return, gets, throw_if, ◌>>=◌, ◌>>◌,
}
use stellar_split.Entities.{Text}
use stellar_split.Governance.Entity.{
  active, defeated, queued, executed, vetoed, same_status, Proposal, proposal_keyed, vote_keyed,
  ProposalAction, action_keyed, GovernanceConfig, config_keyed,
}
use stellar_split.Governance.Store.{
  Event, Store, Env, get_proposal, save_proposal, save_action, emit, get_active_config,
}

abbrev pub total_votes : Proposal → ℕ
total_votes p = p.votes_for + p.votes_against + p.votes_abstain

unfoldable pub quorum_reached : Proposal → Bool
quorum_reached p = leb (p.total_voting_power * p.quorum_percentage) (total_votes p * 100)

-- The outcome of the vote, with the time from which the proposal can be executed.
unfoldable pub mark_finalized : Env → GovernanceConfig → Proposal → Proposal
unfolding quorum_reached
mark_finalized env config p =
    if not (quorum_reached p)
    then record p { status = defeated }
    else if ltb p.votes_against p.votes_for
    then record p {
      status = queued;
      execution_time = some (env.now + config.timelock_delay * 1000);
    }
    else record p { status = defeated }

unfoldable pub finalize_proposal : Env → ℕ → Action Store (Unit {0})
unfolding get_proposal get_active_config mark_finalized save_proposal emit
finalize_proposal env i = do
  p ← get_proposal i
  config ← get_active_config env
  throw_if (ltb env.now p.voting_end_time) bad_request
  save_proposal env 1 (mark_finalized env config p)
  emit (Event.proposal_finalized i (mark_finalized env config p).status)

-- `now < executionTime`, which is false without an execution time.
abbrev pub is_timelocked : ℕ → Option ℕ → Bool
is_timelocked now none = false
is_timelocked now (some t) = ltb now t

-- The loop over the actions: an event and a save for each.
unfoldable pub execute_actions : Env → ℕ → List ProposalAction → Action Store (Unit {0})
unfolding save_action emit
execute_actions env n [] s = (ok tt, s)
execute_actions env n (a ∷ rest) s =
    ◌>>◌
      (emit (Event.action_executed a.id a.body) >> save_action env n (record a { executed = true }))
      (execute_actions env (n + 1) rest) s

-- An active proposal is finalized first.
unfoldable pub finalize_if_active : Env → Proposal → Action Store (Unit {0})
finalize_if_active env p =
    if same_status p.status active then finalize_proposal env p.id else return tt

unfoldable pub mark_executed : Env → Proposal → Proposal
mark_executed env p = record p { status = executed; executed_at = some env.now }

-- From the reload of the proposal on.
unfoldable pub carry_out : Env → ℕ → Action Store (Unit {0})
unfolding get_proposal mark_executed save_proposal emit
carry_out env i = do
  q ← get_proposal i
  throw_if (not (same_status q.status queued)) bad_request
  throw_if (is_timelocked env.now q.execution_time) bad_request
  actions ← gets (λ s. select (λ a. a.proposal_id == i) s.actions)
  execute_actions env 3 actions
  save_proposal env 2 (mark_executed env q)
  emit (Event.proposal_executed i env.now)

unfoldable pub execute_proposal : Env → ℕ → Action Store (Unit {0})
unfolding get_proposal get_active_config
execute_proposal env i = do
  p ← get_proposal i
  config ← get_active_config env
  throw_if (ltb env.now p.voting_end_time) bad_request
  finalize_if_active env p
  carry_out env i

-- `list.includes(address)`.
abbrev pub includes : List ℕ → ℕ → Bool
includes [] a = false
includes (x ∷ xs) a = if x == a then true else includes xs a

unfoldable pub mark_vetoed : ℕ → Text → Proposal → Proposal
mark_vetoed vetoer reason p = record p {
  status = vetoed;
  vetoed_by = some vetoer;
  veto_reason = some reason;
}

unfoldable pub veto_proposal : Env → ℕ → ℕ → Text → Action Store (Unit {0})
unfolding get_proposal get_active_config mark_vetoed save_proposal emit
veto_proposal env i vetoer reason = do
  p ← get_proposal i
  config ← get_active_config env
  throw_if (not (includes config.veto_addresses vetoer)) forbidden
  throw_if (same_status p.status executed) bad_request
  save_proposal env 1 (mark_vetoed vetoer reason p)
  emit (Event.proposal_vetoed i vetoer reason)
