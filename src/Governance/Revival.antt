-- ===== src/Governance/Revival.antt =====
-- A veto that is undone.
use stellar_split.Prelude.{
  ℕ, ◌+◌, ◌*◌, ◌≤◌, ◌≡◌, refl, true, false, some, List, [], ◌∷◌, ◌++◌, arith, ◌==◌, select,
  find_by_id, save_row, ok, is_ok,
}
use stellar_split.Governance.Entity.{
  queued, executed, vetoed, Proposal, proposal_keyed, vote_keyed, ProposalAction, action_keyed,
  config_keyed,
}
use stellar_split.Governance.Store.{Event, Store, Env, config_of, get_active_config}
use stellar_split.Governance.Executing.{
  is_timelocked, finalize_proposal, execute_proposal, mark_finalized, execute_actions,
  finalize_if_active, carry_out,
}
use stellar_split.Governance.Outcomes.{
  Passes, status_at, finalize_proposal_row, finalize_proposal_iff,
}
use stellar_split.Governance.Timelock.{execute_proposal_needs}

execute_actions_ok :
    (env : Env) (n : ℕ) (rest : List ProposalAction) (s : Store)
    → ((m : ℕ) → env.write m ≡ true)
    → (execute_actions env n rest s).0 ≡ ok tt
unfolding execute_actions
execute_actions_ok env n [] s writes = refl
execute_actions_ok env n (a ∷ rest) s writes =
    let s' : Store = record s { events = s.events ++ (Event.action_executed a.id a.body ∷ []) } in
    let s'' : Store = record s' { actions = save_row (record a { executed = true }) s.actions } in
    ground (arith, writes n, execute_actions_ok env (n + 1) rest s'' writes)

-- A queued proposal whose timelock has run out is executed.
queued_executes :
    (env : Env) (i : ℕ) (s : Store) (q : Proposal)
    → find_by_id i s.proposals ≡ some q
    → q.status ≡ queued
    → is_timelocked env.now q.execution_time ≡ false
    → q.voting_end_time ≤ env.now
    → ((m : ℕ) → env.write m ≡ true)
    → is_ok (execute_proposal env i s).0 ≡ true
unfolding execute_proposal carry_out finalize_if_active
queued_executes env i s q found status open_now over writes =
    let sc : Store = (get_active_config env s).1 in
    let sc_same : sc.proposals ≡ s.proposals = unfold get_active_config in ground arith in
    ground (
      arith,
      writes 0,
      writes 2,
      sc_same,
      execute_actions_ok env 3 (select (λ a. a.proposal_id == i) sc.actions) sc writes,
    )

-- A veto does not last: anybody may finalize the vetoed proposal once its voting time is over, and if
-- the votes on it make it pass, it is queued by that and executed after the timelock.
pub vetoed_revived :
    (env env' : Env) (i : ℕ) (s : Store) (p : Proposal)
    → find_by_id i s.proposals ≡ some p
    → p.status ≡ vetoed
    → Passes p
    → p.voting_end_time ≤ env.now
    → env.now + (config_of env s).timelock_delay * 1000 ≤ env'.now
    → ((m : ℕ) → env.write m ≡ true)
    → ((m : ℕ) → env'.write m ≡ true)
    → let s' = (finalize_proposal env i s).1 in
      (is_ok (finalize_proposal env i s).0 ≡ true)
      × (is_ok (execute_proposal env' i s').0 ≡ true)
      × (status_at i (execute_proposal env' i s').1 ≡ some executed)
unfolding mark_finalized
vetoed_revived env env' i s p found status passes over later writes writes' =
    let finalized = (finalize_proposal_iff env i s p found (writes 0)).1 (over, writes 1) in
    let q : Proposal = mark_finalized env (config_of env s) p in
    let s' : Store = (finalize_proposal env i s).1 in
    let row = finalize_proposal_row env i s p found finalized in
    let done =
      queued_executes env' i s' q row (ground arith) (ground arith) (ground arith) writes' in
    (finalized, done, (execute_proposal_needs env' i s' q row done).1)
