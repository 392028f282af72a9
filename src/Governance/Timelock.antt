-- ===== src/Governance/Timelock.antt =====
-- When a proposal is executed.
use stellar_split.Prelude.{
  ℕ, ◌≤◌, ◌≡◌, ◌⊎◌, inl, inr, true, false, some, arith, ◌==◌, select, find_where, find_by_id, ok,
  is_ok,
}
use stellar_split.Governance.Entity.{
  active, queued, executed, same_status, Proposal, proposal_keyed, vote_keyed, action_keyed,
  GovernanceConfig, config_keyed,
}
use stellar_split.Governance.Store.{Store, Env, config_of, get_active_config, default_config}
use stellar_split.Prelude.{Option-cases, Bool-cases, find-key, find-save, find_where-save}
use stellar_split.Governance.Executing.{
  is_timelocked, finalize_proposal, execute_proposal, mark_finalized, mark_executed,
  finalize_if_active, carry_out,
}
use stellar_split.Governance.Tallies.{execute_actions_keeps}
use stellar_split.Governance.Outcomes.{Passes, status_at, finalize_proposal_row}

-- The part of an execution from the reload on goes through only for a queued proposal whose timelock has
-- run out, and leaves it executed.
pub carry_out_needs :
    (env : Env) (i : ℕ) (s : Store) (q : Proposal)
    → find_by_id i s.proposals ≡ some q
    → is_ok (carry_out env i s).0 ≡ true
    → (q.status ≡ queued)
      × (is_timelocked env.now q.execution_time ≡ false)
      × (status_at i (carry_out env i s).1 ≡ some executed)
unfolding carry_out
carry_out_needs env i s q found done =
    let rest = select (λ a. a.proposal_id == i) s.actions in
    ground (
      arith,
      find-key i s.proposals {a = q} found,
      execute_actions_keeps env 3 rest s,
      find-save i (mark_executed env q) s.proposals,
    )

-- Asking for the configuration twice gives the same one, and touches no proposal.
pub get_active_config_lem :
    (env : Env) (s : Store)
    → is_ok (get_active_config env s).0 ≡ true
    → ((get_active_config env s).0 ≡ ok (config_of env s))
      × (config_of env (get_active_config env s).1 ≡ config_of env s)
      × ((get_active_config env s).1.proposals ≡ s.proposals)
      × ((get_active_config env s).1.actions ≡ s.actions)
unfolding get_active_config default_config
get_active_config_lem env s done = elim (Option-cases (find_where (λ c. c.is_active) s.configs)) [
  | inl e ↦ ground (
    arith,
    find_where-save (λ (c : GovernanceConfig). c.is_active) (default_config (env.new_id 0))
        s.configs,
  )
  | inr (c, e) ↦ ground arith
]

-- An execution that goes through, step by step.
execute_proposal_steps :
    (env : Env) (i : ℕ) (s : Store) (p : Proposal)
    → find_by_id i s.proposals ≡ some p
    → is_ok (execute_proposal env i s).0 ≡ true
    → let sc = (get_active_config env s).1 in
      let sf = (finalize_if_active env p sc).1 in
      (is_ok (get_active_config env s).0 ≡ true)
      × (p.voting_end_time ≤ env.now)
      × (is_ok (finalize_if_active env p sc).0 ≡ true)
      × (is_ok (carry_out env i sf).0 ≡ true)
      × ((execute_proposal env i s).1 ≡ (carry_out env i sf).1)
unfolding execute_proposal
execute_proposal_steps env i s p found done = ground arith

-- Queued by this very call, a proposal is past its timelock only if there is none.
mark_finalized_now :
    (env : Env) (c : GovernanceConfig) (p : Proposal)
    → (mark_finalized env c p).status ≡ queued
    → is_timelocked env.now (mark_finalized env c p).execution_time ≡ false
    → Passes p × (c.timelock_delay ≡ 0)
unfolding mark_finalized
mark_finalized_now env c p h k = ground arith

-- A proposal is executed only after its voting time, and either it was queued and its timelock has run
-- out, or it was active, passes and the configuration has no timelock. It is executed afterwards.
pub execute_proposal_needs :
    (env : Env) (i : ℕ) (s : Store) (p : Proposal)
    → find_by_id i s.proposals ≡ some p
    → is_ok (execute_proposal env i s).0 ≡ true
    → (p.voting_end_time ≤ env.now)
      × (status_at i (execute_proposal env i s).1 ≡ some executed)
      × (((p.status ≡ queued) × (is_timelocked env.now p.execution_time ≡ false))
          ⊎ ((p.status ≡ active) × Passes p × ((config_of env s).timelock_delay ≡ 0)))
unfolding finalize_if_active
execute_proposal_needs env i s p found done =
    let sc : Store = (get_active_config env s).1 in
    let (configured, over, finalized, carried, same) =
      execute_proposal_steps env i s p found done in
    let (_, again, ps, _) = get_active_config_lem env s configured in
    let there : find_by_id i sc.proposals ≡ some p = rw ps found in
    let number : p.id ≡ i = find-key i s.proposals {a = p} found in
    rw same (elim (Bool-cases (same_status p.status active)) [
      | inr other ↦
          let stay : finalize_if_active env p sc ≡ (ok tt, sc) = rw other in
          let (q, t, e) = carry_out_needs env i sc p there (rw stay at carried) in
          (over, rw stay e, inl (q, t))
      | inl now_active ↦
          let go : finalize_if_active env p sc ≡ finalize_proposal env i sc =
            rw (now_active, number) in
          let sf : Store = (finalize_proposal env i sc).1 in
          let row = finalize_proposal_row env i sc p there (rw go at finalized) in
          let q : Proposal = mark_finalized env (config_of env sc) p in
          let (queued_now, open_now, e) = carry_out_needs env i sf q row (rw go at carried) in
          let (passes, no_lock) = mark_finalized_now env (config_of env sc) p queued_now open_now in
          (over, rw go e, inr (ground arith, passes, rw (← again) no_lock))
    ])
