-- ===== src/Governance/Outcomes.antt =====
-- The outcome of a vote against quorum and majority.
use stellar_split.Prelude.{
  ℕ, ◌+◌, ◌*◌, ◌≤◌, ◌<◌, ◌≡◌, ◌↔◌, true, ◌&&◌, Option, none, some, arith, ltb, leb, if◌then◌else◌,
  find_by_id, is_ok,
}
use stellar_split.Governance.Entity.{
  ProposalStatus, defeated, queued, Proposal, proposal_keyed, vote_keyed, action_keyed,
  config_keyed,
}
use stellar_split.Governance.Store.{Store, Env, config_of}
use stellar_split.Prelude.{find-key, find-save}
use stellar_split.Governance.Executing.{total_votes, finalize_proposal, mark_finalized}

-- What the members asked for: the quorum is reached and more power is for the proposal than against it.
abbrev pub Passes : Proposal → Type 0
Passes p =
    (p.quorum_percentage * p.total_voting_power
      ≤ 100 * (p.votes_for + p.votes_against + p.votes_abstain))
    × (p.votes_against < p.votes_for)

abbrev pub status_at : ℕ → Store → Option ProposalStatus
status_at i s = elim (find_by_id i s.proposals) [ none ↦ none | some p ↦ some p.status ]

abbrev pub execution_time_at : ℕ → Store → Option ℕ
execution_time_at i s = elim (find_by_id i s.proposals) [ none ↦ none | some p ↦ p.execution_time ]

-- Finalizing a proposal that is found goes through exactly when its voting time is over and the
-- database takes the write; the default configuration may have to be written before.
pub finalize_proposal_iff :
    (env : Env) (i : ℕ) (s : Store) (p : Proposal)
    → find_by_id i s.proposals ≡ some p
    → env.write 0 ≡ true
    → (is_ok (finalize_proposal env i s).0 ≡ true)
      ↔ ((p.voting_end_time ≤ env.now) × (env.write 1 ≡ true))
unfolding finalize_proposal
finalize_proposal_iff env i s p found w = (λ h. ground arith, λ h. ground arith)

-- The row that a finalization leaves.
pub finalize_proposal_row :
    (env : Env) (i : ℕ) (s : Store) (p : Proposal)
    → find_by_id i s.proposals ≡ some p
    → is_ok (finalize_proposal env i s).0 ≡ true
    → find_by_id i (finalize_proposal env i s).1.proposals
      ≡ some (mark_finalized env (config_of env s) p)
unfolding finalize_proposal
finalize_proposal_row env i s p found done = ground (
  arith,
  find-key i s.proposals {a = p} found,
  find-save i (mark_finalized env (config_of env s) p) s.proposals,
)

-- After a finalization the proposal is queued exactly when the quorum was reached and the majority was
-- for it, and defeated exactly when not. Queued, it can be executed after the timelock; defeated, its
-- execution time is as before.
pub finalize_proposal_outcome :
    (env : Env) (i : ℕ) (s : Store) (p : Proposal)
    → find_by_id i s.proposals ≡ some p
    → is_ok (finalize_proposal env i s).0 ≡ true
    → let s' = (finalize_proposal env i s).1 in
      ((status_at i s' ≡ some queued) ↔ Passes p)
      × ((status_at i s' ≡ some defeated) ↔ (¬ Passes p))
      × (execution_time_at i s' ≡ (
          if leb (p.quorum_percentage * p.total_voting_power) (100 * total_votes p)
            && ltb p.votes_against p.votes_for
          then some (env.now + (config_of env s).timelock_delay * 1000)
          else p.execution_time))
unfolding mark_finalized
finalize_proposal_outcome env i s p found done =
    rw (finalize_proposal_row env i s p found done, status_at, execution_time_at)
      (
        (λ h. ground arith, λ h. ground arith),
        (λ h k. ground arith, λ h. ground arith),
        ground arith,
      )
