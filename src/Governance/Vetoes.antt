-- ===== src/Governance/Vetoes.antt =====
-- What becomes of a vetoed proposal.
use stellar_split.Prelude.{
  ℕ, ◌≡◌, refl, ap, ◌≢◌, ◌⊎◌, inl, inr, Option, none, some, List, arith, ◌==◌, select, find_by_id,
  save_row,
}
use stellar_split.Entities.{Text}
use stellar_split.Governance.Entity.{
  ProposalStatus, active, vetoed, Proposal, proposal_keyed, VoteType, for_, against, abstain,
  vote_keyed, action_keyed, config_keyed, CreateProposalDto, CastVoteDto, CastVoteWithTypeDto,
}
use stellar_split.Governance.Store.{Store, Env, config_of, get_active_config, get_voting_power}
use stellar_split.Prelude.{Option-cases, Bool-cases, find-key, find-save}
use stellar_split.Governance.Proposing.{create_proposal, new_proposal}
use stellar_split.Governance.Voting.{activate, count_vote, cast, vote, vote_with_type, type_of}
use stellar_split.Governance.Executing.{
  finalize_proposal, execute_proposal, veto_proposal, mark_finalized, mark_executed, mark_vetoed,
  finalize_if_active, carry_out,
}
use stellar_split.Governance.Service.{Call, perform}
use stellar_split.Governance.Tallies.{execute_actions_keeps, create_actions_keeps}
use stellar_split.Governance.Ballots.{activate_outcomes}
use stellar_split.Governance.Outcomes.{status_at}

abbrev status_in : ℕ → List Proposal → Option ProposalStatus
status_in j ps = elim (find_by_id j ps) [ none ↦ none | some p ↦ some p.status ]

-- Writing over another proposal, or over this one with a vetoed one.
saved_keeps_veto :
    (j : ℕ) (ps : List Proposal) (q : Proposal)
    → status_in j ps ≡ some vetoed
    → (q.id ≢ j) ⊎ (q.status ≡ vetoed)
    → status_in j (save_row q ps) ≡ some vetoed
saved_keeps_veto j ps q h g = rw (find-save, status_in) (ground arith)

found_vetoed :
    (i j : ℕ) (ps : List Proposal) (p : Proposal)
    → find_by_id i ps ≡ some p
    → status_in j ps ≡ some vetoed
    → (p.id ≢ j) ⊎ (p.status ≡ vetoed)
found_vetoed i j ps p found h = elim (Bool-cases (i == j)) [
  | inl same ↦ inr (ground arith)
  | inr other ↦ inl (ground (arith, find-key i ps {a = p} found))
]

module _ (env : Env) (s : Store) (j : ℕ) (h : status_in j s.proposals ≡ some vetoed) where
  cast_keeps_veto :
      (p : Proposal) (k v : ℕ) (t : VoteType) (r : Option Text)
      → (p.id ≢ j) ⊎ (p.status ≡ vetoed)
      → status_in j (cast env p k v t r s).1.proposals ≡ some vetoed
  unfolding cast
  cast_keeps_veto p k v for_ r g =
      ground (arith, saved_keeps_veto j s.proposals (count_vote for_ (get_voting_power v) p))
  cast_keeps_veto p k v against r g =
      ground (arith, saved_keeps_veto j s.proposals (count_vote against (get_voting_power v) p))
  cast_keeps_veto p k v abstain r g =
      ground (arith, saved_keeps_veto j s.proposals (count_vote abstain (get_voting_power v) p))

  vote_with_type_keeps_veto :
      (dto : CastVoteWithTypeDto) → status_in j (vote_with_type env dto s).1.proposals ≡ some vetoed
  unfolding vote_with_type
  vote_with_type_keeps_veto dto = elim (Option-cases (find_by_id dto.proposal_id s.proposals)) [
    | inl e ↦ ground arith
    | inr (p, e) ↦ ground (
      arith,
      found_vetoed dto.proposal_id j s.proposals p e h,
      cast_keeps_veto p dto.proposal_id dto.voter dto.vote_type dto.reason,
    )
  ]

  veto_proposal_keeps_veto :
      (i vetoer : ℕ) (reason : Text)
      → status_in j (veto_proposal env i vetoer reason s).1.proposals ≡ some vetoed
  unfolding veto_proposal
  veto_proposal_keeps_veto i vetoer reason = elim (Option-cases (find_by_id i s.proposals)) [
    | inl e ↦ ground arith
    | inr (p, e) ↦
        ground (arith, saved_keeps_veto j s.proposals (mark_vetoed vetoer reason p) h (inr refl))
  ]

  finalize_proposal_keeps_veto :
      (i : ℕ) → i ≢ j → status_in j (finalize_proposal env i s).1.proposals ≡ some vetoed
  unfolding finalize_proposal
  finalize_proposal_keeps_veto i ne = elim (Option-cases (find_by_id i s.proposals)) [
    | inl e ↦ ground arith
    | inr (p, e) ↦ ground (
      arith,
      find-key i s.proposals {a = p} e,
      saved_keeps_veto j s.proposals (mark_finalized env (config_of env s) p),
    )
  ]

  carry_out_keeps_veto : (i : ℕ) → status_in j (carry_out env i s).1.proposals ≡ some vetoed
  unfolding carry_out
  carry_out_keeps_veto i = elim (Option-cases (find_by_id i s.proposals)) [
    | inl e ↦ ground arith
    | inr (q, e) ↦ ground (
      arith,
      found_vetoed i j s.proposals q e h,
      execute_actions_keeps env 3 (select (λ a. a.proposal_id == i) s.actions) s,
      saved_keeps_veto j s.proposals (mark_executed env q) h,
    )
  ]

  activate_keeps_veto :
      (p : Proposal)
      → (p.id ≢ j) ⊎ (p.status ≡ vetoed)
      → status_in j (activate env p s).1.proposals ≡ some vetoed
  unfolding activate
  activate_keeps_veto p g =
      ground (arith, saved_keeps_veto j s.proposals (record p { status = active }) h)

  create_proposal_keeps_veto :
      (dto : CreateProposalDto)
      → env.new_id 1 ≢ j
      → status_in j (create_proposal env dto s).1.proposals ≡ some vetoed
  unfolding create_proposal
  create_proposal_keeps_veto dto ne =
      let sc : Store = (get_active_config env s).1 in
      let p = new_proposal env (config_of env s) dto in
      let sp : Store = record sc { proposals = save_row p sc.proposals } in
      ground (
        arith,
        saved_keeps_veto j s.proposals p h (inl ne),
        create_actions_keeps env (env.new_id 1) 2 dto.actions sp,
      )

vote_keeps_veto :
    (env : Env) (s : Store) (j : ℕ) (dto : CastVoteDto)
    → status_in j s.proposals ≡ some vetoed
    → status_in j (vote env dto s).1.proposals ≡ some vetoed
unfolding vote
vote_keeps_veto env s j dto h = elim (Option-cases (find_by_id dto.proposal_id s.proposals)) [
  | inl e ↦ ground arith
  | inr (p, e) ↦
      let p' : Proposal = record p { status = active } in
      let s' : Store = record s { proposals = save_row p' s.proposals } in
      let t = type_of dto.support in
      ground (
        arith,
        found_vetoed dto.proposal_id j s.proposals p e h,
        activate_outcomes env p s,
        saved_keeps_veto j s.proposals p' h,
        cast_keeps_veto env s j h p dto.proposal_id dto.voter t dto.reason,
        λ (k : status_in j s'.proposals ≡ some vetoed).
            cast_keeps_veto env s' j k p' dto.proposal_id dto.voter t dto.reason,
      )
]

finalize_if_active_keeps_veto :
    (env : Env) (s : Store) (j : ℕ) (p : Proposal)
    → status_in j s.proposals ≡ some vetoed
    → (p.id ≢ j) ⊎ (p.status ≡ vetoed)
    → status_in j (finalize_if_active env p s).1.proposals ≡ some vetoed
unfolding finalize_if_active
finalize_if_active_keeps_veto env s j p h g =
    ground (arith, finalize_proposal_keeps_veto env s j h p.id)

execute_proposal_keeps_veto :
    (env : Env) (s : Store) (j i : ℕ)
    → status_in j s.proposals ≡ some vetoed
    → status_in j (execute_proposal env i s).1.proposals ≡ some vetoed
unfolding execute_proposal
execute_proposal_keeps_veto env s j i h = elim (Option-cases (find_by_id i s.proposals)) [
  | inl e ↦ ground arith
  | inr (p, e) ↦
      let sc : Store = (get_active_config env s).1 in
      let hc : status_in j sc.proposals ≡ some vetoed = unfold get_active_config in ground arith in
      let sf : Store = (finalize_if_active env p sc).1 in
      let hf = finalize_if_active_keeps_veto env sc j p hc (found_vetoed i j s.proposals p e h) in
      ground (arith, hc, hf, carry_out_keeps_veto env sf j hf i)
]

-- A vetoed proposal stays vetoed under every call but its own finalization, whatever the outcome. The
-- database's new identifier must be unused.
pub perform_keeps_veto :
    (env : Env) (c : Call) (s : Store) (j : ℕ)
    → status_at j s ≡ some vetoed
    → c ≢ Call.finalize j
    → env.new_id 1 ≢ j
    → status_at j (perform env c s).1 ≡ some vetoed
unfolding perform
perform_keeps_veto env (Call.create dto) s j h other fresh =
    create_proposal_keeps_veto env s j h dto fresh
perform_keeps_veto env (Call.cast dto) s j h other fresh = vote_keeps_veto env s j dto h
perform_keeps_veto env (Call.cast_typed dto) s j h other fresh =
    vote_with_type_keeps_veto env s j h dto
perform_keeps_veto env (Call.execute i) s j h other fresh = execute_proposal_keeps_veto env s j i h
perform_keeps_veto env (Call.veto i vetoer reason) s j h other fresh =
    veto_proposal_keeps_veto env s j h i vetoer reason
perform_keeps_veto env (Call.finalize i) s j h other fresh =
    finalize_proposal_keeps_veto env s j h i (λ e. other (ap Call.finalize e))
