-- ===== src/Governance/Tallies.antt =====
-- The counts of a proposal against the votes on record.
use stellar_split.Prelude.{
  ℕ, ◌+◌, ◌≡◌, refl, ◌⊎◌, inl, inr, true, false, Option, none, some, List, [], ◌∷◌, ◌++◌, arith,
  ◌==◌, select, find_by_id, save_row, ok,
}
use stellar_split.Entities.{Text}
use stellar_split.Governance.Entity.{
  active, Proposal, proposal_keyed, VoteType, for_, against, abstain, vote_keyed, ProposalActionDto,
  ProposalAction, action_keyed, config_keyed, CreateProposalDto, CastVoteDto, CastVoteWithTypeDto,
}
use stellar_split.Governance.Store.{Event, Store, Env, config_of, get_active_config}
use stellar_split.Prelude.{Option-cases, find-key}
use stellar_split.Governance.Proposing.{create_proposal, create_actions, new_proposal}
use stellar_split.Governance.Voting.{new_vote, activate, cast, vote, vote_with_type, type_of}
use stellar_split.Governance.Executing.{
  finalize_proposal, execute_proposal, veto_proposal, mark_finalized, mark_executed, mark_vetoed,
  execute_actions, finalize_if_active, carry_out,
}
use stellar_split.Governance.Service.{Call, perform}
use stellar_split.Governance.Counts.{power_for, Tallied, recorded-Tallied, saved-Tallied}

cast-Tallied :
    (env : Env) (p : Proposal) (voter : ℕ) (t : VoteType) (r : Option Text) (s : Store) (j : ℕ)
    → ((n : ℕ) → env.write n ≡ true)
    → find_by_id (env.new_id 1) s.votes ≡ none
    → Tallied s.votes (some p)
    → Tallied s.votes (find_by_id j s.proposals)
    → let s' = (cast env p p.id voter t r s).1 in Tallied s'.votes (find_by_id j s'.proposals)
unfolding cast new_vote
cast-Tallied env p voter t r s j writes fresh tp tj =
    let v = new_vote env p.id voter t r in
    ground (arith, writes 2, writes 3, recorded-Tallied t p v s.votes s.proposals j)

-- Every proposal's counts are the powers on record.
abbrev pub TalliesMatch : Store → Type 0
TalliesMatch s = (j : ℕ) → Tallied s.votes (find_by_id j s.proposals)

found-Tallied :
    (s : Store) (i : ℕ) (p : Proposal)
    → TalliesMatch s
    → find_by_id i s.proposals ≡ some p
    → Tallied s.votes (some p)
found-Tallied s i p h e = rw e at (h i)

-- The proposal stays, or is saved as active.
pub activate-cases :
    (env : Env) (p : Proposal) (s : Store)
    → env.write 1 ≡ true
    → let p' : Proposal = record p { status = active } in
      (activate env p s ≡ (ok p, s))
      ⊎ (activate env p s ≡ (ok p', record s { proposals = save_row p' s.proposals }))
unfolding activate
activate-cases env p s w = ground arith

module _ (env : Env) (s : Store) (j : ℕ) (h : TalliesMatch s) where
  vote-Tallied :
      (dto : CastVoteDto)
      → ((n : ℕ) → env.write n ≡ true)
      → find_by_id (env.new_id 1) s.votes ≡ none
      → let s' = (vote env dto s).1 in Tallied s'.votes (find_by_id j s'.proposals)
  unfolding vote
  vote-Tallied dto writes fresh = elim (Option-cases (find_by_id dto.proposal_id s.proposals)) [
    | inl e ↦ ground (arith, h j)
    | inr (p, e) ↦
        let p' : Proposal = record p { status = active } in
        let s' : Store = record s { proposals = save_row p' s.proposals } in
        let same = find-key dto.proposal_id s.proposals {a = p} e in
        let tp = found-Tallied s dto.proposal_id p h e in
        let tj = saved-Tallied p' s.votes s.proposals j tp (h j) in
        let type = type_of dto.support in
        elim (activate-cases env p s (writes 1)) [
          | inl a ↦
              ground
                (arith, h j, cast-Tallied env p dto.voter type dto.reason s j writes fresh tp (h j))
          | inr a ↦
              ground
                (arith, h j, cast-Tallied env p' dto.voter type dto.reason s' j writes fresh tp tj)
        ]
  ]

  vote_with_type-Tallied :
      (dto : CastVoteWithTypeDto)
      → ((n : ℕ) → env.write n ≡ true)
      → find_by_id (env.new_id 1) s.votes ≡ none
      → let s' = (vote_with_type env dto s).1 in Tallied s'.votes (find_by_id j s'.proposals)
  unfolding vote_with_type
  vote_with_type-Tallied dto writes fresh =
      elim (Option-cases (find_by_id dto.proposal_id s.proposals)) [
        | inl e ↦ ground (arith, h j)
        | inr (p, e) ↦ ground (
          arith,
          h j,
          find-key dto.proposal_id s.proposals {a = p} e,
          found-Tallied s dto.proposal_id p h e,
          cast-Tallied env p dto.voter dto.vote_type dto.reason s j writes fresh,
        )
      ]

  veto_proposal-Tallied :
      (i vetoer : ℕ) (reason : Text)
      → let s' = (veto_proposal env i vetoer reason s).1 in
        Tallied s'.votes (find_by_id j s'.proposals)
  unfolding veto_proposal
  veto_proposal-Tallied i vetoer reason = elim (Option-cases (find_by_id i s.proposals)) [
    | inl e ↦ ground (arith, h j)
    | inr (p, e) ↦ ground (
      arith,
      h j,
      found-Tallied s i p h e,
      saved-Tallied (mark_vetoed vetoer reason p) s.votes s.proposals j,
    )
  ]

  finalize_proposal-Tallied :
      (i : ℕ)
      → let s' = (finalize_proposal env i s).1 in Tallied s'.votes (find_by_id j s'.proposals)
  unfolding finalize_proposal
  finalize_proposal-Tallied i = elim (Option-cases (find_by_id i s.proposals)) [
    | inl e ↦ ground (arith, h j)
    | inr (p, e) ↦ ground (
      arith,
      h j,
      found-Tallied s i p h e,
      saved-Tallied (mark_finalized env (config_of env s) p) s.votes s.proposals j,
    )
  ]

-- The loop over the actions touches actions and events alone.
pub execute_actions_keeps :
    (env : Env) (n : ℕ) (rest : List ProposalAction) (s : Store)
    → let s' = (execute_actions env n rest s).1 in
      (s'.proposals ≡ s.proposals) × (s'.votes ≡ s.votes) × (s'.configs ≡ s.configs)
unfolding execute_actions
execute_actions_keeps env n [] s = (refl, refl, refl)
execute_actions_keeps env n (a ∷ rest) s =
    let s' : Store = record s { events = s.events ++ (Event.action_executed a.id a.body ∷ []) } in
    let s'' : Store = record s' { actions = save_row (record a { executed = true }) s.actions } in
    ground (arith, execute_actions_keeps env (n + 1) rest s'')

pub create_actions_keeps :
    (env : Env) (i n : ℕ) (rest : List ProposalActionDto) (s : Store)
    → let s' = (create_actions env i n rest s).1 in
      (s'.proposals ≡ s.proposals) × (s'.votes ≡ s.votes) × (s'.configs ≡ s.configs)
unfolding create_actions
create_actions_keeps env i n [] s = (refl, refl, refl)
create_actions_keeps env i n (a ∷ rest) s =
    let row : ProposalAction = record {
      id = env.new_id n;
      proposal_id = i;
      body = a;
      executed = false;
    } in
    let s' : Store = record s { actions = save_row row s.actions } in
    ground (arith, create_actions_keeps env i (n + 1) rest s')

carry_out-Tallied :
    (env : Env) (s : Store) (i j : ℕ)
    → TalliesMatch s
    → let s' = (carry_out env i s).1 in Tallied s'.votes (find_by_id j s'.proposals)
unfolding carry_out
carry_out-Tallied env s i j h = elim (Option-cases (find_by_id i s.proposals)) [
  | inl e ↦ ground (arith, h j)
  | inr (q, e) ↦
      let (ps, vs, _) =
        execute_actions_keeps env 3 (select (λ a. a.proposal_id == i) s.actions) s in
      ground (
        arith,
        h j,
        ps,
        vs,
        found-Tallied s i q h e,
        saved-Tallied (mark_executed env q) s.votes s.proposals j,
      )
]

finalize_if_active-Tallied :
    (env : Env) (p : Proposal) (s : Store) (j : ℕ)
    → TalliesMatch s
    → let s' = (finalize_if_active env p s).1 in Tallied s'.votes (find_by_id j s'.proposals)
unfolding finalize_if_active
finalize_if_active-Tallied env p s j h =
    ground (arith, h j, finalize_proposal-Tallied env s j h p.id)

execute_proposal-Tallied :
    (env : Env) (s : Store) (i j : ℕ)
    → TalliesMatch s
    → let s' = (execute_proposal env i s).1 in Tallied s'.votes (find_by_id j s'.proposals)
unfolding execute_proposal
execute_proposal-Tallied env s i j h = elim (Option-cases (find_by_id i s.proposals)) [
  | inl e ↦ ground (arith, h j)
  | inr (p, e) ↦
      let sc : Store = (get_active_config env s).1 in
      let hc : TalliesMatch sc = λ k. unfold get_active_config in ground (arith, h k) in
      let sf : Store = (finalize_if_active env p sc).1 in
      ground (
        arith,
        h j,
        hc j,
        finalize_if_active-Tallied env p sc j hc,
        carry_out-Tallied env sf i j (λ k. finalize_if_active-Tallied env p sc k hc),
      )
]

create_proposal-Tallied :
    (env : Env) (s : Store) (dto : CreateProposalDto) (j : ℕ)
    → TalliesMatch s
    → ((t : VoteType) → power_for (env.new_id 1) t s.votes ≡ 0)
    → let s' = (create_proposal env dto s).1 in Tallied s'.votes (find_by_id j s'.proposals)
unfolding create_proposal
create_proposal-Tallied env s dto j h unused =
    let config = config_of env s in
    let p = new_proposal env config dto in
    let sc : Store = (get_active_config env s).1 in
    let sp : Store = record sc { proposals = save_row p sc.proposals } in
    ground (
      arith,
      h j,
      unused for_,
      unused against,
      unused abstain,
      saved-Tallied p s.votes s.proposals j,
      create_actions_keeps env (env.new_id 1) 2 dto.actions sp,
    )

-- If every count is the power on record, then so it is after any call that is not cut short by the
-- database, whatever its outcome. The identifiers that the database generates must be unused.
pub perform-TalliesMatch :
    (env : Env) (c : Call) (s : Store) (j : ℕ)
    → TalliesMatch s
    → ((n : ℕ) → env.write n ≡ true)
    → find_by_id (env.new_id 1) s.votes ≡ none
    → ((t : VoteType) → power_for (env.new_id 1) t s.votes ≡ 0)
    → Tallied (perform env c s).1.votes (find_by_id j (perform env c s).1.proposals)
unfolding perform
perform-TalliesMatch env (Call.create dto) s j h writes fresh unused =
    create_proposal-Tallied env s dto j h unused
perform-TalliesMatch env (Call.cast dto) s j h writes fresh unused =
    vote-Tallied env s j h dto writes fresh
perform-TalliesMatch env (Call.cast_typed dto) s j h writes fresh unused =
    vote_with_type-Tallied env s j h dto writes fresh
perform-TalliesMatch env (Call.execute i) s j h writes fresh unused =
    execute_proposal-Tallied env s i j h
perform-TalliesMatch env (Call.veto i vetoer reason) s j h writes fresh unused =
    veto_proposal-Tallied env s j h i vetoer reason
perform-TalliesMatch env (Call.finalize i) s j h writes fresh unused =
    finalize_proposal-Tallied env s j h i
