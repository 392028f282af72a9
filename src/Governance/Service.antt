-- ===== src/Governance/Service.antt =====
-- The calls of the governance service that change state, as one type, and runs of them.
use stellar_split.Prelude.{ℕ, Bool, Result, is_ok}
use stellar_split.Entities.{Text}
use stellar_split.Governance.Entity.{
  proposal_keyed, vote_keyed, action_keyed, config_keyed, CreateProposalDto, CastVoteDto,
  CastVoteWithTypeDto,
}
use stellar_split.Governance.Store.{Store, Env}
use stellar_split.Governance.Proposing.{create_proposal}
use stellar_split.Governance.Voting.{vote, vote_with_type}
use stellar_split.Governance.Executing.{finalize_proposal, execute_proposal, veto_proposal}

pub data Call : Type 0 where
  create : CreateProposalDto → Call
  cast : CastVoteDto → Call
  cast_typed : CastVoteWithTypeDto → Call
  execute : ℕ → Call
  veto : ℕ → ℕ → Text → Call
  finalize : ℕ → Call

-- Whether the call went through, and the store after it.
abbrev pub outcome_of : {A : Type 0} → Result A × Store → Bool × Store
outcome_of (r, s) = (is_ok r, s)

unfoldable pub perform : Env → Call → Store → Bool × Store
perform env (Call.create dto) s = outcome_of (create_proposal env dto s)
perform env (Call.cast dto) s = outcome_of (vote env dto s)
perform env (Call.cast_typed dto) s = outcome_of (vote_with_type env dto s)
perform env (Call.execute i) s = outcome_of (execute_proposal env i s)
perform env (Call.veto i vetoer reason) s = outcome_of (veto_proposal env i vetoer reason s)
perform env (Call.finalize i) s = outcome_of (finalize_proposal env i s)
