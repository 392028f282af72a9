-- ===== src/Governance/Store.antt =====
-- What the governance service reads and writes, and the helpers of its operations.
use stellar_split.Prelude.{
  ℕ, Bool, true, not, none, some, List, [], ◌∷◌, ◌++◌, if◌then◌else◌, or_default, find_where,
  find_by_id, save_row, not_found, db_failure, ok, err, Action, or_throw, throw_if, modify, ◌>>◌,
}
use stellar_split.Entities.{Text}
use stellar_split.Governance.Entity.{
  ProposalStatus, Proposal, proposal_keyed, VoteType, Vote, vote_keyed, ProposalActionDto,
  ProposalAction, action_keyed, GovernanceConfig, config_keyed,
}

pub data Event : Type 0 where
  proposal_created : ℕ → ℕ → Event
  vote_cast : ℕ → ℕ → VoteType → ℕ → Event
  proposal_executed : ℕ → ℕ → Event
  proposal_vetoed : ℕ → ℕ → Text → Event
  proposal_finalized : ℕ → ProposalStatus → Event
  action_executed : ℕ → ProposalActionDto → Event

pub record Store : Type 0 where
  pub proposals : List Proposal
  pub votes : List Vote
  pub actions : List ProposalAction
  pub configs : List GovernanceConfig
  pub events : List Event

-- The clock in milliseconds, the identifier that the database generates for the n-th row inserted by
-- the call, and whether the n-th write of the call goes through.
pub record Env : Type 0 where
  pub now : ℕ
  pub new_id : ℕ → ℕ
  pub write : ℕ → Bool

unfoldable pub get_proposal : ℕ → Action Store Proposal
get_proposal i s = or_throw (find_by_id i s.proposals) not_found s

unfoldable pub save_proposal : Env → ℕ → Proposal → Action Store (Unit {0})
save_proposal env n p = do
  throw_if (not (env.write n)) db_failure
  modify (λ s. record s { proposals = save_row p s.proposals })

unfoldable pub save_vote : Env → ℕ → Vote → Action Store (Unit {0})
save_vote env n v = do
  throw_if (not (env.write n)) db_failure
  modify (λ s. record s { votes = save_row v s.votes })

unfoldable pub save_action : Env → ℕ → ProposalAction → Action Store (Unit {0})
save_action env n a = do
  throw_if (not (env.write n)) db_failure
  modify (λ s. record s { actions = save_row a s.actions })

unfoldable pub emit : Event → Action Store (Unit {0})
emit e = modify (λ s. record s { events = s.events ++ (e ∷ []) })

unfoldable pub default_config : ℕ → GovernanceConfig
default_config i = record {
  id = i;
  quorum_percentage = 51;
  voting_period = 259_200;
  timelock_delay = 172_800;
  proposal_lifetime = 604_800;
  proposal_threshold = 1_000_000_000_000;
  veto_addresses = [];
  is_active = true;
}

-- The configuration that is in force: the active one, or else the default one.
abbrev pub config_of : Env → Store → GovernanceConfig
config_of env s =
    or_default (find_where (λ c. c.is_active) s.configs) (default_config (env.new_id 0))

-- `getActiveConfig`: the default configuration is saved when it is made, as write 0.
unfoldable pub get_active_config : Env → Action Store GovernanceConfig
get_active_config env s = elim (find_where (λ c. c.is_active) s.configs) [
  | some c ↦ (ok c, s)
  | none ↦
      let c = default_config (env.new_id 0) in
      if env.write 0
      then (ok c, record s { configs = save_row c s.configs })
      else (err db_failure, s)
]

-- The source's stand-ins for the token system.
unfoldable pub get_voting_power : ℕ → ℕ
get_voting_power address = 1_000_000_000_000

unfoldable pub get_total_voting_power : ℕ
get_total_voting_power = 100_000_000_000_000
