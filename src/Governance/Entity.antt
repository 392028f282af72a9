-- ===== src/Governance/Entity.antt =====
-- The rows of the governance service (backend/src/governance/entities) and its request bodies.
use stellar_split.Prelude.{ℕ, Bool, Option, List, ◌==◌, Keyed}
use stellar_split.Entities.{Text}

pub data ProposalStatus : Type 0 where
  pending active succeeded defeated queued executed vetoed expired : ProposalStatus

abbrev pub status_code : ProposalStatus → ℕ
status_code pending = 0
status_code active = 1
status_code succeeded = 2
status_code defeated = 3
status_code queued = 4
status_code executed = 5
status_code vetoed = 6
status_code expired = 7

-- `===` on statuses.
abbrev pub same_status : ProposalStatus → ProposalStatus → Bool
same_status a b = status_code a == status_code b

-- Voting powers and vote counts are BigInt; the two times of the vote are set when a proposal is
-- created.
pub record Proposal : Type 0 where
  pub id : ℕ
  pub proposer : ℕ
  pub description : Text
  pub status : ProposalStatus
  pub votes_for : ℕ
  pub votes_against : ℕ
  pub votes_abstain : ℕ
  pub voting_start_time : ℕ
  pub voting_end_time : ℕ
  pub execution_time : Option ℕ
  pub executed_at : Option ℕ
  pub vetoed_by : Option ℕ
  pub veto_reason : Option Text
  pub quorum_percentage : ℕ
  pub total_voting_power : ℕ

instance abbrev pub proposal_keyed : Keyed Proposal
proposal_keyed = record { key = λ p. p.id }

pub data VoteType : Type 0 where
  for_ against abstain : VoteType

abbrev pub type_code : VoteType → ℕ
type_code for_ = 0
type_code against = 1
type_code abstain = 2

pub record Vote : Type 0 where
  pub id : ℕ
  pub proposal_id : ℕ
  pub voter : ℕ
  pub vote_type : VoteType
  pub voting_power : ℕ
  pub reason : Option Text

instance abbrev pub vote_keyed : Keyed Vote
vote_keyed = record { key = λ v. v.id }

pub data ActionType : Type 0 where
  transfer_funds update_parameter add_member remove_member upgrade_contract custom : ActionType

pub record ProposalActionDto : Type 0 where
  pub action_type : ActionType
  pub target : Text
  pub parameters : Text
  pub calldata : Option Text

pub record ProposalAction : Type 0 where
  pub id : ℕ
  pub proposal_id : ℕ
  pub body : ProposalActionDto
  pub executed : Bool

instance abbrev pub action_keyed : Keyed ProposalAction
action_keyed = record { key = λ a. a.id }

-- Periods are in seconds.
pub record GovernanceConfig : Type 0 where
  pub id : ℕ
  pub quorum_percentage : ℕ
  pub voting_period : ℕ
  pub timelock_delay : ℕ
  pub proposal_lifetime : ℕ
  pub proposal_threshold : ℕ
  pub veto_addresses : List ℕ
  pub is_active : Bool

instance abbrev pub config_keyed : Keyed GovernanceConfig
config_keyed = record { key = λ c. c.id }

pub record CreateProposalDto : Type 0 where
  pub proposer : ℕ
  pub description : Text
  pub actions : List ProposalActionDto
  pub quorum_percentage : Option ℕ

pub record CastVoteDto : Type 0 where
  pub proposal_id : ℕ
  pub voter : ℕ
  pub support : Bool
  pub reason : Option Text

pub record CastVoteWithTypeDto : Type 0 where
  pub proposal_id : ℕ
  pub voter : ℕ
  pub vote_type : VoteType
  pub reason : Option Text
