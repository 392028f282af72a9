-- ===== src/Disputes/Entity.antt =====
-- The rows and the request bodies of the dispute service (backend/src/entities/dispute.entity.ts,
-- dispute-evidence.entity.ts, backend/src/disputes/dto/dispute.dto.ts).
use stellar_split.Prelude.{ℕ, Bool, Option, List, [], or_default, Keyed}
use stellar_split.Entities.{Text}
use stellar_split.Disputes.StateMachine.{DisputeStatus}

pub data DisputeType : Type 0 where
  incorrect_amount missing_payment wrong_items other : DisputeType

pub data Outcome : Type 0 where
  adjust_balances refund cancel_split no_change : Outcome

-- The actions that the service writes into an audit trail, with their details.
pub data AuditAction : Type 0 where
  dispute_created : DisputeType → Text → AuditAction
  onchain_freeze : ℕ → AuditAction
  status_changed_to_evidence_collection : DisputeStatus → DisputeStatus → AuditAction
  evidence_added : ℕ → Text → ℕ → AuditAction
  submitted_for_review : ℕ → AuditAction
  dispute_resolved : Outcome → Text → AuditAction
  dispute_rejected : Text → AuditAction
  dispute_appealed : Text → AuditAction
  more_evidence_requested : Text → AuditAction

pub record AuditTrailEntry : Type 0 where
  pub action : AuditAction
  pub performed_by : ℕ
  pub performed_at : ℕ

pub record EvidenceItem : Type 0 where
  pub id : ℕ
  pub uploaded_by : ℕ
  pub uploaded_at : ℕ
  pub file_key : Text
  pub file_name : Text
  pub mime_type : Text
  pub size : ℕ

pub record ResolutionOutcome : Type 0 where
  pub outcome : Outcome
  pub details : Text
  pub executed_at : ℕ
  pub transaction_hash : Option ℕ

pub record Dispute : Type 0 where
  pub id : ℕ
  pub split_id : ℕ
  pub raised_by : ℕ
  pub dispute_type : DisputeType
  pub description : Text
  pub status : DisputeStatus
  pub evidence : Option (List EvidenceItem)
  pub resolution : Option Text
  pub resolved_by : Option ℕ
  pub resolved_at : Option ℕ
  pub resolution_outcome : Option ResolutionOutcome
  pub original_dispute_id : Option ℕ
  pub appeal_reason : Option Text
  pub appealed_at : Option ℕ
  pub audit_trail : Option (List AuditTrailEntry)
  pub split_frozen : Bool
  pub created_at : ℕ

instance abbrev pub dispute_keyed : Keyed Dispute
dispute_keyed = record { key = λ d. d.id }

pub record DisputeEvidence : Type 0 where
  pub id : ℕ
  pub dispute_id : ℕ
  pub uploaded_by : ℕ
  pub file_key : Text
  pub file_name : Text
  pub mime_type : Text
  pub size : ℕ
  pub description : Option Text
  pub metadata : Option Text
  pub created_at : ℕ

instance abbrev pub evidence_keyed : Keyed DisputeEvidence
evidence_keyed = record { key = λ e. e.id }

-- The column is nullable: `dispute.auditTrail || []`.
abbrev pub trail : Dispute → List AuditTrailEntry
trail d = or_default d.audit_trail []

pub record FileDisputeDto : Type 0 where
  pub split_id : ℕ
  pub dispute_type : DisputeType
  pub description : Text

pub record AddEvidenceDto : Type 0 where
  pub dispute_id : ℕ
  pub file_key : Text
  pub file_name : Text
  pub mime_type : Text
  pub size : ℕ
  pub description : Option Text
  pub metadata : Option Text

pub record ResolveDisputeDto : Type 0 where
  pub dispute_id : ℕ
  pub outcome : Outcome
  pub resolution : Text
  pub details : Option Text
