-- ===== src/Disputes/Marks.antt =====
-- How the service changes a dispute: along the state machine, with what identifies it kept and its
-- audit trail only lengthened.
use stellar_split.Prelude.{
  ℕ, ◌≡◌, true, Option, none, some, List, [], ◌∷◌, ◌++◌, arith, or_default, length, take,
  find_by_id, save_row,
}
use stellar_split.Entities.{Text, split_keyed}
use stellar_split.Disputes.StateMachine.{
  open_, evidence_collection, under_review, resolved, rejected, appealed,
  allows_evidence_submission,
}
use stellar_split.Disputes.Entity.{
  AuditAction, Dispute, dispute_keyed, DisputeEvidence, evidence_keyed, trail, AddEvidenceDto,
  ResolveDisputeDto,
}
use stellar_split.Disputes.Store.{Env, add_audit_trail}
use stellar_split.Disputes.StateMachine.{can_transition}
use stellar_split.Disputes.Evidence.{attach_evidence}
use stellar_split.Disputes.Review.{mark_collecting, mark_submitted}
use stellar_split.Disputes.Resolution.{mark_resolved, with_transaction, mark_rejected}
use stellar_split.Disputes.Appeal.{mark_appealed}
use stellar_split.Prelude.{take-all, take-append, take-append₂, find-save}
use stellar_split.Disputes.Store.{entry}
use stellar_split.Disputes.Entity.{AuditTrailEntry}

pub record Evolves (d d' : Dispute) : Type 0 where
  pub same_id : d'.id ≡ d.id
  pub same_split : d'.split_id ≡ d.split_id
  pub same_party : d'.raised_by ≡ d.raised_by
  pub same_type : d'.dispute_type ≡ d.dispute_type
  pub same_description : d'.description ≡ d.description
  pub along : can_transition d.status d'.status ≡ true
  pub trail_kept : take (length (trail d)) (trail d') ≡ trail d

pub Evolves-refl : (d : Dispute) → Evolves d d
unfolding can_transition
Evolves-refl d = ground (arith, take-all (trail d))

-- One entry more, and two.
one_more :
    (d : Dispute) (a : AuditTrailEntry) → take (length (trail d)) (trail d ++ (a ∷ [])) ≡ trail d
one_more d a = take-append (trail d) (a ∷ [])

two_more :
    (d : Dispute) (a b : AuditTrailEntry)
    → take (length (trail d)) ((trail d ++ (a ∷ [])) ++ (b ∷ [])) ≡ trail d
two_more d a b = take-append₂ (trail d) (a ∷ []) (b ∷ [])

module _ (env : Env) (by : ℕ) (d : Dispute) where
  pub add_audit_trail-Evolves : (a : AuditAction) → Evolves d (add_audit_trail env a by d)
  unfolding add_audit_trail can_transition
  add_audit_trail-Evolves a = ground (arith, one_more d (entry env a by))

  pub mark_collecting-Evolves :
      can_transition d.status evidence_collection ≡ true → Evolves d (mark_collecting env by d)
  unfolding mark_collecting add_audit_trail
  mark_collecting-Evolves h = ground (
    arith,
    one_more d (
        entry env (AuditAction.status_changed_to_evidence_collection open_ evidence_collection) by),
  )

  pub mark_submitted-Evolves :
      can_transition d.status under_review ≡ true → Evolves d (mark_submitted env by d)
  unfolding mark_submitted add_audit_trail
  mark_submitted-Evolves h = ground (
    arith,
    one_more d
        (entry env (AuditAction.submitted_for_review (length (or_default d.evidence []))) by),
  )

  pub mark_rejected-Evolves :
      (reason : Text)
      → can_transition d.status rejected ≡ true
      → Evolves d (mark_rejected env reason by d)
  unfolding mark_rejected add_audit_trail
  mark_rejected-Evolves reason h =
      ground (arith, one_more d (entry env (AuditAction.dispute_rejected reason) by))

  pub mark_appealed-Evolves :
      (reason : Text)
      → can_transition d.status appealed ≡ true
      → Evolves d (mark_appealed env reason by d)
  unfolding mark_appealed add_audit_trail
  mark_appealed-Evolves reason h =
      ground (arith, one_more d (entry env (AuditAction.dispute_appealed (take 100 reason)) by))

  pub mark_resolved-Evolves :
      (dto : ResolveDisputeDto)
      → can_transition d.status resolved ≡ true
      → Evolves d (mark_resolved env dto by d)
  unfolding mark_resolved add_audit_trail
  mark_resolved-Evolves dto h = ground (
    arith,
    one_more d (entry env (AuditAction.dispute_resolved dto.outcome (take 100 dto.resolution)) by),
  )

  pub attach_evidence-Evolves :
      (dto : AddEvidenceDto) (e : DisputeEvidence)
      → allows_evidence_submission d.status ≡ true
      → Evolves d (attach_evidence env dto by e d)
  unfolding attach_evidence add_audit_trail can_transition allows_evidence_submission
  attach_evidence-Evolves dto e h = ground (
    arith,
    one_more d (entry env (AuditAction.evidence_added e.id dto.file_name dto.size) by),
    two_more d
        (entry env (AuditAction.status_changed_to_evidence_collection open_ evidence_collection) by)
        (entry env (AuditAction.evidence_added e.id dto.file_name dto.size) by),
  )

-- The transaction's hash changes nothing that is tracked here.
pub with_transaction-Evolves :
    (env : Env) (dto : ResolveDisputeDto) (h : ℕ) (d d' : Dispute)
    → Evolves d d'
    → Evolves d (with_transaction env dto h d')
unfolding with_transaction
with_transaction-Evolves env dto h d d' v = ground arith

-- What becomes of a dispute: it is as it was or has evolved; one that was not there begins open.
abbrev pub Tracked : Option Dispute → Option Dispute → Type 0
Tracked none none = Unit
Tracked none (some d') = d'.status ≡ open_
Tracked (some d) none = ⊥
Tracked (some d) (some d') = Evolves d d'

pub Tracked-refl : (o : Option Dispute) → Tracked o o
Tracked-refl none = tt
Tracked-refl (some d) = Evolves-refl d

module _ (ds : List Dispute) (j : ℕ) where
  pub save-Tracked :
      (d d' : Dispute)
      → find_by_id d'.id ds ≡ some d
      → Evolves d d'
      → Tracked (find_by_id j ds) (find_by_id j (save_row d' ds))
  save-Tracked d d' e v = rw find-save (ground (arith, Tracked-refl (find_by_id j ds)))

  pub save_twice-Tracked :
      (d d' d'' : Dispute)
      → find_by_id d''.id ds ≡ some d
      → d'.id ≡ d''.id
      → Evolves d d''
      → Tracked (find_by_id j ds) (find_by_id j (save_row d'' (save_row d' ds)))
  save_twice-Tracked d d' d'' e same v =
      rw (find-save, find-save) (ground (arith, Tracked-refl (find_by_id j ds)))

  pub save_new-Tracked :
      (d' : Dispute)
      → find_by_id d'.id ds ≡ none
      → d'.status ≡ open_
      → Tracked (find_by_id j ds) (find_by_id j (save_row d' ds))
  save_new-Tracked d' e v = rw find-save (ground (arith, Tracked-refl (find_by_id j ds)))

  pub save_new_twice-Tracked :
      (d' d'' : Dispute)
      → find_by_id d''.id ds ≡ none
      → d'.id ≡ d''.id
      → d''.status ≡ open_
      → Tracked (find_by_id j ds) (find_by_id j (save_row d'' (save_row d' ds)))
  save_new_twice-Tracked d' d'' e same v =
      rw (find-save, find-save) (ground (arith, Tracked-refl (find_by_id j ds)))
