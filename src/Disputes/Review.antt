-- ===== src/Disputes/Review.antt =====
-- `moveToEvidenceCollection` and `submitForReview` of backend/src/disputes/disputes.service.ts.
use stellar_split.Prelude.{ℕ, [], or_default, length, Action, return, ◌>>=◌, ◌>>◌}
use stellar_split.Entities.{split_keyed}
use stellar_split.Disputes.StateMachine.{
  open_, evidence_collection, under_review, validate_transition,
}
use stellar_split.Disputes.Entity.{AuditAction, Dispute, dispute_keyed, evidence_keyed}
use stellar_split.Disputes.Store.{
  Event, Store, Env, load_dispute, save_dispute, emit, add_audit_trail,
}

-- The entry names `open` as the previous status whatever it was.
unfoldable pub mark_collecting : Env → ℕ → Dispute → Dispute
mark_collecting env by d =
    add_audit_trail env
      (AuditAction.status_changed_to_evidence_collection open_ evidence_collection) by
      (record d { status = evidence_collection })

unfoldable pub move_to_evidence_collection : Env → ℕ → ℕ → Action Store Dispute
unfolding load_dispute save_dispute validate_transition
move_to_evidence_collection env i by = do
  d ← load_dispute i
  validate_transition d.status evidence_collection
  save_dispute env 0 (mark_collecting env by d)

unfoldable pub mark_submitted : Env → ℕ → Dispute → Dispute
mark_submitted env by d =
    add_audit_trail env (AuditAction.submitted_for_review (length (or_default d.evidence []))) by
      (record d { status = under_review })

unfoldable pub submit_for_review : Env → ℕ → ℕ → Action Store Dispute
unfolding load_dispute save_dispute validate_transition emit
submit_for_review env i by = do
  d ← load_dispute i
  validate_transition d.status under_review
  d' ← save_dispute env 0 (mark_submitted env by d)
  emit (Event.dispute_under_review d')
  return d'
