-- ===== src/Disputes/Freezing.antt =====
-- The freeze flag of a dispute against its status.
use stellar_split.Prelude.{
  ℕ, ◌≡◌, inl, inr, not, List, [], ◌∷◌, arith, take, All, find_by_id, save_row,
}
use stellar_split.Entities.{Text, split_keyed}
use stellar_split.Disputes.Entity.{
  AuditAction, Dispute, dispute_keyed, evidence_keyed, FileDisputeDto, AddEvidenceDto,
  ResolveDisputeDto,
}
use stellar_split.Disputes.Store.{Store, Env, add_audit_trail}
use stellar_split.Prelude.{Option-cases, All-save, find-All}
use stellar_split.Disputes.StateMachine.{can_transition, is_terminal_state}
use stellar_split.Disputes.Filing.{new_dispute, file_dispute}
use stellar_split.Disputes.Evidence.{
  attach_evidence, add_evidence, request_more_evidence, new_evidence,
}
use stellar_split.Disputes.Review.{
  move_to_evidence_collection, submit_for_review, mark_collecting, mark_submitted,
}
use stellar_split.Disputes.Resolution.{
  resolve_dispute, reject_dispute, mark_resolved, mark_rejected, with_transaction,
}
use stellar_split.Disputes.Appeal.{appeal_dispute, mark_appealed}
use stellar_split.Disputes.Service.{Call, perform, perform_all}

-- A dispute holds its split frozen exactly until it is settled.
abbrev pub HoldsFreeze : Dispute → Type 0
HoldsFreeze d = d.split_frozen ≡ not (is_terminal_state d.status)

module _ (env : Env) (s : Store) (h : All HoldsFreeze s.disputes) where
  reject_dispute-HoldsFreeze :
      (i : ℕ) (reason : Text) (by : ℕ)
      → All HoldsFreeze (reject_dispute env i reason by s).1.disputes
  unfolding reject_dispute mark_rejected add_audit_trail is_terminal_state
  reject_dispute-HoldsFreeze i reason by = elim (Option-cases (find_by_id i s.disputes)) [
    | inl e ↦ ground arith
    | inr (d, e) ↦ ground (
      arith,
      find-All HoldsFreeze i s.disputes {a = d} h e,
      All-save HoldsFreeze (mark_rejected env reason by d) s.disputes,
    )
  ]

  appeal_dispute-HoldsFreeze :
      (i : ℕ) (reason : Text) (by : ℕ)
      → All HoldsFreeze (appeal_dispute env i reason by s).1.disputes
  unfolding appeal_dispute mark_appealed add_audit_trail is_terminal_state
  appeal_dispute-HoldsFreeze i reason by = elim (Option-cases (find_by_id i s.disputes)) [
    | inl e ↦ ground arith
    | inr (d, e) ↦ ground (arith, All-save HoldsFreeze (mark_appealed env reason by d) s.disputes)
  ]

  collect-HoldsFreeze :
      (i by : ℕ) → All HoldsFreeze (move_to_evidence_collection env i by s).1.disputes
  unfolding move_to_evidence_collection mark_collecting add_audit_trail is_terminal_state
      can_transition
  collect-HoldsFreeze i by = elim (Option-cases (find_by_id i s.disputes)) [
    | inl e ↦ ground arith
    | inr (d, e) ↦ ground (
      arith,
      find-All HoldsFreeze i s.disputes {a = d} h e,
      All-save HoldsFreeze (mark_collecting env by d) s.disputes,
    )
  ]

  submit_for_review-HoldsFreeze :
      (i by : ℕ) → All HoldsFreeze (submit_for_review env i by s).1.disputes
  unfolding submit_for_review mark_submitted add_audit_trail is_terminal_state can_transition
  submit_for_review-HoldsFreeze i by = elim (Option-cases (find_by_id i s.disputes)) [
    | inl e ↦ ground arith
    | inr (d, e) ↦ ground (
      arith,
      find-All HoldsFreeze i s.disputes {a = d} h e,
      All-save HoldsFreeze (mark_submitted env by d) s.disputes,
    )
  ]

  request_more_evidence-HoldsFreeze :
      (i : ℕ) (text : Text) (by : ℕ)
      → All HoldsFreeze (request_more_evidence env i text by s).1.disputes
  unfolding request_more_evidence add_audit_trail
  request_more_evidence-HoldsFreeze i text by = elim (Option-cases (find_by_id i s.disputes)) [
    | inl e ↦ ground arith
    | inr (d, e) ↦
        let a = AuditAction.more_evidence_requested (take 100 text) in
        ground (
          arith,
          find-All HoldsFreeze i s.disputes {a = d} h e,
          All-save HoldsFreeze (add_audit_trail env a by d) s.disputes,
        )
  ]

  add_evidence-HoldsFreeze :
      (dto : AddEvidenceDto) (by : ℕ) → All HoldsFreeze (add_evidence env dto by s).1.disputes
  unfolding add_evidence attach_evidence add_audit_trail is_terminal_state
  add_evidence-HoldsFreeze dto by = elim (Option-cases (find_by_id dto.dispute_id s.disputes)) [
    | inl e ↦ ground arith
    | inr (d, e) ↦ ground (
      arith,
      find-All HoldsFreeze dto.dispute_id s.disputes {a = d} h e,
      All-save HoldsFreeze (attach_evidence env dto by (new_evidence env dto by) d) s.disputes,
    )
  ]

  resolve_dispute-HoldsFreeze :
      (dto : ResolveDisputeDto) (by : ℕ) → All HoldsFreeze (resolve_dispute env dto by s).1.disputes
  unfolding resolve_dispute mark_resolved add_audit_trail with_transaction is_terminal_state
  resolve_dispute-HoldsFreeze dto by = elim (Option-cases (find_by_id dto.dispute_id s.disputes)) [
    | inl e ↦ ground arith
    | inr (d, e) ↦
        let d' = mark_resolved env dto by d in
        elim (Option-cases env.tx_hash) [
          | inl off ↦ ground (arith, All-save HoldsFreeze d' s.disputes)
          | inr (t, on) ↦ ground (
            arith,
            All-save HoldsFreeze d' s.disputes,
            All-save HoldsFreeze (with_transaction env dto t d') (save_row d' s.disputes),
          )
        ]
  ]

  file_dispute-HoldsFreeze :
      (dto : FileDisputeDto) (by : ℕ) → All HoldsFreeze (file_dispute env dto by s).1.disputes
  unfolding file_dispute new_dispute add_audit_trail is_terminal_state
  file_dispute-HoldsFreeze dto by =
      let d = new_dispute env dto by in
      elim (Option-cases env.tx_hash) [
        | inl off ↦ ground (arith, All-save HoldsFreeze d s.disputes)
        | inr (t, on) ↦ ground (
          arith,
          All-save HoldsFreeze d s.disputes,
          All-save HoldsFreeze (add_audit_trail env (AuditAction.onchain_freeze t) by d)
              (save_row d s.disputes),
        )
      ]

perform-HoldsFreeze :
    (env : Env) (c : Call) (s : Store)
    → All HoldsFreeze s.disputes
    → All HoldsFreeze (perform env c s).1.disputes
unfolding perform
perform-HoldsFreeze env (Call.file dto by) s h = file_dispute-HoldsFreeze env s h dto by
perform-HoldsFreeze env (Call.evidence dto by) s h = add_evidence-HoldsFreeze env s h dto by
perform-HoldsFreeze env (Call.collect i by) s h = collect-HoldsFreeze env s h i by
perform-HoldsFreeze env (Call.submit i by) s h = submit_for_review-HoldsFreeze env s h i by
perform-HoldsFreeze env (Call.resolve dto by) s h = resolve_dispute-HoldsFreeze env s h dto by
perform-HoldsFreeze env (Call.reject i r by) s h = reject_dispute-HoldsFreeze env s h i r by
perform-HoldsFreeze env (Call.appeal i r by) s h = appeal_dispute-HoldsFreeze env s h i r by
perform-HoldsFreeze env (Call.request i t by) s h = request_more_evidence-HoldsFreeze env s h i t by

-- After any calls in any order, whatever fails on the way, each dispute's flag says that its split is
-- frozen exactly when the dispute is neither resolved nor rejected, if this held before.
pub perform_all-HoldsFreeze :
    (cs : List (Env × Call)) (s : Store)
    → All HoldsFreeze s.disputes
    → All HoldsFreeze (perform_all cs s).disputes
unfolding perform_all
perform_all-HoldsFreeze [] s h = h
perform_all-HoldsFreeze ((env, c) ∷ cs) s h =
    perform_all-HoldsFreeze cs (perform env c s).1 (perform-HoldsFreeze env c s h)
