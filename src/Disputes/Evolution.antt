-- ===== src/Disputes/Evolution.antt =====
-- The calls of the dispute service, and how each changes the disputes.
use stellar_split.Prelude.{ℕ, ◌≡◌, inl, inr, none, arith, take, find_by_id}
use stellar_split.Entities.{Text, split_keyed}
use stellar_split.Disputes.Entity.{
  AuditAction, dispute_keyed, evidence_keyed, FileDisputeDto, AddEvidenceDto, ResolveDisputeDto,
}
use stellar_split.Disputes.Store.{Store, Env, add_audit_trail}
use stellar_split.Prelude.{Option-cases, find-key}
use stellar_split.Disputes.Filing.{new_dispute, file_dispute}
use stellar_split.Disputes.Evidence.{
  attach_evidence, add_evidence, request_more_evidence, new_evidence,
}
use stellar_split.Disputes.Review.{
  move_to_evidence_collection, submit_for_review, mark_collecting, mark_submitted,
}
use stellar_split.Disputes.Resolution.{
  resolve_dispute, reject_dispute, mark_resolved, mark_rejected, with_transaction,
}
use stellar_split.Disputes.Appeal.{appeal_dispute, mark_appealed}
use stellar_split.Disputes.Service.{Call, perform}
use stellar_split.Disputes.Marks.{
  Tracked, Tracked-refl, save-Tracked, save_twice-Tracked, save_new-Tracked, save_new_twice-Tracked,
  add_audit_trail-Evolves, mark_collecting-Evolves, mark_submitted-Evolves, mark_rejected-Evolves,
  mark_appealed-Evolves, mark_resolved-Evolves, attach_evidence-Evolves, with_transaction-Evolves,
}

module _ (env : Env) (s : Store) (j : ℕ) where
  reject_dispute-Tracked :
      (i : ℕ) (reason : Text) (by : ℕ)
      → Tracked
          (find_by_id j s.disputes)
          (find_by_id j (reject_dispute env i reason by s).1.disputes)
  unfolding reject_dispute mark_rejected add_audit_trail
  reject_dispute-Tracked i reason by = elim (Option-cases (find_by_id i s.disputes)) [
    | inl e ↦ ground (arith, Tracked-refl (find_by_id j s.disputes))
    | inr (d, e) ↦ ground (
      arith,
      Tracked-refl (find_by_id j s.disputes),
      find-key i s.disputes {a = d} e,
      mark_rejected-Evolves env by d reason,
      save-Tracked s.disputes j d (mark_rejected env reason by d),
    )
  ]

  collect-Tracked :
      (i by : ℕ)
      → Tracked
          (find_by_id j s.disputes)
          (find_by_id j (move_to_evidence_collection env i by s).1.disputes)
  unfolding move_to_evidence_collection mark_collecting add_audit_trail
  collect-Tracked i by = elim (Option-cases (find_by_id i s.disputes)) [
    | inl e ↦ ground (arith, Tracked-refl (find_by_id j s.disputes))
    | inr (d, e) ↦ ground (
      arith,
      Tracked-refl (find_by_id j s.disputes),
      find-key i s.disputes {a = d} e,
      mark_collecting-Evolves env by d,
      save-Tracked s.disputes j d (mark_collecting env by d),
    )
  ]

  submit_for_review-Tracked :
      (i by : ℕ)
      → Tracked (find_by_id j s.disputes) (find_by_id j (submit_for_review env i by s).1.disputes)
  unfolding submit_for_review mark_submitted add_audit_trail
  submit_for_review-Tracked i by = elim (Option-cases (find_by_id i s.disputes)) [
    | inl e ↦ ground (arith, Tracked-refl (find_by_id j s.disputes))
    | inr (d, e) ↦ ground (
      arith,
      Tracked-refl (find_by_id j s.disputes),
      find-key i s.disputes {a = d} e,
      mark_submitted-Evolves env by d,
      save-Tracked s.disputes j d (mark_submitted env by d),
    )
  ]

  appeal_dispute-Tracked :
      (i : ℕ) (reason : Text) (by : ℕ)
      → Tracked
          (find_by_id j s.disputes)
          (find_by_id j (appeal_dispute env i reason by s).1.disputes)
  unfolding appeal_dispute mark_appealed add_audit_trail
  appeal_dispute-Tracked i reason by = elim (Option-cases (find_by_id i s.disputes)) [
    | inl e ↦ ground (arith, Tracked-refl (find_by_id j s.disputes))
    | inr (d, e) ↦ ground (
      arith,
      Tracked-refl (find_by_id j s.disputes),
      find-key i s.disputes {a = d} e,
      mark_appealed-Evolves env by d reason,
      save-Tracked s.disputes j d (mark_appealed env reason by d),
    )
  ]

  request_more_evidence-Tracked :
      (i : ℕ) (text : Text) (by : ℕ)
      → Tracked
          (find_by_id j s.disputes)
          (find_by_id j (request_more_evidence env i text by s).1.disputes)
  unfolding request_more_evidence add_audit_trail
  request_more_evidence-Tracked i text by = elim (Option-cases (find_by_id i s.disputes)) [
    | inl e ↦ ground (arith, Tracked-refl (find_by_id j s.disputes))
    | inr (d, e) ↦
        let a = AuditAction.more_evidence_requested (take 100 text) in
        ground (
          arith,
          Tracked-refl (find_by_id j s.disputes),
          find-key i s.disputes {a = d} e,
          add_audit_trail-Evolves env by d a,
          save-Tracked s.disputes j d (add_audit_trail env a by d),
        )
  ]

  add_evidence-Tracked :
      (dto : AddEvidenceDto) (by : ℕ)
      → Tracked (find_by_id j s.disputes) (find_by_id j (add_evidence env dto by s).1.disputes)
  unfolding add_evidence
  add_evidence-Tracked dto by = elim (Option-cases (find_by_id dto.dispute_id s.disputes)) [
    | inl e ↦ ground (arith, Tracked-refl (find_by_id j s.disputes))
    | inr (d, e) ↦
        let item = new_evidence env dto by in
        ground (
          arith,
          Tracked-refl (find_by_id j s.disputes),
          find-key dto.dispute_id s.disputes {a = d} e,
          attach_evidence-Evolves env by d dto item,
          save-Tracked s.disputes j d (attach_evidence env dto by item d),
        )
  ]

  resolve_dispute-Tracked :
      (dto : ResolveDisputeDto) (by : ℕ)
      → Tracked (find_by_id j s.disputes) (find_by_id j (resolve_dispute env dto by s).1.disputes)
  unfolding resolve_dispute
  resolve_dispute-Tracked dto by = elim (Option-cases (find_by_id dto.dispute_id s.disputes)) [
    | inl e ↦ ground (arith, Tracked-refl (find_by_id j s.disputes))
    | inr (d, e) ↦
        let d' = mark_resolved env dto by d in
        elim (Option-cases env.tx_hash) [
          | inl off ↦ ground (
            arith,
            Tracked-refl (find_by_id j s.disputes),
            find-key dto.dispute_id s.disputes {a = d} e,
            mark_resolved-Evolves env by d dto,
            save-Tracked s.disputes j d d',
          )
          | inr (h, on) ↦ ground (
            arith,
            Tracked-refl (find_by_id j s.disputes),
            find-key dto.dispute_id s.disputes {a = d} e,
            mark_resolved-Evolves env by d dto,
            with_transaction-Evolves env dto h d d',
            save-Tracked s.disputes j d d',
            save_twice-Tracked s.disputes j d d' (with_transaction env dto h d'),
          )
        ]
  ]

  file_dispute-Tracked :
      (dto : FileDisputeDto) (by : ℕ)
      → find_by_id env.new_id s.disputes ≡ none
      → Tracked (find_by_id j s.disputes) (find_by_id j (file_dispute env dto by s).1.disputes)
  unfolding file_dispute new_dispute add_audit_trail
  file_dispute-Tracked dto by fresh =
      let d = new_dispute env dto by in
      elim (Option-cases env.tx_hash) [
        | inl off ↦
            ground (arith, Tracked-refl (find_by_id j s.disputes), save_new-Tracked s.disputes j d)
        | inr (h, on) ↦ ground (
          arith,
          Tracked-refl (find_by_id j s.disputes),
          save_new-Tracked s.disputes j d,
          save_new_twice-Tracked s.disputes j d
              (add_audit_trail env (AuditAction.onchain_freeze h) by d),
        )
      ]

-- Whatever the call, its environment and its outcome, every dispute is afterwards as it was or has
-- evolved: a status along the state machine, the same identifier, split, party, type and
-- description, and an audit trail that begins with the old one. A dispute that was not there before
-- is open. The database's new identifier must be unused.
pub perform-Tracked :
    (env : Env) (c : Call) (s : Store) (j : ℕ)
    → find_by_id env.new_id s.disputes ≡ none
    → Tracked (find_by_id j s.disputes) (find_by_id j (perform env c s).1.disputes)
unfolding perform
perform-Tracked env (Call.file dto by) s j fresh = file_dispute-Tracked env s j dto by fresh
perform-Tracked env (Call.evidence dto by) s j fresh = add_evidence-Tracked env s j dto by
perform-Tracked env (Call.collect i by) s j fresh = collect-Tracked env s j i by
perform-Tracked env (Call.submit i by) s j fresh = submit_for_review-Tracked env s j i by
perform-Tracked env (Call.resolve dto by) s j fresh = resolve_dispute-Tracked env s j dto by
perform-Tracked env (Call.reject i reason by) s j fresh = reject_dispute-Tracked env s j i reason by
perform-Tracked env (Call.appeal i reason by) s j fresh = appeal_dispute-Tracked env s j i reason by
perform-Tracked env (Call.request i text by) s j fresh =
    request_more_evidence-Tracked env s j i text by
