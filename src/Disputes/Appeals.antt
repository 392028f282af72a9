-- ===== src/Disputes/Appeals.antt =====
-- When an appeal and a second resolution go through.
use stellar_split.Prelude.{
  ℕ, ◌≤◌, ◌≡◌, ◌↔◌, ◌⊎◌, inl, inr, true, Option, none, some, arith, find_by_id, save_row, is_ok,
}
use stellar_split.Entities.{Text, Split, split_keyed}
use stellar_split.Disputes.StateMachine.{resolved, rejected, appealed}
use stellar_split.Disputes.Entity.{
  Outcome, Dispute, dispute_keyed, evidence_keyed, ResolveDisputeDto,
}
use stellar_split.Disputes.Store.{Store, Env, add_audit_trail}
use stellar_split.Prelude.{Option-cases, find-key, find-save}
use stellar_split.Disputes.StateMachine.{can_transition}
use stellar_split.Disputes.Resolution.{resolve_dispute, mark_resolved, with_transaction}
use stellar_split.Disputes.Appeal.{appeal_dispute}
use stellar_split.Disputes.Appeal.{days_since_resolution}

-- The outcome on record for a dispute.
abbrev pub outcome_at : ℕ → Store → Option Outcome
outcome_at i s = elim (find_by_id i s.disputes) [
  | none ↦ none
  | some d ↦ elim d.resolution_outcome [ none ↦ none | some o ↦ some o.outcome ]
]

-- An appeal of a dispute that is found goes through exactly when the dispute is settled or already
-- appealed, the appellant raised it, at most thirty whole days have passed since its resolution, and
-- the three writes go through.
pub appeal_dispute_iff :
    (env : Env) (i : ℕ) (reason : Text) (by : ℕ) (s : Store) (d : Dispute)
    → find_by_id i s.disputes ≡ some d
    → (is_ok (appeal_dispute env i reason by s).0 ≡ true) ↔ (
        ((d.status ≡ resolved) ⊎ (d.status ≡ rejected) ⊎ (d.status ≡ appealed))
        × (d.raised_by ≡ by)
        × (days_since_resolution env d ≤ 30)
        × (env.write 0 ≡ true)
        × (env.write 1 ≡ true)
        × (env.write 2 ≡ true))
unfolding appeal_dispute can_transition
appeal_dispute_iff env i reason by s d found = (λ h. ground arith, λ h. ground arith)

-- A resolved dispute can be resolved again: the state machine lets every status stay, so the call goes
-- through and writes a new outcome over the old one, if the split is there and the writes succeed.
pub resolve_dispute_again :
    (env : Env) (dto : ResolveDisputeDto) (by : ℕ) (s : Store) (d : Dispute) (p : Split)
    → find_by_id dto.dispute_id s.disputes ≡ some d
    → d.status ≡ resolved
    → find_by_id d.split_id s.splits ≡ some p
    → (env.write 0 ≡ true) × (env.write 1 ≡ true) × (env.write 2 ≡ true)
    → let (r, s') = resolve_dispute env dto by s in
      (is_ok r ≡ true) × (outcome_at dto.dispute_id s' ≡ some dto.outcome)
unfolding resolve_dispute mark_resolved add_audit_trail with_transaction can_transition
resolve_dispute_again env dto by s d p found status split writes =
    let d' = mark_resolved env dto by d in
    elim (Option-cases env.tx_hash) [
      | inl off ↦ ground (
        arith,
        find-key dto.dispute_id s.disputes {a = d} found,
        find-save dto.dispute_id d' s.disputes,
      )
      | inr (h, on) ↦ ground (
        arith,
        find-key dto.dispute_id s.disputes {a = d} found,
        find-save dto.dispute_id d' s.disputes,
        find-save dto.dispute_id (with_transaction env dto h d') (save_row d' s.disputes),
      )
    ]
