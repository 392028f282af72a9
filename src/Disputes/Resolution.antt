-- ===== src/Disputes/Resolution.antt =====
-- `resolveDispute` and `rejectDispute` of backend/src/disputes/disputes.service.ts.
use stellar_split.Prelude.{
  ℕ, false, none, some, [], ◌∷◌, if◌then◌else◌, or_default, take, save_row, ok, Action, return,
  transaction, ◌>>=◌, ◌>>◌,
}
use stellar_split.Entities.{Text, split_keyed}
use stellar_split.Disputes.StateMachine.{resolved, rejected, validate_transition}
use stellar_split.Disputes.Entity.{
  AuditAction, Dispute, dispute_keyed, evidence_keyed, ResolveDisputeDto,
}
use stellar_split.Disputes.Store.{
  Event, Store, Env, load_dispute, load_split, save_dispute, set_frozen, commit, emit,
  add_audit_trail,
}

-- The text of an empty object, `{}`.
abbrev empty_object : Text
empty_object = b'{' ∷ b'}' ∷ []

unfoldable pub mark_resolved : Env → ResolveDisputeDto → ℕ → Dispute → Dispute
mark_resolved env dto by d =
    add_audit_trail env (AuditAction.dispute_resolved dto.outcome (take 100 dto.resolution)) by
      (record d {
        status = resolved;
        resolution = some dto.resolution;
        resolved_by = some by;
        resolved_at = some env.now;
        split_frozen = false;
        resolution_outcome = some (record {
          outcome = dto.outcome;
          details = or_default dto.details empty_object;
          executed_at = env.now;
          transaction_hash = none;
        });
      })

-- Up to the commit.
unfoldable pub resolve_in_transaction : Env → ResolveDisputeDto → ℕ → Action Store Dispute
unfolding load_dispute load_split save_dispute set_frozen commit validate_transition
resolve_in_transaction env dto by = do
  d ← load_dispute dto.dispute_id
  validate_transition d.status resolved
  split ← load_split d.split_id
  d' ← save_dispute env 0 (mark_resolved env dto by d)
  set_frozen env 1 d.split_id false
  commit env 2
  return d'

-- The outcome with the hash of the transaction that executed it.
unfoldable pub with_transaction : Env → ResolveDisputeDto → ℕ → Dispute → Dispute
with_transaction env dto h d = record d {
  resolution_outcome = some (elim d.resolution_outcome [
    | none ↦ record {
      outcome = dto.outcome;
      details = or_default dto.details empty_object;
      executed_at = env.now;
      transaction_hash = some h;
    }
    | some o ↦ record o { transaction_hash = some h }
  ]);
}

-- The best-effort execution on the chain.
unfoldable pub execute_resolution : Env → ResolveDisputeDto → Dispute → Action Store Dispute
execute_resolution env dto d s = elim env.tx_hash [
  | none ↦ (ok d, s)
  | some h ↦
      let d' = with_transaction env dto h d in
      (ok d', if env.write 3 then record s { disputes = save_row d' s.disputes } else s)
]

unfoldable pub resolve_dispute : Env → ResolveDisputeDto → ℕ → Action Store Dispute
unfolding resolve_in_transaction execute_resolution emit
resolve_dispute env dto by = do
  d ← transaction (resolve_in_transaction env dto by)
  emit (Event.dispute_resolved d by dto.outcome dto.resolution)
  emit (Event.split_unfrozen d.split_id d.id)
  execute_resolution env dto d

unfoldable pub mark_rejected : Env → Text → ℕ → Dispute → Dispute
mark_rejected env reason by d =
    add_audit_trail env (AuditAction.dispute_rejected reason) by (record d {
      status = rejected;
      resolution = some reason;
      resolved_by = some by;
      resolved_at = some env.now;
      split_frozen = false;
    })

-- Up to the commit.
unfoldable pub reject_in_transaction : Env → ℕ → Text → ℕ → Action Store Dispute
unfolding load_dispute save_dispute set_frozen commit validate_transition
reject_in_transaction env i reason by = do
  d ← load_dispute i
  validate_transition d.status rejected
  d' ← save_dispute env 0 (mark_rejected env reason by d)
  set_frozen env 1 d.split_id false
  commit env 2
  return d'

unfoldable pub reject_dispute : Env → ℕ → Text → ℕ → Action Store Dispute
unfolding reject_in_transaction emit
reject_dispute env i reason by = do
  d ← transaction (reject_in_transaction env i reason by)
  emit (Event.dispute_rejected d by reason)
  emit (Event.split_unfrozen d.split_id d.id)
  return d
