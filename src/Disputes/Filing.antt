-- ===== src/Disputes/Filing.antt =====
-- `fileDispute` of backend/src/disputes/disputes.service.ts.
use stellar_split.Prelude.{
  ℕ, Bool, true, ◌&&◌, none, some, List, [], ◌∷◌, ◌==◌, if◌then◌else◌, is_some, find_where,
  save_row, conflict, ok, Action, return, gets, transaction, throw_if, ◌>>=◌, ◌>>◌,
}
use stellar_split.Entities.{split_keyed}
use stellar_split.Disputes.StateMachine.{
  DisputeStatus, open_, evidence_collection, under_review, includes,
}
use stellar_split.Disputes.Entity.{
  AuditAction, Dispute, dispute_keyed, evidence_keyed, FileDisputeDto,
}
use stellar_split.Disputes.Store.{
  Event, Store, Env, load_split, save_dispute, set_frozen, commit, emit, add_audit_trail,
}

-- The statuses that the search for an active dispute lists.
abbrev pub active_statuses : List DisputeStatus
active_statuses = open_ ∷ evidence_collection ∷ under_review ∷ []

-- `where: { splitId, status: In([...]) }`.
abbrev pub is_active_on : ℕ → Dispute → Bool
is_active_on split d = (d.split_id == split) && includes active_statuses d.status

-- The row that `create` makes; columns that it does not name have their defaults.
unfoldable pub new_dispute : Env → FileDisputeDto → ℕ → Dispute
unfolding add_audit_trail
new_dispute env dto by =
    add_audit_trail env (AuditAction.dispute_created dto.dispute_type dto.description) by (record {
      id = env.new_id;
      split_id = dto.split_id;
      raised_by = by;
      dispute_type = dto.dispute_type;
      description = dto.description;
      status = open_;
      evidence = some [];
      resolution = none;
      resolved_by = none;
      resolved_at = none;
      resolution_outcome = none;
      original_dispute_id = none;
      appeal_reason = none;
      appealed_at = none;
      audit_trail = some [];
      split_frozen = true;
      created_at = env.now;
    })

-- Up to the commit.
unfoldable pub file_in_transaction : Env → FileDisputeDto → ℕ → Action Store Dispute
unfolding load_split save_dispute set_frozen commit
file_in_transaction env dto by = do
  split ← load_split dto.split_id
  existing ← gets (λ s. find_where (is_active_on dto.split_id) s.disputes)
  throw_if (is_some existing) conflict
  d ← save_dispute env 0 (new_dispute env dto by)
  set_frozen env 1 dto.split_id true
  commit env 2
  return d

-- The best-effort freeze on the chain: its entry stays in the object also when the save fails.
unfoldable pub record_onchain_freeze : Env → ℕ → Dispute → Action Store Dispute
record_onchain_freeze env by d s = elim env.tx_hash [
  | none ↦ (ok d, s)
  | some h ↦
      let d' = add_audit_trail env (AuditAction.onchain_freeze h) by d in
      (ok d', if env.write 3 then record s { disputes = save_row d' s.disputes } else s)
]

unfoldable pub file_dispute : Env → FileDisputeDto → ℕ → Action Store Dispute
unfolding file_in_transaction record_onchain_freeze emit
file_dispute env dto by = do
  d ← transaction (file_in_transaction env dto by)
  d' ← record_onchain_freeze env by d
  emit (Event.dispute_created d' by)
  emit (Event.split_frozen dto.split_id d'.id)
  return d'
