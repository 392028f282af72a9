-- ===== src/Disputes/Store.antt =====
-- What the dispute service reads and writes: the three repositories, the emitted events in their
-- order, and what its environment answers in the course of one call.
use stellar_split.Prelude.{
  ℕ, Bool, Option, List, [], ◌∷◌, ◌++◌, some, not, Action, not_found, db_failure, or_throw, return,
  throw_if, modify, ◌>>◌, find_by_id, save_row, update_row,
}
use stellar_split.Entities.{Text, Split, split_keyed}
use stellar_split.Disputes.Entity.{
  Outcome, AuditAction, AuditTrailEntry, Dispute, DisputeEvidence, dispute_keyed, evidence_keyed,
  trail,
}

-- backend/src/disputes/dispute.events.ts; a dispute is recorded as it is when the event is emitted. The
-- times of events and the fixed reason texts of the split events are left out.
pub data Event : Type 0 where
  dispute_created : Dispute → ℕ → Event
  split_frozen : ℕ → ℕ → Event
  evidence_collection_started : Dispute → Event
  evidence_added : Dispute → DisputeEvidence → ℕ → Event
  dispute_under_review : Dispute → Event
  dispute_resolved : Dispute → ℕ → Outcome → Text → Event
  split_unfrozen : ℕ → ℕ → Event
  dispute_rejected : Dispute → ℕ → Text → Event
  dispute_appealed : Dispute → ℕ → Text → ℕ → Event
  more_evidence_requested : Dispute → ℕ → Text → Event

pub record Store : Type 0 where
  pub disputes : List Dispute
  pub evidence : List DisputeEvidence
  pub splits : List Split
  pub events : List Event

-- The clock, the identifier that the database generates for an inserted row, whether the n-th write or
-- commit of the call goes through, and the transaction hash of the blockchain client (`none` if it
-- throws).
pub record Env : Type 0 where
  pub now : ℕ
  pub new_id : ℕ
  pub write : ℕ → Bool
  pub tx_hash : Option ℕ

unfoldable pub load_dispute : ℕ → Action Store Dispute
load_dispute i s = or_throw (find_by_id i s.disputes) not_found s

unfoldable pub load_split : ℕ → Action Store Split
load_split i s = or_throw (find_by_id i s.splits) not_found s

unfoldable pub save_dispute : Env → ℕ → Dispute → Action Store Dispute
save_dispute env n d = do
  throw_if (not (env.write n)) db_failure
  modify (λ s. record s { disputes = save_row d s.disputes })
  return d

unfoldable pub save_evidence : Env → ℕ → DisputeEvidence → Action Store DisputeEvidence
save_evidence env n e = do
  throw_if (not (env.write n)) db_failure
  modify (λ s. record s { evidence = save_row e s.evidence })
  return e

-- `manager.update(Split, { id }, { isFrozen })`.
unfoldable pub set_frozen : Env → ℕ → ℕ → Bool → Action Store (Unit {0})
set_frozen env n i frozen = do
  throw_if (not (env.write n)) db_failure
  modify (λ s. record s { splits = update_row i (λ p. record p { is_frozen = frozen }) s.splits })

unfoldable pub commit : Env → ℕ → Action Store (Unit {0})
commit env n = throw_if (not (env.write n)) db_failure

unfoldable pub emit : Event → Action Store (Unit {0})
emit e = modify (λ s. record s { events = s.events ++ (e ∷ []) })

abbrev pub entry : Env → AuditAction → ℕ → AuditTrailEntry
entry env action by = record { action = action; performed_by = by; performed_at = env.now }

-- `addAuditTrail`.
unfoldable pub add_audit_trail : Env → AuditAction → ℕ → Dispute → Dispute
add_audit_trail env action by d = record d {
  audit_trail = some (trail d ++ (entry env action by ∷ []));
}
