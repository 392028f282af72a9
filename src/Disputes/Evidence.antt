-- ===== src/Disputes/Evidence.antt =====
-- `addEvidence` and `requestMoreEvidence` of backend/src/disputes/disputes.service.ts.
use stellar_split.Prelude.{
  ℕ, not, Option, none, some, [], ◌∷◌, ◌++◌, if◌then◌else◌, or_default, take, bad_request, Action,
  return, throw_if, modify, ◌>>=◌, ◌>>◌,
}
use stellar_split.Entities.{Text, split_keyed}
use stellar_split.Disputes.StateMachine.{
  open_, evidence_collection, under_review, same_status, includes, allows_evidence_submission,
}
use stellar_split.Disputes.Entity.{
  AuditAction, EvidenceItem, Dispute, dispute_keyed, DisputeEvidence, evidence_keyed,
  AddEvidenceDto,
}
use stellar_split.Disputes.Store.{
  Event, Store, Env, load_dispute, save_dispute, save_evidence, emit, add_audit_trail,
}

-- `text || null`.
abbrev or_null : Option Text → Option Text
or_null none = none
or_null (some []) = none
or_null (some (c ∷ t)) = some (c ∷ t)

unfoldable pub new_evidence : Env → AddEvidenceDto → ℕ → DisputeEvidence
new_evidence env dto by = record {
  id = env.new_id;
  dispute_id = dto.dispute_id;
  uploaded_by = by;
  file_key = dto.file_key;
  file_name = dto.file_name;
  mime_type = dto.mime_type;
  size = dto.size;
  description = or_null dto.description;
  metadata = dto.metadata;
  created_at = env.now;
}

-- An open dispute moves on with its first evidence.
unfoldable pub start_collection : Env → ℕ → Dispute → Dispute
start_collection env by d =
    if same_status d.status open_
    then add_audit_trail env
        (AuditAction.status_changed_to_evidence_collection open_ evidence_collection) by
        (record d { status = evidence_collection })
    else d

-- What `addEvidence` does to the object before it saves it.
unfoldable pub attach_evidence : Env → AddEvidenceDto → ℕ → DisputeEvidence → Dispute → Dispute
unfolding start_collection
attach_evidence env dto by e d =
    let d' = start_collection env by d in
    let item : EvidenceItem = record {
      id = e.id;
      uploaded_by = by;
      uploaded_at = e.created_at;
      file_key = dto.file_key;
      file_name = dto.file_name;
      mime_type = dto.mime_type;
      size = dto.size;
    } in
    add_audit_trail env (AuditAction.evidence_added e.id dto.file_name dto.size) by
      (record d' { evidence = some (or_default d'.evidence [] ++ (item ∷ [])) })

unfoldable pub add_evidence : Env → AddEvidenceDto → ℕ → Action Store DisputeEvidence
unfolding load_dispute save_dispute save_evidence emit
add_evidence env dto by = do
  d ← load_dispute dto.dispute_id
  throw_if (not (allows_evidence_submission d.status)) bad_request
  e ← save_evidence env 0 (new_evidence env dto by)
  d' ← save_dispute env 1 (attach_evidence env dto by e d)
  modify (λ s.
      if same_status d'.status evidence_collection
      then record s { events = s.events ++ (Event.evidence_collection_started d' ∷ []) }
      else s)
  emit (Event.evidence_added d' e by)
  return e

unfoldable pub request_more_evidence : Env → ℕ → Text → ℕ → Action Store Dispute
unfolding load_dispute save_dispute emit
request_more_evidence env i request by = do
  d ← load_dispute i
  throw_if (not (includes (evidence_collection ∷ under_review ∷ []) d.status)) bad_request
  d' ←
      save_dispute env 0
        (add_audit_trail env (AuditAction.more_evidence_requested (take 100 request)) by d)
  emit (Event.more_evidence_requested d' by request)
  return d'
