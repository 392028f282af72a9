-- ===== src/Disputes/Atomicity.antt =====
-- What a call that fails leaves behind.
use stellar_split.Prelude.{ℕ, ◌≡◌, refl, ◌⊎◌, inr, false, arith}
use stellar_split.Entities.{split_keyed}
use stellar_split.Disputes.Entity.{dispute_keyed, evidence_keyed, AddEvidenceDto}
use stellar_split.Disputes.Store.{Store, Env}
use stellar_split.Disputes.Filing.{file_dispute}
use stellar_split.Disputes.Evidence.{add_evidence, request_more_evidence}
use stellar_split.Disputes.Review.{move_to_evidence_collection, submit_for_review}
use stellar_split.Disputes.Resolution.{resolve_dispute, reject_dispute}
use stellar_split.Disputes.Appeal.{appeal_dispute}
use stellar_split.Disputes.Service.{Call, perform}

-- A call that fails changes no dispute and no split and emits no event, also when the database fails
-- in the middle of a transaction; and except for `addEvidence` it leaves the whole store as it was.
pub perform_atomic :
    (env : Env) (c : Call) (s : Store)
    → (perform env c s).0 ≡ false
    → ((perform env c s).1.disputes ≡ s.disputes)
      × ((perform env c s).1.splits ≡ s.splits)
      × ((perform env c s).1.events ≡ s.events)
      × (((perform env c s).1 ≡ s)
          ⊎ ((dto : AddEvidenceDto) × (by : ℕ) × (c ≡ Call.evidence dto by)))
unfolding perform file_dispute add_evidence request_more_evidence move_to_evidence_collection
    submit_for_review resolve_dispute reject_dispute appeal_dispute
perform_atomic env (Call.file dto by) s h = ground arith
perform_atomic env (Call.evidence dto by) s h =
    (ground arith, ground arith, ground arith, inr (dto, by, refl))
perform_atomic env (Call.collect i by) s h = ground arith
perform_atomic env (Call.submit i by) s h = ground arith
perform_atomic env (Call.resolve dto by) s h = ground arith
perform_atomic env (Call.reject i reason by) s h = ground arith
perform_atomic env (Call.appeal i reason by) s h = ground arith
perform_atomic env (Call.request i text by) s h = ground arith
