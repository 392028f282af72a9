-- ===== src/Disputes/Service.antt =====
-- The calls of the dispute service that change state, as one type, and runs of them.
use stellar_split.Prelude.{ℕ, Bool, List, [], ◌∷◌, Result, is_ok}
use stellar_split.Entities.{Text, split_keyed}
use stellar_split.Disputes.Entity.{
  dispute_keyed, evidence_keyed, FileDisputeDto, AddEvidenceDto, ResolveDisputeDto,
}
use stellar_split.Disputes.Store.{Store, Env}
use stellar_split.Disputes.Filing.{file_dispute}
use stellar_split.Disputes.Evidence.{add_evidence, request_more_evidence}
use stellar_split.Disputes.Review.{move_to_evidence_collection, submit_for_review}
use stellar_split.Disputes.Resolution.{resolve_dispute, reject_dispute}
use stellar_split.Disputes.Appeal.{appeal_dispute}

pub data Call : Type 0 where
  file : FileDisputeDto → ℕ → Call
  evidence : AddEvidenceDto → ℕ → Call
  collect : ℕ → ℕ → Call
  submit : ℕ → ℕ → Call
  resolve : ResolveDisputeDto → ℕ → Call
  reject : ℕ → Text → ℕ → Call
  appeal : ℕ → Text → ℕ → Call
  request : ℕ → Text → ℕ → Call

-- Whether the call went through, and the store after it.
abbrev pub outcome_of : {A : Type 0} → Result A × Store → Bool × Store
outcome_of (r, s) = (is_ok r, s)

unfoldable pub perform : Env → Call → Store → Bool × Store
perform env (Call.file dto by) s = outcome_of (file_dispute env dto by s)
perform env (Call.evidence dto by) s = outcome_of (add_evidence env dto by s)
perform env (Call.collect i by) s = outcome_of (move_to_evidence_collection env i by s)
perform env (Call.submit i by) s = outcome_of (submit_for_review env i by s)
perform env (Call.resolve dto by) s = outcome_of (resolve_dispute env dto by s)
perform env (Call.reject i reason by) s = outcome_of (reject_dispute env i reason by s)
perform env (Call.appeal i reason by) s = outcome_of (appeal_dispute env i reason by s)
perform env (Call.request i text by) s = outcome_of (request_more_evidence env i text by s)

unfoldable pub perform_all : List (Env × Call) → Store → Store
perform_all [] s = s
perform_all ((env, c) ∷ cs) s = perform_all cs (perform env c s).1
