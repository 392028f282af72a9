-- ===== src/Disputes/Examples.antt =====
-- The theorems on disputes at concrete stores, and runs of the service.
use stellar_split.Prelude.{
  ℕ, ◌≡◌, refl, ◌⊎◌, Bool, true, false, not, Option, none, some, List, [], ◌∷◌, ◌==◌, All,
  find_where, find_by_id, save_row, update_row, is_ok,
}
use stellar_split.Entities.{Split, split_keyed}
use stellar_split.Disputes.StateMachine.{DisputeStatus, under_review, rejected, appealed}
use stellar_split.Disputes.Entity.{
  DisputeType, Outcome, Dispute, dispute_keyed, evidence_keyed, FileDisputeDto, AddEvidenceDto,
  ResolveDisputeDto,
}
use stellar_split.Disputes.Store.{Store, Env, add_audit_trail}
use stellar_split.Entities.{SplitStatus}
use stellar_split.Disputes.StateMachine.{can_transition}
use stellar_split.Disputes.Filing.{new_dispute, file_dispute}
use stellar_split.Disputes.Review.{
  move_to_evidence_collection, submit_for_review, mark_collecting, mark_submitted,
}
use stellar_split.Disputes.Resolution.{resolve_dispute, reject_dispute, mark_rejected}
use stellar_split.Disputes.Appeal.{appeal_dispute, mark_appealed}
use stellar_split.Disputes.Service.{Call, perform, perform_all}
use stellar_split.Disputes.Marks.{Tracked}
use stellar_split.Disputes.Evolution.{perform-Tracked}
use stellar_split.Disputes.Freezing.{HoldsFreeze, perform_all-HoldsFreeze}
use stellar_split.Disputes.Atomicity.{perform_atomic}
use stellar_split.Disputes.Uniqueness.{
  active_count, frozen_at, file_dispute_unique, second_dispute_during_appeal,
}

abbrev env : Env
env = record { now = 5_000_000; new_id = 9; write = λ n. true; tx_hash = none }

-- The second write fails.
abbrev env_down : Env
env_down = record { now = 5_000_000; new_id = 9; write = λ n. not (n == 1); tx_hash = none }

abbrev split : Split
split = record {
  id = 1;
  total_amount = 9000;
  amount_paid = 0;
  status = SplitStatus.active;
  is_frozen = true;
  created_at = 0;
  due_date = none;
  expiry_date = none;
}

abbrev dispute_in : DisputeStatus → Bool → Dispute
dispute_in status frozen = record {
  id = 4;
  split_id = 1;
  raised_by = 70;
  dispute_type = DisputeType.other;
  description = 120 ∷ [];
  status = status;
  evidence = some [];
  resolution = none;
  resolved_by = none;
  resolved_at = some 1_000_000;
  resolution_outcome = none;
  original_dispute_id = none;
  appeal_reason = none;
  appealed_at = none;
  audit_trail = some [];
  split_frozen = frozen;
  created_at = 0;
}

abbrev store_in : DisputeStatus → Bool → Store
store_in status frozen = record {
  disputes = dispute_in status frozen ∷ [];
  evidence = [];
  splits = split ∷ [];
  events = [];
}

abbrev empty : Store
empty = record { disputes = []; evidence = []; splits = split ∷ []; events = [] }

abbrev filing : FileDisputeDto
filing = record { split_id = 1; dispute_type = DisputeType.wrong_items; description = 97 ∷ 98 ∷ [] }

abbrev decision : ResolveDisputeDto
decision = record {
  dispute_id = 4;
  outcome = Outcome.refund;
  resolution = 111 ∷ [];
  details = none;
}

-- From filing to an appeal that is under review again.
abbrev life : List (Env × Call)
life =
    (env, Call.file filing 70)
    ∷ (env, Call.collect 9 70)
    ∷ (env, Call.submit 9 5)
    ∷ (env, Call.reject 9 (110 ∷ []) 5)
    ∷ (env, Call.appeal 9 (119 ∷ []) 70)
    ∷ (env, Call.submit 9 5)
    ∷ []

status_at : ℕ → Store → Option DisputeStatus
status_at i s = elim (find_by_id i s.disputes) [ none ↦ none | some d ↦ some d.status ]

life_ends_under_review : status_at 9 (perform_all life empty) ≡ some under_review
unfolding status_at perform_all perform file_dispute new_dispute move_to_evidence_collection
    submit_for_review reject_dispute appeal_dispute mark_collecting mark_submitted mark_rejected
    mark_appealed add_audit_trail can_transition find_by_id save_row update_row find_where
life_ends_under_review = refl

perform-Tracked_example :
    let s = store_in under_review true in
    Tracked
      (find_by_id 4 s.disputes)
      (find_by_id 4 (perform env (Call.resolve decision 5) s).1.disputes)
unfolding find_by_id
perform-Tracked_example =
    perform-Tracked env (Call.resolve decision 5) (store_in under_review true) 4 refl

perform_all-HoldsFreeze_example : All HoldsFreeze (perform_all life empty).disputes
perform_all-HoldsFreeze_example = perform_all-HoldsFreeze life empty tt

perform_atomic_example :
    let s = store_in under_review true in
    let s' = (perform env_down (Call.resolve decision 5) s).1 in
    (s'.disputes ≡ s.disputes)
    × (s'.splits ≡ s.splits)
    × (s'.events ≡ s.events)
    × ((s' ≡ s)
        ⊎ ((dto : AddEvidenceDto) × (by : ℕ) × (Call.resolve decision 5 ≡ Call.evidence dto by)))
unfolding perform resolve_dispute can_transition find_by_id
perform_atomic_example =
    perform_atomic env_down (Call.resolve decision 5) (store_in under_review true) refl

file_dispute_unique_example :
    let s' = (file_dispute env filing 70 (store_in rejected false)).1 in
    (active_count 1 s' ≡ 1) × (frozen_at 1 s' ≡ some true)
unfolding file_dispute find_by_id find_where
file_dispute_unique_example =
    file_dispute_unique env filing 70 (store_in rejected false) 1 refl refl

-- The freeze goes to the chain.
abbrev env_chain : Env
env_chain = record env { tx_hash = some 44 }

second_dispute_during_appeal_example :
    let filed = file_dispute env_chain filing 71 (store_in appealed true) in
    let submitted = submit_for_review env 4 5 filed.1 in
    (is_ok filed.0 ≡ true) × (is_ok submitted.0 ≡ true) × (active_count 1 submitted.1 ≡ 2)
unfolding find_by_id find_where
second_dispute_during_appeal_example =
    second_dispute_during_appeal env_chain env filing 71 5 (store_in appealed true)
      (dispute_in appealed true) split refl refl refl refl refl refl (refl, refl, refl, refl)
