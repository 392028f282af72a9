-- ===== src/Batch/Examples.antt =====
-- A batch of two splits, of which one cannot be made at first.
use stellar_split.Prelude.{
  ℕ, ◌≡◌, refl, true, false, none, some, [], ◌∷◌, ◌==◌, if◌then◌else◌, Option, find_by_id, save_row,
  update_row,
}
use stellar_split.Prelude.Ints.{pos, ◌+ℤ◌, ◌-ℤ◌}
use stellar_split.Batch.Entity.{
  BatchJobType, BatchJobStatus, BatchOperationStatus, BatchOptions, Payload, job_keyed,
  BatchOperation, operation_keyed, Store, Env,
}
use stellar_split.Batch.Progress.{
  operations_of, progressed, update_progress, mark_operation_started, mark_operation_completed,
  mark_operation_failed, failed_once, retry_attempts,
}
use stellar_split.Batch.Service.{
  create_batch, new_batch, new_operations, queue_job, on_queue, get_batch_status, cancel_batch,
  change_where,
}
use stellar_split.Batch.Processing.{
  sum_amounts, validate_payload, process_operation, process_all, insert_operation, by_index,
  handle_split_batch,
}
use stellar_split.Batch.Calls.{Call, perform}
use stellar_split.Batch.Retries.{perform_keeps_retrying}
use stellar_split.Batch.Verdicts.{AfterRun, handle_split_batch_decides}

abbrev options : BatchOptions
options = record {
  chunk_size = none;
  priority = none;
  delay = none;
  concurrency = none;
  retry_attempts = none;
}

abbrev env : Env
env = record {
  now = 100;
  new_batch_id = 7;
  new_operation_id = λ k. k;
  default_chunk_size = 100;
  default_concurrency = 5;
  add_job = λ j js. j ∷ js;
  remove_job = λ i js. [];
  create_split = λ i. if i == 0 then some 50 else none;
  within_cent = λ p. false;
}

-- From now on every split can be made.
abbrev recovered : Env
recovered = record env { now = 200; create_split = λ i. some 51 }

abbrev coffee : Payload
coffee = Payload.split (record {
  total_amount = pos 300;
  participants = record { user_id = []; amount = pos 300 } ∷ [];
})

abbrev empty : Store
empty = record { jobs = []; operations = []; split_queue = []; payment_queue = []; events = [] }

abbrev created : Store
created =
    (perform env (Call.create BatchJobType.split_creation (coffee ∷ coffee ∷ []) options) empty).1

abbrev first_run : Store
first_run = (perform env (Call.run 7) created).1

abbrev status_at : ℕ → Store → Option BatchOperationStatus
status_at i s = elim (find_by_id i s.operations) [ none ↦ none | some o ↦ some o.status ]

abbrev batch_status : Store → Option BatchJobStatus
batch_status s = elim (find_by_id 7 s.jobs) [ none ↦ none | some b ↦ some b.status ]

-- The second operation waits, and the batch goes on for ever.
first_run_test :
    (status_at 0 first_run ≡ some BatchOperationStatus.completed)
    × (status_at 1 first_run ≡ some BatchOperationStatus.retrying)
    × (batch_status first_run ≡ some BatchJobStatus.processing)
unfolding find_by_id save_row update_row operations_of progressed update_progress
    mark_operation_started mark_operation_completed mark_operation_failed failed_once retry_attempts
    create_batch new_batch new_operations queue_job on_queue get_batch_status sum_amounts
    validate_payload process_operation process_all insert_operation by_index handle_split_batch
    perform ◌+ℤ◌ ◌-ℤ◌
first_run_test = (refl, refl, refl)

-- An operation that ends after the batch has been cancelled takes the cancellation back.
uncancelled_test :
    batch_status (
      mark_operation_completed 300 0 50
        (mark_operation_completed 300 1 50 (perform env (Call.cancel 7) created).1))
    ≡ some BatchJobStatus.completed
unfolding find_by_id save_row update_row operations_of progressed update_progress
    mark_operation_completed create_batch new_batch new_operations queue_job on_queue
    get_batch_status cancel_batch change_where perform
uncancelled_test = refl

abbrev waiting : BatchOperation
waiting = record {
  id = 1;
  batch_id = 7;
  operation_index = 1;
  status = BatchOperationStatus.retrying;
  payload = coffee;
  result = none;
  has_error = true;
  retry_count = 1;
  started_at = some 100;
  completed_at = none;
}

perform_keeps_retrying_example :
    find_by_id 1 (perform recovered (Call.run 7) first_run).1.operations ≡ some waiting
unfolding find_by_id save_row update_row operations_of progressed update_progress
    mark_operation_started mark_operation_completed mark_operation_failed failed_once retry_attempts
    create_batch new_batch new_operations queue_job on_queue get_batch_status sum_amounts
    validate_payload process_operation process_all insert_operation by_index handle_split_batch
    perform ◌+ℤ◌ ◌-ℤ◌
perform_keeps_retrying_example =
    perform_keeps_retrying recovered (Call.run 7) first_run 1 waiting (refl, (refl, tt)) refl refl

abbrev second : BatchOperation
second = record waiting {
  status = BatchOperationStatus.pending;
  has_error = false;
  retry_count = 0;
  started_at = none;
}

handle_split_batch_decides_example : AfterRun true env 1 second (handle_split_batch env 7 created)
unfolding find_by_id save_row create_batch new_batch new_operations queue_job on_queue
    get_batch_status perform
handle_split_batch_decides_example =
    handle_split_batch_decides env 7 1 created second (refl, (refl, tt)) refl
