-- ===== src/Batch/Progress.antt =====
-- backend/src/batch/batch-progress.service.ts.
use stellar_split.Prelude.{
  ℕ, ◌+◌, ◌-◌, ◌*◌, ◌/◌, Bool, true, false, ◌&&◌, Option, none, some, List, [], ◌∷◌, ◌++◌, ltb,
  ◌==◌, if◌then◌else◌, or_default, count, select, find_by_id, save_row, update_row,
}
use stellar_split.Batch.Entity.{
  BatchJobStatus, BatchOperationStatus, BatchJob, job_keyed, BatchOperation, operation_keyed, Store,
  is_processing, is_completed, is_failed,
}

abbrev pub is_waiting : BatchJobStatus → Bool
is_waiting BatchJobStatus.pending = true
is_waiting _ = false

unfoldable pub operations_of : ℕ → List BatchOperation → List BatchOperation
operations_of i operations = select (λ o. o.batch_id == i) operations

-- `Math.round((completed / total) * 100)`; a batch has an operation.
abbrev pub percent_of : ℕ → ℕ → ℕ
percent_of completed total = (2 * (completed * 100) + total) / (2 * total)

-- The new counts, and the status that they give.
unfoldable pub progressed : ℕ → List BatchOperation → BatchJob → BatchJob
progressed now operations batch =
    let completed = count (λ o. is_completed o.status) operations in
    let failed = count (λ o. is_failed o.status) operations in
    let processing = count (λ o. is_processing o.status) operations in
    let counted : BatchJob = record batch {
      completed_operations = completed;
      failed_operations = failed;
      progress = percent_of completed batch.total_operations;
    } in
    if completed + failed == batch.total_operations
    then record counted {
      status =
          if failed == 0
          then BatchJobStatus.completed
          else if completed == 0
          then BatchJobStatus.failed
          else BatchJobStatus.partial;
      completed_at = some now;
    }
    else if ltb 0 processing && is_waiting batch.status
    then record counted {
      status = BatchJobStatus.processing;
      started_at = some (or_default batch.started_at now);
    }
    else counted

unfoldable pub update_progress : ℕ → ℕ → Store → Store
unfolding progressed operations_of
update_progress now i s = elim (find_by_id i s.jobs) [
  | none ↦ s
  | some batch ↦
      let batch' = progressed now (operations_of i s.operations) batch in
      record s { jobs = save_row batch' s.jobs; events = s.events ++ (batch' ∷ []) }
]

unfoldable pub mark_operation_started : ℕ → ℕ → Store → Store
mark_operation_started now i s = record s {
  operations =
      update_row i
        (λ o. record o { status = BatchOperationStatus.processing; started_at = some now })
        s.operations;
}

unfoldable pub mark_operation_completed : ℕ → ℕ → ℕ → Store → Store
unfolding update_progress
mark_operation_completed now i result s = elim (find_by_id i s.operations) [
  | none ↦ s
  | some operation ↦ update_progress now operation.batch_id (record s {
    operations =
        update_row i
          (λ o. record o {
            status = BatchOperationStatus.completed;
            result = some result;
            completed_at = some now;
          })
          s.operations;
  })
]

-- `options?.retryAttempts || 5`.
unfoldable pub retry_attempts : Option BatchJob → ℕ
retry_attempts none = 5
retry_attempts (some batch) = elim batch.options.retry_attempts [
  | none ↦ 5
  | some n ↦ if n == 0 then 5 else n
]

-- One more try is counted; the last one allowed fails the operation.
unfoldable pub failed_once : ℕ → ℕ → BatchOperation → BatchOperation
failed_once now attempts o =
    let again = ltb (o.retry_count + 1) attempts in
    record o {
      status = if again then BatchOperationStatus.retrying else BatchOperationStatus.failed;
      has_error = true;
      retry_count = o.retry_count + 1;
      completed_at = if again then o.completed_at else some now;
    }

unfoldable pub mark_operation_failed : ℕ → ℕ → Store → Store
unfolding update_progress failed_once retry_attempts
mark_operation_failed now i s = elim (find_by_id i s.operations) [
  | none ↦ s
  | some operation ↦
      let attempts = retry_attempts (find_by_id operation.batch_id s.jobs) in
      update_progress now operation.batch_id
        (record s { operations = update_row i (failed_once now attempts) s.operations })
]

-- Milliseconds; none before the start and before the first completion. No time has run out: then 0.
unfoldable pub calculate_eta : ℕ → BatchJob → Option ℕ
calculate_eta now batch = elim batch.started_at [
  | none ↦ none
  | some started ↦
      if batch.completed_operations == 0
      then none
      else let remaining = batch.total_operations - batch.completed_operations in
        some (
          (2 * (remaining * (now - started)) + batch.completed_operations)
          / (2 * batch.completed_operations))
]
