-- ===== src/Batch/Service.antt =====
-- backend/src/batch/batch.service.ts.
use stellar_split.Prelude.{
  ℕ, ◌+◌, ◌-◌, ◌*◌, Bool, true, false, ◌&&◌, ◌||◌, Option, none, some, List, [], ◌∷◌, ◌++◌, ◌==◌,
  if◌then◌else◌, length, take, drop, select, find_by_id, save_row, not_found, bad_request, Action,
  return, gets, or_throw, throw_if, modify, ◌>>=◌, ◌>>◌,
}
use stellar_split.Batch.Entity.{
  BatchJobType, BatchJobStatus, BatchOperationStatus, BatchOptions, Payload, BatchJob, job_keyed,
  BatchOperation, operation_keyed, QueueJob, Store, Env, is_pending, is_processing, is_failed,
}
use stellar_split.Batch.Progress.{operations_of}

abbrev pub is_split : BatchJobType → Bool
is_split BatchJobType.split_creation = true
is_split _ = false

-- `value || fallback` of a number.
abbrev pub or_nonzero : Option ℕ → ℕ → ℕ
or_nonzero none d = d
or_nonzero (some n) d = if n == 0 then d else n

unfoldable pub queue_job : Env → BatchJob → Option ℕ → Option ℕ → QueueJob
queue_job env batch priority delay = record {
  batch_id = batch.id;
  chunk_size = or_nonzero batch.options.chunk_size env.default_chunk_size;
  concurrency = or_nonzero batch.options.concurrency env.default_concurrency;
  priority = priority;
  delay = delay;
}

-- The queue of the batch's type: anything but splits goes to the payments.
unfoldable pub on_queue : (List QueueJob → List QueueJob) → BatchJob → Store → Store
on_queue f batch s =
    if is_split batch.type
    then record s { split_queue = f s.split_queue }
    else record s { payment_queue = f s.payment_queue }

unfoldable pub new_batch : Env → BatchJobType → ℕ → BatchOptions → BatchJob
new_batch env type total options = record {
  id = env.new_batch_id;
  type = type;
  status = BatchJobStatus.pending;
  total_operations = total;
  completed_operations = 0;
  failed_operations = 0;
  progress = 0;
  options = options;
  has_error = false;
  started_at = none;
  completed_at = none;
  created_at = env.now;
}

-- The operations of the payloads from index `k` on.
unfoldable pub new_operations : Env → ℕ → List Payload → List BatchOperation
new_operations env k [] = []
new_operations env k (p ∷ ps) =
    record {
      id = env.new_operation_id k;
      batch_id = env.new_batch_id;
      operation_index = k;
      status = BatchOperationStatus.pending;
      payload = p;
      result = none;
      has_error = false;
      retry_count = 0;
      started_at = none;
      completed_at = none;
    }
    ∷ new_operations env (k + 1) ps

abbrev pub has_none : List Payload → Bool
has_none [] = true
has_none (p ∷ ps) = false

-- The batch and its operations; the order of these is the database's.
unfoldable pub get_batch_status : ℕ → Action Store (BatchJob × List BatchOperation)
unfolding operations_of
get_batch_status i = do
  found ← gets (λ s. find_by_id i s.jobs)
  batch ← or_throw found not_found
  operations ← gets (λ s. operations_of i s.operations)
  return (batch, operations)

-- `createBatchSplits` and `createBatchPayments`, by the type.
unfoldable pub create_batch :
    Env → BatchJobType → List Payload → BatchOptions → Action Store (BatchJob × List BatchOperation)
unfolding new_batch new_operations queue_job on_queue get_batch_status
create_batch env type payloads options = do
  throw_if (has_none payloads) bad_request
  modify (λ s.
      let batch = new_batch env type (length payloads) options in
      on_queue (env.add_job (queue_job env batch options.priority options.delay)) batch (record s {
        jobs = save_row batch s.jobs;
        operations = s.operations ++ new_operations env 0 payloads;
      }))
  get_batch_status env.new_batch_id

abbrev pub is_listed : List ℕ → ℕ → Bool
is_listed [] i = false
is_listed (j ∷ js) i = if j == i then true else is_listed js i

-- `operationIds && operationIds.length > 0`.
abbrev pub is_chosen : List ℕ → ℕ → Bool
is_chosen [] i = true
is_chosen (j ∷ js) i = is_listed (j ∷ js) i

abbrev pub is_retried : ℕ → List ℕ → BatchOperation → Bool
is_retried i ids o = (o.batch_id == i) && is_failed o.status && is_chosen ids o.id

-- A change of the operations that pass a test.
unfoldable pub change_where :
    (BatchOperation → Bool)
    → (BatchOperation → BatchOperation)
    → List BatchOperation
    → List BatchOperation
change_where p f [] = []
change_where p f (o ∷ os) = (if p o then f o else o) ∷ change_where p f os

abbrev pub reset : BatchOperation → BatchOperation
reset o = record o { status = BatchOperationStatus.pending; has_error = false }

abbrev pub none_found : List BatchOperation → Bool
none_found [] = true
none_found (o ∷ os) = false

unfoldable pub retry_failed_operations :
    Env → ℕ → List ℕ → Action Store (BatchJob × List BatchOperation)
unfolding change_where queue_job on_queue get_batch_status
retry_failed_operations env i ids = do
  found ← gets (λ s. find_by_id i s.jobs)
  batch ← or_throw found not_found
  failed ← gets (λ s. select (is_retried i ids) s.operations)
  throw_if (none_found failed) bad_request
  modify (λ s.
      let batch' : BatchJob = record batch { status = BatchJobStatus.pending; has_error = false } in
      on_queue (env.add_job (queue_job env batch' none none)) batch' (record s {
        operations = change_where (is_retried i ids) reset s.operations;
        jobs = save_row batch' s.jobs;
      }))
  get_batch_status i

abbrev pub is_over : BatchJobStatus → Bool
is_over BatchJobStatus.completed = true
is_over BatchJobStatus.failed = true
is_over _ = false

abbrev pub is_cancellable : ℕ → BatchOperation → Bool
is_cancellable i o = (o.batch_id == i) && (is_pending o.status || is_processing o.status)

unfoldable pub cancel_batch : Env → ℕ → Action Store (BatchJob × List BatchOperation)
unfolding change_where on_queue get_batch_status
cancel_batch env i = do
  found ← gets (λ s. find_by_id i s.jobs)
  batch ← or_throw found not_found
  throw_if (is_over batch.status) bad_request
  modify (λ s.
      let cancel = λ (o : BatchOperation). record o {
        status = BatchOperationStatus.cancelled;
        completed_at = some env.now;
      } in
      on_queue (env.remove_job i) batch (record s {
        operations = change_where (is_cancellable i) cancel s.operations;
        jobs =
            save_row
              (record batch { status = BatchJobStatus.cancelled; completed_at = some env.now })
              s.jobs;
      }))
  get_batch_status i

abbrev pub same_status : BatchJobStatus → BatchJobStatus → Bool
same_status BatchJobStatus.pending BatchJobStatus.pending = true
same_status BatchJobStatus.processing BatchJobStatus.processing = true
same_status BatchJobStatus.completed BatchJobStatus.completed = true
same_status BatchJobStatus.failed BatchJobStatus.failed = true
same_status BatchJobStatus.cancelled BatchJobStatus.cancelled = true
same_status BatchJobStatus.partial BatchJobStatus.partial = true
same_status _ _ = false

-- One page, and how many there are; `order` is the newest first, as the database sorts.
unfoldable pub list_batches :
    (List BatchJob → List BatchJob)
    → ℕ
    → ℕ
    → Option BatchJobStatus
    → Action Store (List BatchJob × ℕ)
list_batches order page limit status = gets (λ s.
    let rows =
      order (select (λ b. elim status [ none ↦ true | some t ↦ same_status b.status t ]) s.jobs) in
    (take limit (drop ((page - 1) * limit) rows), length rows))
