-- ===== src/Batch/Retries.antt =====
-- Operations that wait for another try.
use stellar_split.Prelude.{
  ℕ, ◌⊎◌, ◌≡◌, ◌≢◌, refl, inl, inr, Bool, false, none, some, List, [], ◌∷◌, ◌++◌, arith, ◌==◌, All,
  select, find_by_id, update_row, Bool-cases, Option-cases, Distinct, find-update, ==→eq,
}
use stellar_split.Batch.Entity.{
  BatchOperationStatus, BatchJobType, BatchOptions, Payload, SplitPayload, PaymentPayload,
  job_keyed, BatchOperation, operation_keyed, Store, Env,
}
use stellar_split.Batch.Progress.{
  update_progress, mark_operation_started, mark_operation_completed, mark_operation_failed,
}
use stellar_split.Batch.Service.{
  change_where, is_retried, is_cancellable, create_batch, retry_failed_operations, cancel_batch,
  get_batch_status, has_none, none_found, is_over, is_split, new_operations, reset,
}
use stellar_split.Batch.Processing.{
  process_operation, process_all, validate_payload, insert_operation, by_index, is_due,
  handle_split_batch,
}
use stellar_split.Batch.Calls.{Call, perform}

pub payload_cases :
    (p : Payload)
    → ((q : SplitPayload) × (p ≡ Payload.split q))
      ⊎ ((q : PaymentPayload) × (p ≡ Payload.payment q))
payload_cases (Payload.split q) = inl (q, refl)
payload_cases (Payload.payment q) = inr (q, refl)

module _ (i : ℕ) (r : BatchOperation) where
  abbrev pub Holds : Store → Type 0
  Holds s = find_by_id i s.operations ≡ some r

  pub update_progress-Holds : (now j : ℕ) (s : Store) → Holds s → Holds (update_progress now j s)
  unfolding update_progress
  update_progress-Holds now j s h = elim (Option-cases (find_by_id j s.jobs)) [
    | inl e ↦ rw (update_progress, e) h
    | inr (b, e) ↦ rw (update_progress, e) h
  ]

  -- A write to another row.
  other_row :
      (f : BatchOperation → BatchOperation) (j : ℕ) (s : Store)
      → ((o : BatchOperation) → (f o).id ≡ o.id)
      → j ≢ i
      → Holds s
      → find_by_id i (update_row j f s.operations) ≡ some r
  other_row f j s same other h = elim (Bool-cases (j == i)) [
    | inl e ↦ absurd (other (==→eq j i e))
    | inr e ↦ ground (arith, find-update j i f s.operations same)
  ]

  started-Holds : (now j : ℕ) (s : Store) → j ≢ i → Holds s → Holds (mark_operation_started now j s)
  unfolding mark_operation_started
  started-Holds now j s other h = other_row _ j s (λ o. refl) other h

  completed-Holds :
      (now j x : ℕ) (s : Store) → j ≢ i → Holds s → Holds (mark_operation_completed now j x s)
  unfolding mark_operation_completed
  completed-Holds now j x s other h = elim (Option-cases (find_by_id j s.operations)) [
    | inl e ↦ rw (mark_operation_completed, e) h
    | inr (o, e) ↦
        rw (mark_operation_completed, e)
          (update_progress-Holds now o.batch_id _ (other_row _ j s (λ o. refl) other h))
  ]

  failed-Holds : (now j : ℕ) (s : Store) → j ≢ i → Holds s → Holds (mark_operation_failed now j s)
  unfolding mark_operation_failed
  failed-Holds now j s other h = elim (Option-cases (find_by_id j s.operations)) [
    | inl e ↦ rw (mark_operation_failed, e) h
    | inr (o, e) ↦
        rw (mark_operation_failed, e)
          (update_progress-Holds now o.batch_id _ (other_row _ j s (λ o. refl) other h))
  ]

  pub process-Holds :
      (env : Env) (o : BatchOperation) (s : Store)
      → o.id ≢ i
      → Holds s
      → Holds (process_operation env o s)
  unfolding process_operation
  process-Holds env o s other h =
      let begun = mark_operation_started env.now o.id s in
      let there = started-Holds env.now o.id s other h in
      let failing = failed-Holds env.now o.id begun other there in
      elim (payload_cases o.payload) [
        | inr (q, e) ↦ rw (process_operation, e) failing
        | inl (q, e) ↦ elim (Bool-cases (validate_payload env q)) [
          | inr bad ↦ rw (process_operation, e, bad) failing
          | inl good ↦ elim (Option-cases (env.create_split o.id)) [
            | inl no_split ↦ rw (process_operation, e, good, no_split) failing
            | inr (x, made) ↦
                rw (process_operation, e, good, made)
                  (completed-Holds env.now o.id x begun other there)
          ]
        ]
      ]

  pub process_all-Holds :
      (env : Env) (os : List BatchOperation) (s : Store)
      → All (λ o. o.id ≢ i) os
      → Holds s
      → Holds (process_all env os s)
  unfolding process_all
  process_all-Holds env [] s others h = h
  process_all-Holds env (o ∷ os) s others h =
      process_all-Holds env os (process_operation env o s) others.1
        (process-Holds env o s others.0 h)

  insert-others :
      (o : BatchOperation) (os : List BatchOperation)
      → o.id ≢ i
      → All (λ x. x.id ≢ i) os
      → All (λ x. x.id ≢ i) (insert_operation o os)
  unfolding insert_operation
  insert-others o [] h hs = (h, tt)
  insert-others o (p ∷ ps) h hs = ground (arith, insert-others o ps h hs.1)

  pub by_index-others :
      (os : List BatchOperation) → All (λ x. x.id ≢ i) os → All (λ x. x.id ≢ i) (by_index os)
  unfolding by_index
  by_index-others [] hs = tt
  by_index-others (o ∷ os) (h, hs) = insert-others o (by_index os) h (by_index-others os hs)

  -- Changes by a condition that the row does not meet.
  change-Holds :
      (p : BatchOperation → Bool) (f : BatchOperation → BatchOperation) (os : List BatchOperation)
      → ((o : BatchOperation) → (f o).id ≡ o.id)
      → p r ≡ false
      → find_by_id i os ≡ some r
      → find_by_id i (change_where p f os) ≡ some r
  unfolding change_where find_by_id
  change-Holds p f [] same out h = h
  change-Holds p f (o ∷ os) same out h = ground (arith, same o, change-Holds p f os same out)

  append-Holds :
      (os new : List BatchOperation) → find_by_id i os ≡ some r → find_by_id i (os ++ new) ≡ some r
  unfolding find_by_id
  append-Holds [] new h = cc
  append-Holds (o ∷ os) new h = ground (arith, append-Holds os new)

pub others_of_none :
    (i j : ℕ) (os : List BatchOperation)
    → find_by_id i os ≡ none
    → All (λ (o : BatchOperation). o.id ≢ i) (select (is_due j) os)
unfolding find_by_id
others_of_none i j [] e = tt
others_of_none i j (o ∷ os) e = ground (arith, others_of_none i j os)

-- No row of the identifier but the one that is found.
pub none_due :
    (i j : ℕ) (r : BatchOperation) (os : List BatchOperation)
    → Distinct os
    → find_by_id i os ≡ some r
    → is_due j r ≡ false
    → All (λ (o : BatchOperation). o.id ≢ i) (select (is_due j) os)
unfolding find_by_id
none_due i j r [] d h out = tt
none_due i j r (o ∷ os) d h out = ground (arith, none_due i j r os d.1, others_of_none i j os)

status_keeps : (i : ℕ) (s : Store) → (get_batch_status i s).1 ≡ s
unfolding get_batch_status
status_keeps i s = ground arith

module _ (env : Env) (s : Store) (i : ℕ) (r : BatchOperation)
    (h : find_by_id i s.operations ≡ some r)
    (waits : r.status ≡ BatchOperationStatus.retrying) where
  create_keeps :
      (type : BatchJobType) (payloads : List Payload) (options : BatchOptions)
      → find_by_id i (create_batch env type payloads options s).1.operations ≡ some r
  unfolding create_batch
  create_keeps type payloads options = elim (Bool-cases (has_none payloads)) [
    | inl empty ↦ rw empty h
    | inr some_there ↦
        let there = append-Holds i r s.operations (new_operations env 0 payloads) h in
        elim (Bool-cases (is_split type)) [
          | inl k ↦ rw (some_there, status_keeps, k) there
          | inr k ↦ rw (some_there, status_keeps, k) there
        ]
  ]

  retry_keeps :
      (j : ℕ) (ids : List ℕ)
      → find_by_id i (retry_failed_operations env j ids s).1.operations ≡ some r
  unfolding retry_failed_operations
  retry_keeps j ids = elim (Option-cases (find_by_id j s.jobs)) [
    | inl e ↦ rw e h
    | inr (b, e) ↦ elim (Bool-cases (none_found (select (is_retried j ids) s.operations))) [
      | inl none_there ↦ rw (e, none_there) h
      | inr some_there ↦
          let out : is_retried j ids r ≡ false = rw waits (ground arith) in
          let there = change-Holds i r (is_retried j ids) reset s.operations (λ o. refl) out h in
          elim (Bool-cases (is_split b.type)) [
            | inl k ↦ rw (e, some_there, status_keeps, k) there
            | inr k ↦ rw (e, some_there, status_keeps, k) there
          ]
    ]
  ]

  cancel_keeps : (j : ℕ) → find_by_id i (cancel_batch env j s).1.operations ≡ some r
  unfolding cancel_batch
  cancel_keeps j = elim (Option-cases (find_by_id j s.jobs)) [
    | inl e ↦ rw e h
    | inr (b, e) ↦ elim (Bool-cases (is_over b.status)) [
      | inl over ↦ rw (e, over) h
      | inr going ↦
          let out : is_cancellable j r ≡ false = rw waits (ground arith) in
          let there =
            change-Holds i r (is_cancellable j)
              (λ o. record o {
                status = BatchOperationStatus.cancelled;
                completed_at = some env.now;
              })
              s.operations (λ o. refl) out h in
          elim (Bool-cases (is_split b.type)) [
            | inl k ↦ rw (e, going, status_keeps, k) there
            | inr k ↦ rw (e, going, status_keeps, k) there
          ]
    ]
  ]

-- A failed operation that is to be tried again never is: once it waits for another try, it stays as it
-- is under every call of the batch service and every run of the processor, whatever their outcome.
-- Operations' identifiers must be distinct.
pub perform_keeps_retrying :
    (env : Env) (c : Call) (s : Store) (i : ℕ) (r : BatchOperation)
    → Distinct s.operations
    → find_by_id i s.operations ≡ some r
    → r.status ≡ BatchOperationStatus.retrying
    → find_by_id i (perform env c s).1.operations ≡ some r
unfolding perform handle_split_batch
perform_keeps_retrying env (Call.create type payloads options) s i r d h waits =
    create_keeps env s i r h waits type payloads options
perform_keeps_retrying env (Call.retry j ids) s i r d h waits = retry_keeps env s i r h waits j ids
perform_keeps_retrying env (Call.cancel j) s i r d h waits = cancel_keeps env s i r h waits j
perform_keeps_retrying env (Call.run j) s i r d h waits =
    let out : is_due j r ≡ false = rw waits (ground arith) in
    process_all-Holds i r env (by_index (select (is_due j) s.operations)) _
      (by_index-others i r _ (none_due i j r s.operations d h out)) h
