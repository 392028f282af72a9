-- ===== src/Batch/Verdicts.antt =====
-- What a run of the processor makes of each operation of its batch.
use stellar_split.Prelude.{
  ℕ, ◌⊎◌, ◌≡◌, ◌≢◌, refl, sym, inl, inr, Bool, true, false, Option, none, some, List, [], ◌∷◌,
  arith, ◌==◌, if◌then◌else◌, All, select, find_by_id, update_row, Bool-cases, Option-cases,
  Distinct, find-update, ==→eq,
}
use mathlib.Core.Path.{subst}
use stellar_split.Batch.Entity.{
  BatchOperationStatus, Payload, job_keyed, BatchOperation, operation_keyed, Store, Env,
}
use stellar_split.Batch.Progress.{
  mark_operation_started, mark_operation_completed, mark_operation_failed, failed_once,
  retry_attempts,
}
use stellar_split.Batch.Processing.{
  process_operation, process_all, validate_payload, by_index, is_due, handle_split_batch,
}
use stellar_split.Batch.Retries.{
  payload_cases, update_progress-Holds, process-Holds, process_all-Holds, by_index-others, none_due,
}
use stellar_split.Batch.Due.{is_among, among-by_index, by_index_keeps, due_among, due_payload}

-- The split that an operation should give, if any.
unfoldable pub split_of : Env → ℕ → Payload → Option ℕ
split_of env i (Payload.payment p) = none
split_of env i (Payload.split p) = if validate_payload env p then env.create_split i else none

-- Completed with its split, or failed for good or for now.
abbrev pub Judged : Option ℕ → BatchOperation → Type 0
Judged (some x) o = (o.status ≡ BatchOperationStatus.completed) × (o.result ≡ some x)
Judged none o =
    (o.status ≡ BatchOperationStatus.retrying) ⊎ (o.status ≡ BatchOperationStatus.failed)

abbrev pub Decided : Env → ℕ → Payload → Store → Type 0
Decided env i p s =
    (o : BatchOperation) × (find_by_id i s.operations ≡ some o) × Judged (split_of env i p) o

-- A change of the row that is found.
changed_row :
    (i : ℕ) (f : BatchOperation → BatchOperation) (os : List BatchOperation) (r : BatchOperation)
    → ((o : BatchOperation) → (f o).id ≡ o.id)
    → find_by_id i os ≡ some r
    → find_by_id i (update_row i f os) ≡ some (f r)
changed_row i f os r same h = ground (arith, find-update i i f os same)

completed_row :
    (now i x : ℕ) (s : Store) (r : BatchOperation)
    → find_by_id i s.operations ≡ some r
    → (o : BatchOperation) × (find_by_id i (mark_operation_completed now i x s).operations ≡ some o)
      × Judged (some x) o
unfolding mark_operation_completed
completed_row now i x s r h =
    let f : BatchOperation → BatchOperation = λ o. record o {
      status = BatchOperationStatus.completed;
      result = some x;
      completed_at = some now;
    } in
    (
      f r,
      rw (mark_operation_completed, h)
          (update_progress-Holds i (f r) now r.batch_id _
            (changed_row i f s.operations r (λ o. refl) h)),
      (refl, refl),
    )

failed_once-Judged :
    (now attempts : ℕ) (o : BatchOperation) → Judged none (failed_once now attempts o)
unfolding failed_once
failed_once-Judged now attempts o = ground arith

failed_row :
    (now i : ℕ) (s : Store) (r : BatchOperation)
    → find_by_id i s.operations ≡ some r
    → (o : BatchOperation) × (find_by_id i (mark_operation_failed now i s).operations ≡ some o)
      × Judged none o
unfolding mark_operation_failed failed_once
failed_row now i s r h =
    let n = retry_attempts (find_by_id r.batch_id s.jobs) in
    (
      failed_once now n r,
      rw (mark_operation_failed, h)
          (update_progress-Holds i (failed_once now n r) now r.batch_id _
            (changed_row i (failed_once now n) s.operations r (λ o. refl) h)),
      failed_once-Judged now n r,
    )

process-Decided :
    (env : Env) (o : BatchOperation) (s : Store) (r : BatchOperation)
    → find_by_id o.id s.operations ≡ some r
    → Decided env o.id o.payload (process_operation env o s)
unfolding process_operation split_of mark_operation_started
process-Decided env o s r h =
    let begun = mark_operation_started env.now o.id s in
    let f : BatchOperation → BatchOperation =
      λ x. record x { status = BatchOperationStatus.processing; started_at = some env.now } in
    let there : find_by_id o.id begun.operations ≡ some (f r) =
      changed_row o.id f s.operations r (λ x. refl) h in
    let failing = failed_row env.now o.id begun (f r) there in
    elim (payload_cases o.payload) [
      | inr (q, e) ↦ rw (process_operation, split_of, e) failing
      | inl (q, e) ↦ elim (Bool-cases (validate_payload env q)) [
        | inr bad ↦ rw (process_operation, split_of, e, bad) failing
        | inl good ↦ elim (Option-cases (env.create_split o.id)) [
          | inl no_split ↦ rw (process_operation, split_of, e, good, no_split) failing
          | inr (x, made) ↦
              rw (process_operation, split_of, e, good, made)
                (completed_row env.now o.id x begun (f r) there)
        ]
      ]
    ]

module _ (env : Env) (i : ℕ) (p : Payload) where
  abbrev SamePayload : BatchOperation → Type 0
  SamePayload o = o.id ≡ i → o.payload ≡ p

  process_named :
      (o : BatchOperation) (s : Store) (r : BatchOperation)
      → o.id ≡ i
      → o.payload ≡ p
      → find_by_id i s.operations ≡ some r
      → Decided env i p (process_operation env o s)
  process_named o s r e same h =
      subst (λ q. Decided env i q (process_operation env o s)) same
        (subst (λ k. Decided env k o.payload (process_operation env o s)) e
          (process-Decided env o s r (rw e h)))

  stays-Decided :
      (o : BatchOperation) (s : Store)
      → SamePayload o
      → Decided env i p s
      → Decided env i p (process_operation env o s)
  stays-Decided o s same (r, h, judged) = elim (Bool-cases (o.id == i)) [
    | inl e ↦ process_named o s r (==→eq o.id i e) (same (==→eq o.id i e)) h
    | inr e ↦
        let other : o.id ≢ i = λ k. ground (arith, k, e) in
        (r, process-Holds i r env o s other h, judged)
  ]

  process_all_stays :
      (os : List BatchOperation) (s : Store)
      → All SamePayload os
      → Decided env i p s
      → Decided env i p (process_all env os s)
  unfolding process_all
  process_all_stays [] s same h = h
  process_all_stays (o ∷ os) s same h =
      process_all_stays os (process_operation env o s) same.1 (stays-Decided o s same.0 h)

  process_all-Decided :
      (os : List BatchOperation) (s : Store) (r : BatchOperation)
      → All SamePayload os
      → is_among i os ≡ true
      → find_by_id i s.operations ≡ some r
      → Decided env i p (process_all env os s)
  unfolding process_all
  process_all-Decided [] s r same among h = cc
  process_all-Decided (o ∷ os) s r same among h = elim (Bool-cases (o.id == i)) [
    | inl e ↦
        process_all_stays os (process_operation env o s) same.1
          (process_named o s r (==→eq o.id i e) (same.0 (==→eq o.id i e)) h)
    | inr e ↦
        let other : o.id ≢ i = λ k. ground (arith, k, e) in
        process_all-Decided os (process_operation env o s) r same.1 (ground arith)
          (process-Holds i r env o s other h)
  ]

-- What a run makes of an operation that was due, and of one that was not.
abbrev pub AfterRun : Bool → Env → ℕ → BatchOperation → Store → Type 0
AfterRun true env i o s = Decided env i o.payload s
AfterRun false env i o s = find_by_id i s.operations ≡ some o

-- A run makes a verdict on every operation of the batch that was pending: it is completed with the split
-- that was made of it, or, if its payload is not valid or the splits service throws, failed or to be
-- tried again; any other operation is as it was. Operations' identifiers must be distinct.
pub handle_split_batch_decides :
    (env : Env) (j i : ℕ) (s : Store) (o : BatchOperation)
    → Distinct s.operations
    → find_by_id i s.operations ≡ some o
    → AfterRun (is_due j o) env i o (handle_split_batch env j s)
unfolding handle_split_batch
handle_split_batch_decides env j i s o d h =
    let due = select (is_due j) s.operations in
    elim (Bool-cases (is_due j o)) [
      | inl now_due ↦
          let decided =
            process_all-Decided env i o.payload (by_index due) _ o
              (by_index_keeps _ due (due_payload i j o s.operations d h))
              (rw (among-by_index i due) (due_among i j o s.operations h now_due)) h in
          subst (λ b. AfterRun b env i o (handle_split_batch env j s)) (sym now_due) decided
      | inr not_due ↦
          let kept =
            process_all-Holds i o env (by_index due) _
              (by_index-others i o due (none_due i j o s.operations d h not_due)) h in
          subst (λ b. AfterRun b env i o (handle_split_batch env j s)) (sym not_due) kept
    ]
