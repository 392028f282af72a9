-- ===== src/Batch/Processing.antt =====
-- backend/src/batch/processors/split-batch.processor.ts, with one worker: the operations of the batch are
-- worked off one by one. Chunks bound only how many are worked on at once.
use stellar_split.Prelude.{
  ℕ, Bool, true, false, not, ◌&&◌, ◌||◌, none, some, List, [], ◌∷◌, ltb, ◌==◌, if◌then◌else◌,
  select, update_row,
}
use stellar_split.Prelude.Ints.{ℤ, pos, ◌+ℤ◌, ◌-ℤ◌, ltb_ℤ, abs}
use stellar_split.Batch.Entity.{
  BatchJobStatus, Payload, SplitPayload, BatchParticipant, job_keyed, BatchOperation,
  operation_keyed, Store, Env, is_pending,
}
use stellar_split.Batch.Progress.{
  mark_operation_started, mark_operation_completed, mark_operation_failed,
}

unfoldable pub sum_amounts : List BatchParticipant → ℤ
sum_amounts [] = pos 0
sum_amounts (p ∷ ps) = p.amount +ℤ sum_amounts ps

abbrev pub nobody : List BatchParticipant → Bool
nobody [] = true
nobody (p ∷ ps) = false

-- Whether `validatePayload` throws nothing, for amounts in whole hundredths. The source compares doubles with
-- 0.01: sums that agree pass, sums two hundredths apart do not, and of those one hundredth apart the rounding
-- of the doubles decides.
unfoldable pub validate_payload : Env → SplitPayload → Bool
unfolding sum_amounts
validate_payload env p =
    let off = abs (sum_amounts p.participants -ℤ p.total_amount) in
    ltb_ℤ (pos 0) p.total_amount
    && not (nobody p.participants)
    && (not (ltb_ℤ (pos 0) off) || (not (ltb_ℤ (pos 1) off) && env.within_cent p))

-- The payload of a payment has no amount, and fails the validation.
unfoldable pub process_operation : Env → BatchOperation → Store → Store
unfolding mark_operation_started mark_operation_completed mark_operation_failed validate_payload
process_operation env o s =
    let started = mark_operation_started env.now o.id s in
    elim o.payload [
      | Payload.payment p ↦ mark_operation_failed env.now o.id started
      | Payload.split p ↦
          if validate_payload env p
          then elim (env.create_split o.id) [
            | none ↦ mark_operation_failed env.now o.id started
            | some result ↦ mark_operation_completed env.now o.id result started
          ]
          else mark_operation_failed env.now o.id started
    ]

unfoldable pub process_all : Env → List BatchOperation → Store → Store
unfolding process_operation
process_all env [] s = s
process_all env (o ∷ os) s = process_all env os (process_operation env o s)

-- `ORDER BY operation_index`.
unfoldable pub insert_operation : BatchOperation → List BatchOperation → List BatchOperation
insert_operation o [] = o ∷ []
insert_operation o (p ∷ ps) =
    if ltb p.operation_index o.operation_index then p ∷ insert_operation o ps else o ∷ p ∷ ps

unfoldable pub by_index : List BatchOperation → List BatchOperation
by_index [] = []
by_index (o ∷ os) = insert_operation o (by_index os)

abbrev pub is_due : ℕ → BatchOperation → Bool
is_due i o = (o.batch_id == i) && is_pending o.status

unfoldable pub handle_split_batch : Env → ℕ → Store → Store
unfolding process_all by_index
handle_split_batch env i s = process_all env (by_index (select (is_due i) s.operations)) (record s {
  jobs =
      update_row i (λ b. record b { status = BatchJobStatus.processing; started_at = some env.now })
        s.jobs;
})
