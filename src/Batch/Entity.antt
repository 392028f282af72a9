-- ===== src/Batch/Entity.antt =====
-- backend/src/batch/entities and dto/create-batch.dto.ts. The texts of errors are left out, but for the
-- fact that there is one.
use stellar_split.Prelude.{ℕ, Bool, true, false, Option, List, Keyed}
use stellar_split.Prelude.Ints.{ℤ}
use stellar_split.Entities.{Text}

pub data BatchJobType : Type 0 where
  split_creation payment_processing scheduled_task : BatchJobType

pub data BatchJobStatus : Type 0 where
  pending processing completed failed cancelled partial : BatchJobStatus

pub data BatchOperationStatus : Type 0 where
  pending processing completed failed retrying cancelled : BatchOperationStatus

pub record BatchOptions : Type 0 where
  pub chunk_size : Option ℕ
  pub priority : Option ℕ
  pub delay : Option ℕ
  pub concurrency : Option ℕ
  pub retry_attempts : Option ℕ

pub record BatchParticipant : Type 0 where
  pub user_id : Text
  pub amount : ℤ

-- Amounts are in hundredths.
pub record SplitPayload : Type 0 where
  pub total_amount : ℤ
  pub participants : List BatchParticipant

pub record PaymentPayload : Type 0 where
  pub split_id : ℕ
  pub participant_id : ℕ
  pub stellar_tx_hash : ℕ

pub data Payload : Type 0 where
  split : SplitPayload → Payload
  payment : PaymentPayload → Payload

-- The progress is a whole number of per cent.
pub record BatchJob : Type 0 where
  pub id : ℕ
  pub type : BatchJobType
  pub status : BatchJobStatus
  pub total_operations : ℕ
  pub completed_operations : ℕ
  pub failed_operations : ℕ
  pub progress : ℕ
  pub options : BatchOptions
  pub has_error : Bool
  pub started_at : Option ℕ
  pub completed_at : Option ℕ
  pub created_at : ℕ

-- The result of a split is its identifier.
pub record BatchOperation : Type 0 where
  pub id : ℕ
  pub batch_id : ℕ
  pub operation_index : ℕ
  pub status : BatchOperationStatus
  pub payload : Payload
  pub result : Option ℕ
  pub has_error : Bool
  pub retry_count : ℕ
  pub started_at : Option ℕ
  pub completed_at : Option ℕ

instance abbrev pub job_keyed : Keyed BatchJob
job_keyed = record { key = λ b. b.id }

instance abbrev pub operation_keyed : Keyed BatchOperation
operation_keyed = record { key = λ o. o.id }

-- `BatchJobData` with the options of the queue; the job's identifier is the batch's.
pub record QueueJob : Type 0 where
  pub batch_id : ℕ
  pub chunk_size : ℕ
  pub concurrency : ℕ
  pub priority : Option ℕ
  pub delay : Option ℕ

-- `batch.progress`: the batch as it is then.
pub record Store : Type 0 where
  pub jobs : List BatchJob
  pub operations : List BatchOperation
  pub split_queue : List QueueJob
  pub payment_queue : List QueueJob
  pub events : List BatchJob

-- The clock; the identifiers of a new batch and of its n-th operation; the configured defaults; how Bull
-- adds a job to its queue and removes one; and for an operation the split that the splits service makes
-- of it, none if that throws; and whether doubles that are one cent apart come out within 0.01. The database
-- does not fail.
pub record Env : Type 0 where
  pub now : ℕ
  pub new_batch_id : ℕ
  pub new_operation_id : ℕ → ℕ
  pub default_chunk_size : ℕ
  pub default_concurrency : ℕ
  pub add_job : QueueJob → List QueueJob → List QueueJob
  pub remove_job : ℕ → List QueueJob → List QueueJob
  pub create_split : ℕ → Option ℕ
  pub within_cent : SplitPayload → Bool

abbrev pub is_pending : BatchOperationStatus → Bool
is_pending BatchOperationStatus.pending = true
is_pending _ = false

abbrev pub is_processing : BatchOperationStatus → Bool
is_processing BatchOperationStatus.processing = true
is_processing _ = false

abbrev pub is_completed : BatchOperationStatus → Bool
is_completed BatchOperationStatus.completed = true
is_completed _ = false

abbrev pub is_failed : BatchOperationStatus → Bool
is_failed BatchOperationStatus.failed = true
is_failed _ = false
