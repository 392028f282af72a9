-- ===== src/Batch/Calls.antt =====
-- The calls of the batch service and the runs of the splits' processor, as one type.
use stellar_split.Prelude.{ℕ, Bool, true, Result, is_ok, List}
use stellar_split.Batch.Entity.{BatchJobType, BatchOptions, Payload, Store, Env}
use stellar_split.Batch.Service.{create_batch, retry_failed_operations, cancel_batch}
use stellar_split.Batch.Processing.{handle_split_batch}

pub data Call : Type 0 where
  create : BatchJobType → List Payload → BatchOptions → Call
  retry : ℕ → List ℕ → Call
  cancel : ℕ → Call
  run : ℕ → Call

abbrev pub outcome_of : {A : Type 0} → Result A × Store → Bool × Store
outcome_of (r, s) = (is_ok r, s)

unfoldable pub perform : Env → Call → Store → Bool × Store
perform env (Call.create type payloads options) s =
    outcome_of (create_batch env type payloads options s)
perform env (Call.retry i ids) s = outcome_of (retry_failed_operations env i ids s)
perform env (Call.cancel i) s = outcome_of (cancel_batch env i s)
perform env (Call.run i) s = (true, handle_split_batch env i s)
