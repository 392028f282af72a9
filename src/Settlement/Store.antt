-- ===== src/Settlement/Store.antt =====
-- What the reconciliation service reads and writes: payments and participants, two queues, and the events
-- of settlements.
use stellar_split.Prelude.{
  ℕ, Bool, not, Option, List, [], ◌∷◌, ◌++◌, update_row, Result, db_failure, Action, throw_if,
  modify, ◌>>◌,
}
use stellar_split.Invitations.Entity.{Participant, participant_keyed, ParticipantStatus}
use stellar_split.Payments.Entity.{PaymentSettlementStatus, Payment, payment_keyed, Verification}

pub data EventType : Type 0 where
  confirmed failed review_required : EventType

-- A settlement event carries the status of the payment as it was read, before the update.
pub record SettlementEvent : Type 0 where
  pub payment_id : ℕ
  pub type : EventType
  pub settlement_status : PaymentSettlementStatus

pub record Store : Type 0 where
  pub payments : List Payment
  pub participants : List Participant
  pub reconciliation_queue : List ℕ
  pub settlement_queue : List ℕ
  pub events : List SettlementEvent

-- The clock in milliseconds, what Horizon answers for a transaction, the configuration, the order in which
-- the database returns payments, and whether the n-th write to the database or a queue goes through.
pub record Env : Type 0 where
  pub now : ℕ
  pub verify : ℕ → Result (Option Verification)
  pub stale_threshold_minutes : ℕ
  pub max_reconciliation_attempts : ℕ
  pub reconciliation_batch_size : ℕ
  pub order_by : List Payment → List Payment
  pub write : ℕ → Bool

unfoldable pub update_payment : Env → ℕ → ℕ → (Payment → Payment) → Action Store (Unit {0})
update_payment env n i f = do
  throw_if (not (env.write n)) db_failure
  modify (λ s. record s { payments = update_row i f s.payments })

unfoldable pub update_participant : Env → ℕ → ℕ → ParticipantStatus → Action Store (Unit {0})
update_participant env n i status = do
  throw_if (not (env.write n)) db_failure
  modify (λ s. record s {
    participants = update_row i (λ p. record p { status = status }) s.participants;
  })

unfoldable pub add_settlement : Env → ℕ → ℕ → Action Store (Unit {0})
add_settlement env n i = do
  throw_if (not (env.write n)) db_failure
  modify (λ s. record s { settlement_queue = s.settlement_queue ++ (i ∷ []) })

unfoldable pub add_reconciliation : Env → ℕ → ℕ → Action Store (Unit {0})
add_reconciliation env n i = do
  throw_if (not (env.write n)) db_failure
  modify (λ s. record s { reconciliation_queue = s.reconciliation_queue ++ (i ∷ []) })

unfoldable pub emit_settlement : Payment → EventType → Action Store (Unit {0})
emit_settlement p type = modify (λ s. record s {
  events =
      s.events
      ++ (record { payment_id = p.id; type = type; settlement_status = p.settlement_status } ∷ []);
})
