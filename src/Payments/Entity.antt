-- ===== src/Payments/Entity.antt =====
-- backend/src/entities/payment.entity.ts, and what the payment processor is given. Transaction hashes,
-- assets and idempotency keys are only compared, so they are numbers; an empty key counts as none.
use stellar_split.Prelude.{ℕ, Bool, Option, Keyed}

pub data PaymentProcessingStatus : Type 0 where
  pending confirmed failed partial : PaymentProcessingStatus

pub data PaymentSettlementStatus : Type 0 where
  submitted confirmed failed review_required reconciling : PaymentSettlementStatus

-- Amounts are in the column's hundredths: finer amounts, which the column rounds, are not modelled.
pub record Payment : Type 0 where
  pub id : ℕ
  pub idempotency_key : Option ℕ
  pub split_id : ℕ
  pub participant_id : ℕ
  pub tx_hash : ℕ
  pub amount : ℕ
  pub asset : ℕ
  pub status : PaymentProcessingStatus
  pub settlement_status : PaymentSettlementStatus
  pub last_settlement_check : Option ℕ
  pub reconciliation_attempts : ℕ
  pub max_reconciliation_attempts : ℕ
  pub notifications_sent : Bool
  pub processed_at : Option ℕ
  pub external_reference : Option ℕ

pub record ProcessPaymentOptions : Type 0 where
  pub split_id : ℕ
  pub participant_id : ℕ
  pub tx_hash : ℕ
  pub idempotency_key : Option ℕ
  pub external_reference : Option ℕ

-- What a submission returns; `success` is always true, the message is left out.
pub record PaymentSubmissionResult : Type 0 where
  pub payment_id : ℕ
  pub is_duplicate : Bool
  pub idempotency_key : Option ℕ

-- What Horizon says of a transaction, as far as it decides anything: the source amount only goes to the
-- conversion service.
pub record Verification : Type 0 where
  pub valid : Bool
  pub amount : ℕ
  pub asset : ℕ
  pub source_asset : Option ℕ
  pub is_path_payment : Bool

pub data ReputationEventType : Type 0 where
  paid_on_time paid_late unpaid_expired : ReputationEventType

instance abbrev pub payment_keyed : Keyed Payment
payment_keyed = record { key = λ p. p.id }
