-- ===== src/Payments/Service.antt =====
-- The calls of the payment processor, as one type.
use stellar_split.Prelude.{ℕ, Bool, Result, is_ok}
use stellar_split.Payments.Entity.{ProcessPaymentOptions}
use stellar_split.Payments.Store.{Store, Env}
use stellar_split.Payments.Processing.{
  process_payment_submission, retry_payment, handle_webhook_replay,
}

pub data Call : Type 0 where
  submit : ProcessPaymentOptions → Call
  retry : ℕ → ℕ → Call
  replay : ℕ → Call

-- Whether the call went through, and the store after it.
abbrev pub outcome_of : {A : Type 0} → Result A × Store → Bool × Store
outcome_of (r, s) = (is_ok r, s)

unfoldable pub perform : Env → Call → Store → Bool × Store
perform env (Call.submit o) s = outcome_of (process_payment_submission env o s)
perform env (Call.retry i tx) s = outcome_of (retry_payment env i tx s)
perform env (Call.replay tx) s = outcome_of (handle_webhook_replay env tx s)
