-- ===== src/Settlement/Service.antt =====
-- The calls and jobs of the reconciliation service, as one type.
use stellar_split.Prelude.{ℕ, Bool, Result, is_ok}
use stellar_split.Settlement.Store.{Store, Env}
use stellar_split.Settlement.Reconciling.{reconcile_payment}
use stellar_split.Settlement.Reviewing.{
  reconcile_pending_payments, detect_stale_payments, Resolution, resolve_payment_from_review,
}

pub data Call : Type 0 where
  queue_pending : Call
  find_stale : Call
  reconcile_one : ℕ → Call
  resolve_review : ℕ → Resolution → Call

-- Whether the call went through, and the store after it.
abbrev pub outcome_of : {A : Type 0} → Result A × Store → Bool × Store
outcome_of (r, s) = (is_ok r, s)

unfoldable pub perform : Env → Call → Store → Bool × Store
perform env Call.queue_pending s = outcome_of (reconcile_pending_payments env s)
perform env Call.find_stale s = outcome_of (detect_stale_payments env s)
perform env (Call.reconcile_one i) s = outcome_of (reconcile_payment env i s)
perform env (Call.resolve_review i r) s = outcome_of (resolve_payment_from_review env i r s)
