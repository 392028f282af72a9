-- ===== src/Settlement/Reviewing.antt =====
-- The scheduled jobs `reconcilePendingPayments` and `detectStalePayments`, `resolvePaymentFromReview`, and
-- the reads of backend/src/payments/payment-reconciliation.service.ts. A job swallows what is thrown.
use stellar_split.Prelude.{
  ℕ, ◌+◌, ◌-◌, ◌*◌, Bool, true, false, not, ◌&&◌, ◌||◌, Option, none, some, List, [], ◌∷◌, ltb,
  take, select, find_by_id, ok, not_found, bad_request, Action, gets, or_throw, throw_if, ◌>>=◌,
  ◌>>◌,
}
use stellar_split.Payments.Entity.{PaymentSettlementStatus, submitted, Payment, payment_keyed}
use stellar_split.Settlement.Store.{Store, Env, update_payment, add_reconciliation}
use stellar_split.Settlement.Reconciling.{set_status, mark_payment_for_review}

abbrev pub is_submitted : PaymentSettlementStatus → Bool
is_submitted PaymentSettlementStatus.submitted = true
is_submitted _ = false

abbrev pub is_reconciling : PaymentSettlementStatus → Bool
is_reconciling PaymentSettlementStatus.reconciling = true
is_reconciling _ = false

abbrev pub is_in_review : PaymentSettlementStatus → Bool
is_in_review PaymentSettlementStatus.review_required = true
is_in_review _ = false

-- A check earlier than the threshold; without one the comparison in SQL does not hold.
abbrev pub checked_before : ℕ → Option ℕ → Bool
checked_before t none = false
checked_before t (some c) = ltb c t

unfoldable pub is_stale : Env → Payment → Bool
is_stale env p =
    is_submitted p.settlement_status
    && checked_before (env.now - env.stale_threshold_minutes * 60 * 1000) p.last_settlement_check

unfoldable pub is_pending : Payment → Bool
is_pending p = is_submitted p.settlement_status || is_reconciling p.settlement_status

-- The loop of a job, which ends at the first throw: what its writes did stays.
unfoldable pub for_each :
    (ℕ → Payment → Action Store (Unit {0})) → ℕ → List Payment → Action Store (Unit {0})
for_each f n [] s = (ok tt, s)
for_each f n (p ∷ ps) s = ◌>>◌ (f n p) (for_each f (n + 1) ps) s

-- A job never throws.
abbrev swallow : Action Store (Unit {0}) → Action Store (Unit {0})
swallow m s = (ok tt, (m s).1)

unfoldable pub reconcile_pending_payments : Env → Action Store (Unit {0})
unfolding add_reconciliation
reconcile_pending_payments env s =
    let found = take env.reconciliation_batch_size (env.order_by (select is_pending s.payments)) in
    swallow (for_each (λ n p. add_reconciliation env n p.id) 0 found) s

unfoldable pub detect_stale_payments : Env → Action Store (Unit {0})
detect_stale_payments env s =
    let found =
      take env.reconciliation_batch_size (env.order_by (select (is_stale env) s.payments)) in
    swallow (for_each (λ n p. mark_payment_for_review env n p.id) 0 found) s

abbrev pub set_retry : Payment → Payment
set_retry p = record p { settlement_status = submitted; reconciliation_attempts = 0 }

pub data Resolution : Type 0 where
  confirm fail retry : Resolution

unfoldable pub resolve : Env → ℕ → Resolution → Action Store (Unit {0})
unfolding update_payment add_reconciliation
resolve env i Resolution.confirm =
    update_payment env 0 i (set_status PaymentSettlementStatus.confirmed)
resolve env i Resolution.fail = update_payment env 0 i (set_status PaymentSettlementStatus.failed)
resolve env i Resolution.retry = update_payment env 0 i set_retry >> add_reconciliation env 1 i

unfoldable pub resolve_payment_from_review : Env → ℕ → Resolution → Action Store (Unit {0})
resolve_payment_from_review env i resolution = do
  found ← gets (λ s. find_by_id i s.payments)
  p ← or_throw found not_found
  throw_if (not (is_in_review p.settlement_status)) bad_request
  resolve env i resolution

unfoldable pub get_payments_for_review : Env → Store → List Payment
get_payments_for_review env s =
    env.order_by (select (λ p. is_in_review p.settlement_status) s.payments)
