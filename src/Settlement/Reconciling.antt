-- ===== src/Settlement/Reconciling.antt =====
-- `reconcilePayment` with its handlers and `markPaymentForReview` of
-- backend/src/payments/payment-reconciliation.service.ts. The texts of settlement errors are left out.
use stellar_split.Prelude.{
  ℕ, ◌+◌, Bool, true, false, not, Option, none, some, leb, if◌then◌else◌, find_by_id, ok, err,
  not_found, Action, return, gets, or_throw, ◌>>=◌, ◌>>◌,
}
use stellar_split.Invitations.Entity.{ParticipantStatus}
use stellar_split.Payments.Entity.{
  PaymentSettlementStatus, submitted, reconciling, review_required, Payment, payment_keyed,
  Verification,
}
use stellar_split.Settlement.Store.{
  EventType, Store, Env, update_payment, update_participant, add_settlement, emit_settlement,
}

-- The states in which a payment is not reconciled any more.
abbrev pub is_final : PaymentSettlementStatus → Bool
is_final PaymentSettlementStatus.submitted = false
is_final PaymentSettlementStatus.confirmed = true
is_final PaymentSettlementStatus.failed = true
is_final PaymentSettlementStatus.review_required = true
is_final PaymentSettlementStatus.reconciling = false

pub record ReconciliationResult : Type 0 where
  pub payment_id : ℕ
  pub tx_hash : ℕ
  pub previous_status : PaymentSettlementStatus
  pub new_status : PaymentSettlementStatus
  pub on_chain_valid : Bool
  pub on_chain_amount : Option ℕ

abbrev pub set_status : PaymentSettlementStatus → Payment → Payment
set_status status p = record p { settlement_status = status }

-- A status with the time of the check.
abbrev pub check : ℕ → PaymentSettlementStatus → Payment → Payment
check now status p = record p { settlement_status = status; last_settlement_check = some now }

unfoldable pub mark_reconciling : ℕ → ℕ → Payment → Payment
mark_reconciling now attempts p = record p {
  settlement_status = reconciling;
  reconciliation_attempts = attempts;
  last_settlement_check = some now;
}

unfoldable pub mark_confirmed : ℕ → ℕ → Payment → Payment
mark_confirmed now amount p = record p {
  settlement_status = PaymentSettlementStatus.confirmed;
  amount = amount;
  last_settlement_check = some now;
}

unfoldable pub mark_payment_for_review : Env → ℕ → ℕ → Action Store (Unit {0})
unfolding update_payment emit_settlement
mark_payment_for_review env n i s =
    (update_payment env n i (check env.now review_required) >> (λ s.
        elim (find_by_id i s.payments) [
          | none ↦ (ok tt, s)
          | some p ↦ emit_settlement p EventType.review_required s
        ]))
      s

unfoldable pub handle_confirmed_payment : Env → Payment → Verification → Action Store (Unit {0})
unfolding update_payment emit_settlement add_settlement
handle_confirmed_payment env p v = do
  update_payment env 1 p.id (mark_confirmed env.now v.amount)
  emit_settlement p EventType.confirmed
  add_settlement env 2 p.id

unfoldable pub handle_failed_payment : Env → Payment → Action Store (Unit {0})
unfolding update_payment emit_settlement update_participant
handle_failed_payment env p = do
  update_payment env 1 p.id (check env.now PaymentSettlementStatus.failed)
  update_participant env 2 p.participant_id ParticipantStatus.pending
  emit_settlement p EventType.failed

abbrev pub result : Payment → PaymentSettlementStatus → Bool → Option ℕ → ReconciliationResult
result p status valid amount = record {
  payment_id = p.id;
  tx_hash = p.tx_hash;
  previous_status = p.settlement_status;
  new_status = status;
  on_chain_valid = valid;
  on_chain_amount = amount;
}

-- The `try` block, for an answer of Horizon.
unfoldable pub settle_by : Env → Payment → Option Verification → Action Store ReconciliationResult
unfolding handle_confirmed_payment handle_failed_payment
settle_by env p none = return (result p submitted false none)
settle_by env p (some v) =
    if not v.valid
    then handle_failed_payment env p >> return (result p PaymentSettlementStatus.failed false none)
    else handle_confirmed_payment env p v
      >> return (result p PaymentSettlementStatus.confirmed true (some v.amount))

-- The `catch` block.
unfoldable pub give_back : Env → Payment → Action Store ReconciliationResult
unfolding update_payment mark_payment_for_review
give_back env p =
    if leb env.max_reconciliation_attempts (p.reconciliation_attempts + 1)
    then mark_payment_for_review env 3 p.id >> return (result p review_required false none)
    else update_payment env 3 p.id (set_status submitted) >> return (result p submitted false none)

-- `try { … } catch { … }`: what was written before the throw stays.
abbrev pub try_catch : {A : Type 0} → Action Store A → Action Store A → Action Store A
try_catch m handler s = elim ((m s).0) [ ok a ↦ (ok a, (m s).1) | err e ↦ handler (m s).1 ]

unfoldable pub ask : Env → ℕ → Action Store (Option Verification)
ask env tx s = (env.verify tx, s)

-- From the first write on.
unfoldable pub reconcile : Env → Payment → Action Store ReconciliationResult
unfolding update_payment
reconcile env p =
    update_payment env 0 p.id (mark_reconciling env.now (p.reconciliation_attempts + 1))
    >> try_catch (ask env p.tx_hash >>= settle_by env p) (give_back env p)

unfoldable pub reconcile_payment : Env → ℕ → Action Store ReconciliationResult
reconcile_payment env i = do
  found ← gets (λ s. find_by_id i s.payments)
  p ← or_throw found not_found
  if is_final p.settlement_status
      then return (result p p.settlement_status false none)
      else reconcile env p
