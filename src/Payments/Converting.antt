-- ===== src/Payments/Converting.antt =====
-- The conversion of a payment: the choice in backend/src/payments/payment-processor.service.ts, and
-- `processMultiCurrencyPayment` of backend/src/multi-currency/multi-currency.service.ts, which works on
-- connections of its own. What Horizon gives as a rate is a parameter.
use stellar_split.Prelude.{
  ℕ, Bool, false, not, ◌&&◌, ◌||◌, none, ◌==◌, if◌then◌else◌, or_default, is_some, find_where,
  find_by_id, save_row, ok, err, not_found, db_failure, upstream_failure, Action, return, gets,
  or_throw, throw_if, ◌>>=◌, ◌>>◌,
}
use stellar_split.Entities.{split_keyed}
use stellar_split.Invitations.Entity.{Participant, participant_keyed}
use stellar_split.Payments.Entity.{
  PaymentProcessingStatus, PaymentSettlementStatus, Payment, payment_keyed, ProcessPaymentOptions,
  Verification,
}
use stellar_split.Payments.Store.{Store, Env, write_tables}

abbrev pub is_participant : ProcessPaymentOptions → Participant → Bool
is_participant o p = (p.id == o.participant_id) && (p.split_id == o.split_id)

abbrev pub is_of_tx : ℕ → Payment → Bool
is_of_tx tx p = p.tx_hash == tx

-- The source asset of a path payment that has one, else the asset.
unfoldable pub paid_asset : Verification → ℕ
paid_asset v = if v.is_path_payment then or_default v.source_asset v.asset else v.asset

unfoldable pub needs_conversion : Verification → Bool
unfolding paid_asset
needs_conversion v = v.is_path_payment || not (paid_asset v == v.asset)

-- The payment of the conversion service: it has no key, and the columns' defaults.
unfoldable pub converted_payment : Env → ProcessPaymentOptions → ℕ × ℕ → Payment
converted_payment env o paid = record {
  id = env.conversion_id;
  idempotency_key = none;
  split_id = o.split_id;
  participant_id = o.participant_id;
  tx_hash = o.tx_hash;
  amount = paid.0;
  asset = paid.1;
  status = PaymentProcessingStatus.confirmed;
  settlement_status = PaymentSettlementStatus.submitted;
  last_settlement_check = none;
  reconciliation_attempts = 0;
  max_reconciliation_attempts = 5;
  notifications_sent = false;
  processed_at = none;
  external_reference = none;
}

-- The amount and the asset that are received.
unfoldable pub process_multi_currency_payment : Env → ProcessPaymentOptions → Action Store (ℕ × ℕ)
unfolding converted_payment write_tables
process_multi_currency_payment env o = do
  found ← gets (λ s. find_by_id o.split_id s.tables.splits)
  split ← or_throw found not_found
  there ← gets (λ s. find_where (is_participant o) s.tables.participants)
  participant ← or_throw there not_found
  paid ← or_throw env.rate upstream_failure
  earlier ← gets (λ s. find_where (is_of_tx o.tx_hash) s.tables.payments)
  (if is_some earlier
      then return tt
      else write_tables env 5
          (λ t. record t { payments = save_row (converted_payment env o paid) t.payments }))
  throw_if (not env.tracks) db_failure
  return paid

-- The amount and the asset that count, and the store as the conversion leaves it: when it throws, those of
-- the transaction count.
unfoldable pub received : Env → ProcessPaymentOptions → Verification → Store → (ℕ × ℕ) × Store
unfolding needs_conversion process_multi_currency_payment
received env o v s =
    if needs_conversion v
    then (let (r, s') = process_multi_currency_payment env o s in
        elim r [ ok paid ↦ (paid, s') | err e ↦ ((v.amount, v.asset), s') ])
    else ((v.amount, v.asset), s)
