-- ===== src/Settlement/Examples.antt =====
-- Runs of the reconciliation service on a small store.
use stellar_split.Prelude.{
  ◌≡◌, refl, true, false, none, some, [], ◌∷◌, find_by_id, upstream_failure, ok, err,
}
use stellar_split.Invitations.Entity.{participant_keyed}
use stellar_split.Payments.Entity.{
  PaymentSettlementStatus, submitted, reconciling, review_required, Payment, payment_keyed,
}
use stellar_split.Settlement.Store.{Store, Env}
use stellar_split.Settlement.Reconciling.{reconcile_payment}
use stellar_split.Settlement.Reviewing.{is_stale}
use stellar_split.Settlement.Service.{Call, perform}
use stellar_split.Payments.Entity.{PaymentProcessingStatus}
use stellar_split.Settlement.Finality.{perform_keeps_settled}
use stellar_split.Settlement.Verdicts.{reconcile_payment_decides}
use stellar_split.Settlement.Missing.{reconcile_all, missing_never_ends}

abbrev sent : Payment
sent = record {
  id = 1;
  idempotency_key = none;
  split_id = 2;
  participant_id = 3;
  tx_hash = 70;
  amount = 100;
  asset = 0;
  status = PaymentProcessingStatus.pending;
  settlement_status = submitted;
  last_settlement_check = some 0;
  reconciliation_attempts = 4;
  max_reconciliation_attempts = 5;
  notifications_sent = false;
  processed_at = none;
  external_reference = none;
}

abbrev done : Payment
done = record sent { id = 2; settlement_status = PaymentSettlementStatus.confirmed }

abbrev lost : Payment
lost = record sent { settlement_status = reconciling }

abbrev before : Store
before = record {
  payments = sent ∷ done ∷ [];
  participants = [];
  reconciliation_queue = [];
  settlement_queue = [];
  events = [];
}

abbrev unreachable : Env
unreachable = record {
  now = 9_000_000;
  verify = λ tx. err upstream_failure;
  stale_threshold_minutes = 60;
  max_reconciliation_attempts = 5;
  reconciliation_batch_size = 50;
  order_by = λ ps. ps;
  write = λ n. true;
}

abbrev unknown : Env
unknown = record unreachable { verify = λ tx. ok none }

perform_keeps_settled_example :
    find_by_id 2 (perform unreachable Call.find_stale before).1.payments ≡ some done
unfolding find_by_id
perform_keeps_settled_example =
    perform_keeps_settled unreachable Call.find_stale before 2 done (refl, (refl, tt)) (λ P xs h. h)
      refl refl

-- The fifth failed attempt puts the payment in review.
reconcile_payment_decides_example :
    (p' : Payment) × (find_by_id 1 (reconcile_payment unreachable 1 before).1.payments ≡ some p')
    × (p'.settlement_status ≡ review_required)
    × (p'.reconciliation_attempts ≡ 5)
unfolding find_by_id
reconcile_payment_decides_example =
    reconcile_payment_decides unreachable before sent refl refl (λ n. refl)

missing_never_ends_example :
    (p' : Payment) × (find_by_id 1
        (reconcile_all (unknown ∷ unknown ∷ []) 1 (record before { payments = lost ∷ [] })).payments
      ≡ some p')
    × (p'.settlement_status ≡ reconciling)
    × (p'.reconciliation_attempts ≡ 6)
    × ((env : Env) → is_stale env p' ≡ false)
unfolding find_by_id
missing_never_ends_example =
    missing_never_ends (unknown ∷ unknown ∷ []) (record before { payments = lost ∷ [] }) lost
      ((refl, λ n. refl), ((refl, λ n. refl), tt)) refl refl
