-- ===== src/Payments/Processing.antt =====
-- `processPaymentSubmission`, `retryPayment` and `handleWebhookReplay` of
-- backend/src/payments/payment-processor.service.ts. Emails and the analytics cache, which cannot fail the
-- call, are left out.
use stellar_split.Prelude.{
  ℕ, Bool, true, false, not, Option, none, some, List, ◌==◌, if◌then◌else◌, or_default, is_some,
  find_where, find_by_id, save_row, update_row, ok, not_found, bad_request, conflict, db_failure,
  Action, return, gets, or_throw, throw_if, ◌>>=◌, ◌>>◌,
}
use stellar_split.Entities.{Split, split_keyed}
use stellar_split.Invitations.Entity.{Participant, participant_keyed}
use stellar_split.Payments.Entity.{
  PaymentProcessingStatus, Payment, payment_keyed, ProcessPaymentOptions, PaymentSubmissionResult,
  Verification,
}
use stellar_split.Payments.Store.{Event, Store, Env, write_tables, emit, refuse_if, rolled_back}
use stellar_split.Payments.Converting.{is_participant, is_of_tx, received}
use stellar_split.Payments.Settling.{
  new_payment, participant_status, set_paid, update_split_amount_paid, record_reputation,
}

abbrev pub has_key : ℕ → Payment → Bool
has_key key p = elim p.idempotency_key [ none ↦ false | some k ↦ k == key ]

-- The payment that makes a submission a duplicate: of the same key, or else of the same transaction.
unfoldable pub find_earlier : ℕ → ℕ → List Payment → Option Payment
find_earlier key tx ps = elim (find_where (has_key key) ps) [
  | some p ↦ some p
  | none ↦ find_where (is_of_tx tx) ps
]

abbrev pub key_of : Env → ProcessPaymentOptions → ℕ
key_of env o = or_default o.idempotency_key (env.hash o.split_id o.participant_id o.tx_hash)

-- What the verification gives, or an answer that counts as invalid.
abbrev pub is_valid : Option Verification → Bool
is_valid none = false
is_valid (some v) = v.valid

unfoldable pub verified : Env → ℕ → Action Store (Option Verification)
verified env tx s = (env.verify tx, s)

-- The writes, up to the commit.
unfoldable pub settle :
    Env
    → ProcessPaymentOptions
    → ℕ
    → ℕ × ℕ
    → Participant
    → Split
    → Action Store (PaymentSubmissionResult × Option Payment)
unfolding write_tables
settle env o key paid p split = do
  write_tables env 0
      (λ t. record t { payments = save_row (new_payment env o key paid p) t.payments })
  let amount_paid = env.decimals.plus p.amount_paid paid.0
  let status = participant_status env p.amount_paid paid.0 p.amount_owed
  write_tables env 1 (λ t. record t {
    participants = update_row o.participant_id (set_paid amount_paid status) t.participants;
  })
  update_split_amount_paid env o.split_id
  record_reputation env p status split
  throw_if (not (env.write 4)) db_failure
  return (
    record { payment_id = env.new_id; is_duplicate = false; idempotency_key = some key },
    some (new_payment env o key paid p),
  )

-- The checks before anything is written.
unfoldable pub admit :
    Env → ProcessPaymentOptions → Action Store (Verification × Participant × Split)
unfolding refuse_if
admit env o = do
  answer ← verified env o.tx_hash
  refuse_if env (not (is_valid answer)) bad_request
  v ← or_throw answer bad_request
  there ← gets (λ s. find_where (is_participant o) s.tables.participants)
  refuse_if env (not (is_some there)) not_found
  p ← or_throw there not_found
  found ← gets (λ s. find_by_id o.split_id s.tables.splits)
  refuse_if env (not (is_some found)) not_found
  split ← or_throw found not_found
  refuse_if env split.is_frozen conflict
  return (v, p, split)

-- The check of the fraud service and the writes of the transaction. It has begun long before, but until here
-- it has nothing to undo.
unfoldable pub carry_out :
    Env
    → ProcessPaymentOptions
    → ℕ
    → ℕ × ℕ
    → Participant
    → Split
    → Action Store (PaymentSubmissionResult × Option Payment)
unfolding refuse_if
carry_out env o key paid p split =
    rolled_back (refuse_if env env.is_blocked bad_request >> settle env o key paid p split)

-- The conversion, which is not undone, then the rest.
unfoldable pub convert_and_pay :
    Env
    → ProcessPaymentOptions
    → ℕ
    → Verification × Participant × Split
    → Action Store (PaymentSubmissionResult × Option Payment)
convert_and_pay env o key (v, p, split) s =
    let (paid, s') = received env o v s in carry_out env o key paid p split s'

-- What follows when the submission is no duplicate.
unfoldable pub submit :
    Env → ProcessPaymentOptions → ℕ → Action Store (PaymentSubmissionResult × Option Payment)
submit env o key = admit env o >>= convert_and_pay env o key

-- A duplicate is answered with the payment that is there.
unfoldable pub process :
    Env → ProcessPaymentOptions → ℕ → Action Store (PaymentSubmissionResult × Option Payment)
process env o key s = elim (find_earlier key o.tx_hash s.tables.payments) [
  | some p ↦
      (ok (record { payment_id = p.id; is_duplicate = true; idempotency_key = some key }, none), s)
  | none ↦ submit env o key s
]

-- The notification of a new payment, after the commit.
unfoldable pub notify : Option Payment → Action Store (Unit {0})
unfolding emit
notify none = return tt
notify (some p) = emit (Event.payment_received p.split_id p.participant_id p.status p.amount)

unfoldable pub process_payment_submission :
    Env → ProcessPaymentOptions → Action Store PaymentSubmissionResult
process_payment_submission env o = do
  done ← process env o (key_of env o)
  notify done.1
  return done.0

abbrev pub is_failed : PaymentProcessingStatus → Bool
is_failed PaymentProcessingStatus.failed = true
is_failed _ = false

abbrev pub retry_options : Env → Payment → ℕ → ProcessPaymentOptions
retry_options env p tx = record {
  split_id = p.split_id;
  participant_id = p.participant_id;
  tx_hash = tx;
  idempotency_key = some (env.hash p.split_id p.participant_id tx);
  external_reference = none;
}

-- The retry is a new submission with a key of its own; the failed payment stays.
unfoldable pub retry_payment : Env → ℕ → ℕ → Action Store PaymentSubmissionResult
retry_payment env i tx = do
  found ← gets (λ s. find_by_id i s.tables.payments)
  p ← or_throw found not_found
  throw_if (not (is_failed p.status)) conflict
  process_payment_submission env (retry_options env p tx)

-- `resendNotifications`: the events, then the flag.
unfoldable pub resend_notifications : Env → Payment → Action Store (Unit {0})
unfolding emit write_tables
resend_notifications env p =
    emit (Event.payment_received p.split_id p.participant_id p.status p.amount)
    >> write_tables env 0 (λ t. record t {
      payments = update_row p.id (λ q. record q { notifications_sent = true }) t.payments;
    })

unfoldable pub handle_webhook_replay : Env → ℕ → Action Store PaymentSubmissionResult
handle_webhook_replay env tx = do
  found ← gets (λ s. find_where (is_of_tx tx) s.tables.payments)
  p ← or_throw found bad_request
  (if p.notifications_sent then return tt else resend_notifications env p)
  return (record { payment_id = p.id; is_duplicate = p.notifications_sent; idempotency_key = none })
