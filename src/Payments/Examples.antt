-- ===== src/Payments/Examples.antt =====
-- Runs of the payment processor on a small store.
use stellar_split.Prelude.{
  ◌+◌, ◌*◌, ◌≤◌, ◌≡◌, leb, not, ◌==◌, refl, true, false, none, some, [], ◌∷◌, arith, ltb, length,
  count, find_where, find_by_id, save_row, update_row, db_failure, ok, is_ok,
}
use stellar_split.Entities.{Split, split_keyed, SplitStatus}
use stellar_split.Invitations.Entity.{Participant, participant_keyed, ParticipantStatus}
use stellar_split.Payments.Entity.{payment_keyed, ProcessPaymentOptions, Verification}
use stellar_split.Payments.Store.{Store, Env, Decimals}
use stellar_split.Payments.Converting.{
  needs_conversion, received, process_multi_currency_payment, converted_payment,
}
use stellar_split.Payments.Settling.{
  split_status, was_fully_paid, resolve_split_deadline, new_payment, set_paid, set_total,
  total_paid, participant_status, announce, update_split_amount_paid, record_reputation,
}
use stellar_split.Payments.Processing.{
  find_earlier, verified, settle, admit, carry_out, convert_and_pay, submit, process, notify,
  process_payment_submission,
}
use stellar_split.Payments.Service.{Call, perform}
use stellar_split.Payments.Repeats.{
  is_credit_of, perform_once, process_payment_twice, frozen_refused,
}

abbrev dinner : Split
dinner = record {
  id = 1;
  total_amount = 100;
  amount_paid = 0;
  status = SplitStatus.active;
  is_frozen = false;
  created_at = 0;
  due_date = none;
  expiry_date = none;
}

abbrev frozen : Split
frozen = record dinner { id = 2; is_frozen = true }

abbrev ann : Participant
ann = record {
  id = 3;
  split_id = 1;
  user_id = [];
  amount_owed = 100;
  amount_paid = 0;
  status = ParticipantStatus.pending;
  wallet_address = none;
}

abbrev bob : Participant
bob = record ann { id = 4; split_id = 2 }

abbrev transfer : Verification
transfer = record {
  valid = true;
  amount = 100;
  asset = 0;
  source_asset = none;
  is_path_payment = false;
}

abbrev numbers : Decimals
numbers = record {
  plus = λ paid amount. paid + amount;
  covers = λ paid amount owed. leb owed (paid + amount);
  is_zero = λ paid amount. paid + amount == 0;
}

abbrev env : Env
env = record {
  now = 1000;
  hash = λ a b c. a + 10 * b + 100 * c;
  verify = λ tx. ok (some transfer);
  rate = none;
  conversion_id = 8;
  tracks = true;
  is_blocked = false;
  has_reputation = true;
  max_reconciliation_attempts = 5;
  new_id = 9;
  write = λ n. true;
  decimals = numbers;
  second_rollback = some db_failure;
}

abbrev payment : ProcessPaymentOptions
payment = record {
  split_id = 1;
  participant_id = 3;
  tx_hash = 70;
  idempotency_key = none;
  external_reference = none;
}

abbrev to_frozen : ProcessPaymentOptions
to_frozen = record payment { split_id = 2; participant_id = 4 }

abbrev before : Store
before = record {
  tables = record {
    payments = [];
    participants = ann ∷ bob ∷ [];
    splits = dinner ∷ frozen ∷ [];
    reputation = [];
  };
  events = [];
}

-- The commit fails.
abbrev cut_short : Env
cut_short = record env { write = λ n. ltb n 4 }

-- The event of the split is out although the payment is rolled back.
announced_test : length (process_payment_submission cut_short payment before).1.events ≡ 2
unfolding find_by_id find_where save_row update_row process_payment_submission process find_earlier
    submit admit convert_and_pay carry_out verified settle update_split_amount_paid total_paid
    set_total set_paid split_status record_reputation participant_status received new_payment notify
    needs_conversion was_fully_paid announce resolve_split_deadline
announced_test = refl

-- Ann pays by a path payment, and the commit fails: the conversion's payment stays.
abbrev path_transfer : Verification
path_transfer = record transfer { is_path_payment = true }

abbrev path_cut_short : Env
path_cut_short = record env {
  verify = λ tx. ok (some path_transfer);
  rate = some (100, 2);
  write = λ n. not (n == 4);
}

left_over_test :
    length (process_payment_submission path_cut_short payment before).1.tables.payments ≡ 1
unfolding find_by_id find_where save_row update_row process_payment_submission process find_earlier
    submit admit convert_and_pay carry_out verified settle update_split_amount_paid total_paid
    set_total set_paid split_status record_reputation participant_status received new_payment notify
    needs_conversion was_fully_paid announce resolve_split_deadline process_multi_currency_payment
    converted_payment
left_over_test = refl

-- The submission that comes again is answered as processed, although nothing was credited.
uncredited_test :
    let s = (process_payment_submission path_cut_short payment before).1 in
    let (r, s') = process_payment_submission env payment s in
    (r ≡ ok (record { payment_id = 8; is_duplicate = true; idempotency_key = some 7031 }))
    × (s'.tables.participants ≡ before.tables.participants)
unfolding find_by_id find_where save_row update_row process_payment_submission process find_earlier
    submit admit convert_and_pay carry_out verified settle update_split_amount_paid total_paid
    set_total set_paid split_status record_reputation participant_status received new_payment notify
    needs_conversion was_fully_paid announce resolve_split_deadline process_multi_currency_payment
    converted_payment
uncredited_test = (refl, refl)

perform_once_example :
    count (is_credit_of 70) (perform env (Call.submit payment) before).1.tables.payments ≤ 1
unfolding find_by_id
perform_once_example =
    perform_once env (Call.submit payment) before refl refl refl (λ tx. omega arith) 70

process_payment_twice_example :
    let s' = (process_payment_submission env payment before).1 in
    process_payment_submission (record env { now = 2000 }) payment s'
    ≡ (ok (record { payment_id = 9; is_duplicate = true; idempotency_key = some 7031 }), s')
unfolding find_by_id find_where save_row update_row process_payment_submission process find_earlier
    submit admit convert_and_pay carry_out verified settle update_split_amount_paid total_paid
    set_total set_paid split_status record_reputation participant_status received new_payment notify
    needs_conversion was_fully_paid announce resolve_split_deadline
process_payment_twice_example =
    process_payment_twice env (record env { now = 2000 }) payment before
      (record { payment_id = 9; is_duplicate = false; idempotency_key = some 7031 }) refl refl

frozen_refused_example :
    let (r, s') = process_payment_submission env to_frozen before in
    (is_ok r ≡ false) × (s'.tables ≡ before.tables)
unfolding find_by_id find_earlier find_where
frozen_refused_example = frozen_refused env to_frozen before frozen refl refl refl
