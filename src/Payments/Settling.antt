-- ===== src/Payments/Settling.antt =====
-- The parts of `processPaymentSubmission` that compute and write: amounts, statuses, the split's total,
-- the deadline.
use stellar_split.Prelude.{
  ℕ, ◌+◌, ◌*◌, Bool, true, false, not, ◌&&◌, ◌||◌, some, List, [], ◌∷◌, ◌++◌, ltb, leb, ◌==◌,
  if◌then◌else◌, or_default, find_by_id, update_row, sum, select, not_found, Action, return, gets,
  or_throw, ◌>>=◌, ◌>>◌,
}
use stellar_split.Entities.{Split, split_keyed, SplitStatus}
use stellar_split.Invitations.Entity.{Participant, participant_keyed, ParticipantStatus}
use stellar_split.Payments.Entity.{
  PaymentProcessingStatus, PaymentSettlementStatus, Payment, payment_keyed, ProcessPaymentOptions,
  paid_on_time, paid_late,
}
use stellar_split.Payments.Store.{Event, Tables, Store, Env, write_tables, emit}

-- `splitDeadline`: 30 days after the creation if the split has no date of its own.
unfoldable pub resolve_split_deadline : Split → ℕ
resolve_split_deadline p =
    or_default p.due_date (or_default p.expiry_date (p.created_at + 30 * 86_400_000))

unfoldable pub payment_status : ℕ → Participant → PaymentProcessingStatus
payment_status amount p =
    if ltb amount p.amount_owed
    then PaymentProcessingStatus.partial
    else PaymentProcessingStatus.confirmed

unfoldable pub new_payment : Env → ProcessPaymentOptions → ℕ → ℕ × ℕ → Participant → Payment
new_payment env o key paid p = record {
  id = env.new_id;
  idempotency_key = some key;
  split_id = o.split_id;
  participant_id = o.participant_id;
  tx_hash = o.tx_hash;
  amount = paid.0;
  asset = paid.1;
  status = payment_status paid.0 p;
  settlement_status = PaymentSettlementStatus.confirmed;
  last_settlement_check = some env.now;
  reconciliation_attempts = 0;
  max_reconciliation_attempts = env.max_reconciliation_attempts;
  notifications_sent = false;
  processed_at = some env.now;
  external_reference = o.external_reference;
}

-- By the sum as it is in JavaScript.
unfoldable pub participant_status : Env → ℕ → ℕ → ℕ → ParticipantStatus
participant_status env paid amount owed =
    if env.decimals.covers paid amount owed
    then ParticipantStatus.paid
    else if env.decimals.is_zero paid amount
    then ParticipantStatus.pending
    else ParticipantStatus.partial

-- The participant with the new amount.
unfoldable pub set_paid : ℕ → ParticipantStatus → Participant → Participant
set_paid paid status p = record p { amount_paid = paid; status = status }

abbrev is_paid : ParticipantStatus → Bool
is_paid ParticipantStatus.pending = false
is_paid ParticipantStatus.paid = true
is_paid ParticipantStatus.partial = false

unfoldable pub was_fully_paid : Participant → Bool
was_fully_paid p = leb p.amount_owed p.amount_paid || is_paid p.status

-- What the participants of a split have paid.
abbrev pub paid_by : List Participant → List ℕ
paid_by [] = []
paid_by (p ∷ ps) = p.amount_paid ∷ paid_by ps

unfoldable pub total_paid : ℕ → Tables → ℕ
total_paid split t = sum (paid_by (select (λ p. p.split_id == split) t.participants))

unfoldable pub split_status : ℕ → ℕ → SplitStatus
split_status paid total =
    if leb total paid
    then SplitStatus.completed
    else if ltb 0 paid
    then SplitStatus.partial
    else SplitStatus.active

abbrev is_completed : SplitStatus → Bool
is_completed SplitStatus.active = false
is_completed SplitStatus.completed = true
is_completed SplitStatus.partial = false

unfoldable pub set_total : ℕ → Split → Split
set_total paid p = record p { amount_paid = paid; status = split_status paid p.total_amount }

unfoldable pub announce : ℕ → ℕ → SplitStatus → Action Store (Unit {0})
unfolding emit
announce i total status =
    emit (Event.split_updated i status total)
    >> (if is_completed status then emit (Event.split_completed i) else return tt)

-- `updateSplitAmountPaidTransactional`, which sends its events before the commit.
unfoldable pub update_split_amount_paid : Env → ℕ → Action Store (Unit {0})
unfolding write_tables emit
update_split_amount_paid env i = do
  total ← gets (λ s. total_paid i s.tables)
  found ← gets (λ s. find_by_id i s.tables.splits)
  p ← or_throw found not_found
  write_tables env 2 (λ t. record t { splits = update_row i (set_total total) t.splits })
  announce i total (split_status total p.total_amount)

-- The reputation of who has just paid all.
unfoldable pub record_reputation :
    Env → Participant → ParticipantStatus → Split → Action Store (Unit {0})
unfolding write_tables
record_reputation env old status split =
    if is_paid status && not (was_fully_paid old) && env.has_reputation
    then write_tables env 3 (λ t. record t {
      reputation =
          t.reputation
          ++ (record {
            user_id = old.user_id;
            split_id = split.id;
            type = if leb env.now (resolve_split_deadline split) then paid_on_time else paid_late;
          }
              ∷ []);
    })
    else return tt
