-- ===== src/Payments/Store.antt =====
-- What the payment processor reads and writes.
use stellar_split.Prelude.{
  ℕ, Bool, not, Option, List, [], ◌∷◌, ◌++◌, Error, db_failure, ok, err, Result, Action, throw_if,
  modify, ◌>>◌, or_default,
}
use stellar_split.Entities.{Text, Split, split_keyed, SplitStatus}
use stellar_split.Invitations.Entity.{Participant, participant_keyed}
use stellar_split.Payments.Entity.{
  PaymentProcessingStatus, Payment, payment_keyed, Verification, ReputationEventType,
}

-- What goes out to the web sockets.
pub data Event : Type 0 where
  split_updated : ℕ → SplitStatus → ℕ → Event
  split_completed : ℕ → Event
  payment_received : ℕ → ℕ → PaymentProcessingStatus → ℕ → Event

-- What `recordEvent` of the reputation service keeps of an event; the scores that it computes are not
-- modelled.
pub record ReputationEvent : Type 0 where
  pub user_id : Text
  pub split_id : ℕ
  pub type : ReputationEventType

pub record Tables : Type 0 where
  pub payments : List Payment
  pub participants : List Participant
  pub splits : List Split
  pub reputation : List ReputationEvent

pub record Store : Type 0 where
  pub tables : Tables
  pub events : List Event

-- A decimal column in JavaScript, which the driver gives as a number or as a string: what the column holds
-- after `amountPaid + receivedAmount` is written to it, whether that sum is `>=` what is owed, and whether it
-- is `=== 0`. Of strings `+` is concatenation. A sum that the column does not take is a failing write.
pub record Decimals : Type 0 where
  pub plus : ℕ → ℕ → ℕ
  pub covers : ℕ → ℕ → ℕ → Bool
  pub is_zero : ℕ → ℕ → Bool

-- The clock in milliseconds; the hash of the three parts of a key; what Horizon answers for the
-- transaction; the amount and asset that the exchange rate gives if one is found, the identifier of the
-- conversion's own payment and whether the rate is tracked; whether the fraud service blocks the payment;
-- whether there is a reputation service; the new identifier; whether the n-th write goes through, the commit
-- being write 4 and the conversion's payment write 5; the decimals; and what the driver throws when a
-- transaction that is already rolled back is rolled back again, if it throws.
pub record Env : Type 0 where
  pub now : ℕ
  pub hash : ℕ → ℕ → ℕ → ℕ
  pub verify : ℕ → Result (Option Verification)
  pub rate : Option (ℕ × ℕ)
  pub conversion_id : ℕ
  pub tracks : Bool
  pub is_blocked : Bool
  pub has_reputation : Bool
  pub max_reconciliation_attempts : ℕ
  pub new_id : ℕ
  pub write : ℕ → Bool
  pub decimals : Decimals
  pub second_rollback : Option Error

unfoldable pub write_tables : Env → ℕ → (Tables → Tables) → Action Store (Unit {0})
write_tables env n f = do
  throw_if (not (env.write n)) db_failure
  modify (λ s. record s { tables = f s.tables })

unfoldable pub emit : Event → Action Store (Unit {0})
emit e = modify (λ s. record s { events = s.events ++ (e ∷ []) })

-- A throw after a rollback of its own: the handler around it rolls back once more.
unfoldable pub refuse_if : Env → Bool → Error → Action Store (Unit {0})
refuse_if env b e = throw_if b (or_default env.second_rollback e)

-- The transaction of a query runner: a throw undoes the writes, but not what was sent.
abbrev pub rolled_back : {A : Type 0} → Action Store A → Action Store A
rolled_back m s = elim ((m s).0) [
  | ok a ↦ (ok a, (m s).1)
  | err e ↦ (err e, record (m s).1 { tables = s.tables })
]
