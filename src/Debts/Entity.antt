-- ===== src/Debts/Entity.antt =====
-- backend/src/debt-simplification/entities/simplified-debt.entity.ts, the interfaces of
-- debt-graph.service.ts, and the rows of a participant and its split that they are made from. Amounts are
-- exact, in hundredths, as the columns hold them.
use stellar_split.Prelude.{ℕ, Option, List}
use stellar_split.Prelude.Ints.{ℤ}
use stellar_split.Entities.{Text}

-- `from` owes `to`, wallets both.
pub record RawDebt : Type 0 where
  pub from : Text
  pub to : Text
  pub amount : ℤ
  pub asset : Text

pub record SimplifiedDebtEdge : Type 0 where
  pub from : Text
  pub to : Text
  pub amount : ℤ
  pub asset : Text
  pub payment_link : Option Text

-- A percentage is in its hundredths.
pub record DebtGraphResult : Type 0 where
  pub simplified_debts : List SimplifiedDebtEdge
  pub original_transaction_count : ℕ
  pub simplified_transaction_count : ℕ
  pub savings_percentage : ℕ

-- A participant's wallet and its net balance: positive for a creditor.
pub record Net : Type 0 where
  pub wallet : Text
  pub net : ℤ
