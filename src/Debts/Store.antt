-- ===== src/Debts/Store.antt =====
-- The tables of backend/src/debt-simplification, and `loadRawDebts` of debt-graph.service.ts.
use stellar_split.Prelude.{
  ℕ, ◌-◌, Bool, true, false, not, ◌&&◌, Option, none, some, List, [], ◌∷◌, ltb, if◌then◌else◌,
  or_default,
}
use stellar_split.Prelude.Ints.{pos}
use stellar_split.Entities.{Text, same_text, codes, SplitStatus, completed}
use stellar_split.Invitations.Entity.{ParticipantStatus, paid}
use stellar_split.Debts.Entity.{RawDebt, SimplifiedDebtEdge}

-- A split and a participant joined with it: the columns that the query reads, in hundredths.
pub record DebtSplit : Type 0 where
  pub status : SplitStatus
  pub is_frozen : Bool
  pub is_deleted : Bool
  pub creator_wallet_address : Option Text
  pub preferred_currency : Option Text

pub record Participant : Type 0 where
  pub wallet_address : Option Text
  pub amount_owed : ℕ
  pub amount_paid : ℕ
  pub status : ParticipantStatus
  pub is_deleted : Bool
  pub split : DebtSplit

pub record SimplifiedDebt : Type 0 where
  pub id : ℕ
  pub group_id : Option ℕ
  pub calculated_for_user_ids : List Text
  pub debts : List SimplifiedDebtEdge
  pub original_transaction_count : ℕ
  pub simplified_transaction_count : ℕ
  pub savings_percentage : ℕ
  pub calculated_at : ℕ
  pub expires_at : ℕ

-- The participants stand in the order in which the database gives them.
pub record Store : Type 0 where
  pub participants : List Participant
  pub simplified_debts : List SimplifiedDebt

-- The clock, the identifier of a new row, and whether the n-th write of a call goes through.
pub record Env : Type 0 where
  pub now : ℕ
  pub new_id : ℕ
  pub write : ℕ → Bool

-- `wallets.includes(wallet)`.
unfoldable pub includes : List Text → Text → Bool
includes [] w = false
includes (v ∷ vs) w = if same_text v w then true else includes vs w

abbrev pub is_paid : ParticipantStatus → Bool
is_paid paid = true
is_paid _ = false

abbrev pub is_completed : SplitStatus → Bool
is_completed completed = true
is_completed _ = false

abbrev pub includes_given : List Text → Option Text → Bool
includes_given wallets none = false
includes_given wallets (some w) = includes wallets w

-- The conditions of the query.
unfoldable pub is_outstanding : List Text → Participant → Bool
is_outstanding wallets p =
    includes_given wallets p.wallet_address
    && not (is_paid p.status)
    && not (is_completed p.split.status)
    && not p.split.is_frozen
    && not p.is_deleted
    && not p.split.is_deleted

abbrev pub is_given : Text → Bool
is_given [] = false
is_given (c ∷ cs) = true

-- The debt of one participant: amounts are hundredths, so what is above 0.0001 is above 0.
unfoldable pub raw_debt : List Text → Participant → Option RawDebt
raw_debt wallets p = elim p.split.creator_wallet_address [
  | none ↦ none
  | some creator ↦
      if ltb p.amount_paid p.amount_owed && is_given creator && includes wallets creator
      then some (record {
        from = or_default p.wallet_address [];
        to = creator;
        amount = pos (p.amount_owed - p.amount_paid);
        asset = or_default p.split.preferred_currency (codes "XLM");
      })
      else none
]

unfoldable pub load_raw_debts : List Text → List Participant → List RawDebt
load_raw_debts wallets [] = []
load_raw_debts wallets (p ∷ ps) =
    let rest = load_raw_debts wallets ps in
    if is_outstanding wallets p
    then elim (raw_debt wallets p) [ none ↦ rest | some d ↦ d ∷ rest ]
    else rest
