-- ===== src/Payments/Balances.antt =====
-- The totals of the splits, compared with what their participants have paid.
use stellar_split.Prelude.{ℕ, ◌≡◌, some, find_by_id}
use stellar_split.Entities.{Split, split_keyed}
use stellar_split.Invitations.Entity.{participant_keyed}
use stellar_split.Payments.Entity.{payment_keyed}
use stellar_split.Payments.Store.{Tables, Store}
use stellar_split.Payments.Settling.{split_status, total_paid}

-- Every split shows what its participants have paid, and the status that this gives.
abbrev pub TotalsMatch : Tables → Type 0
TotalsMatch t =
    (i : ℕ) (p : Split)
    → find_by_id i t.splits ≡ some p
    → (p.amount_paid ≡ total_paid i t) × (p.status ≡ split_status p.amount_paid p.total_amount)
