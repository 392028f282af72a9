-- ===== src/Debts/Balancing.antt =====
-- The first part of `simplifyAsset` of backend/src/debt-simplification/debt-graph.service.ts: the net
-- balance of each wallet. A `Map` is the list of its entries in the order of their insertion.
use stellar_split.Prelude.{Bool, List, [], ◌∷◌, not, if◌then◌else◌, select}
use stellar_split.Prelude.Ints.{ℤ, pos, ◌+ℤ◌, ◌-ℤ◌, is_zero}
use stellar_split.Entities.{Text, same_text}
use stellar_split.Debts.Entity.{RawDebt, Net}

-- `balance.get(wallet) ?? 0`.
unfoldable pub get_balance : Text → List Net → ℤ
get_balance w [] = pos 0
get_balance w (n ∷ ns) = if same_text n.wallet w then n.net else get_balance w ns

-- `balance.set(wallet, net)`.
unfoldable pub set_balance : Text → ℤ → List Net → List Net
set_balance w x [] = record { wallet = w; net = x } ∷ []
set_balance w x (n ∷ ns) =
    if same_text n.wallet w then record n { net = x } ∷ ns else n ∷ set_balance w x ns

-- One debt: the debtor's balance falls, then the creditor's rises.
unfoldable pub add_debt : RawDebt → List Net → List Net
add_debt d m =
    let m' = set_balance d.from (get_balance d.from m -ℤ d.amount) m in
    set_balance d.to (get_balance d.to m' +ℤ d.amount) m'

unfoldable pub balances : List RawDebt → List Net → List Net
balances [] m = m
balances (d ∷ ds) m = balances ds (add_debt d m)

-- Amounts are hundredths, so a balance is further than 0.0001 from 0 when it is not 0.
abbrev pub is_open : Net → Bool
is_open n = not (is_zero n.net)

unfoldable pub open_nets : List RawDebt → List Net
open_nets ds = select is_open (balances ds [])
