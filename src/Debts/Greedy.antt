-- ===== src/Debts/Greedy.antt =====
-- The loop of `simplifyAsset` of backend/src/debt-simplification/debt-graph.service.ts, which matches the
-- largest debtor with the largest creditor.
use stellar_split.Prelude.{
  ℕ, zero, suc, true, false, Option, none, some, List, [], ◌∷◌, ◌++◌, not, ◌||◌, ltb, if◌then◌else◌,
  length,
}
use stellar_split.Prelude.Ints.{ℤ, pos, ◌+ℤ◌, ◌-ℤ◌, ltb_ℤ, is_zero, abs, min_ℤ}
use stellar_split.Entities.{Text}
use stellar_split.Debts.Entity.{SimplifiedDebtEdge, RawDebt, Net}
use stellar_split.Debts.Balancing.{is_open, open_nets}

-- `nets.sort((a, b) => a.net - b.net)`, which is stable.
unfoldable pub insert_net : Net → List Net → List Net
insert_net n [] = n ∷ []
insert_net n (m ∷ ms) = if ltb_ℤ m.net n.net then m ∷ insert_net n ms else n ∷ m ∷ ms

unfoldable pub sort_nets : List Net → List Net
sort_nets [] = []
sort_nets (n ∷ ns) = insert_net n (sort_nets ns)

-- `nets[nets.length - 1]`, and what lies before it.
abbrev pub last : Net → List Net → Net
last n [] = n
last n (m ∷ ms) = last m ms

abbrev pub before_last : Net → List Net → List Net
before_last n [] = []
before_last n (m ∷ ms) = n ∷ before_last m ms

-- The amounts have two decimals, so that rounding them to six changes nothing.
abbrev pub edge : Text → Net → Net → ℤ → SimplifiedDebtEdge
edge asset debtor creditor a = record {
  from = debtor.wallet;
  to = creditor.wallet;
  amount = a;
  asset = asset;
  payment_link = none;
}

-- Settled participants are removed.
abbrev pub unsettled : Net → List Net
unsettled n = if is_open n then n ∷ [] else []

-- One round on the sorted balances: the edge and the balances that are left, or none for a `break`
-- before an edge. A single balance is debtor and creditor at once: what it pays comes back to it.
unfoldable pub round : Text → List Net → Option (SimplifiedDebtEdge × List Net)
round asset [] = none
round asset (debtor ∷ []) =
    if is_zero debtor.net || not (ltb_ℤ debtor.net (pos 0))
    then none
    else let a = min_ℤ (abs debtor.net) debtor.net in
      some (edge asset debtor debtor a, unsettled (record debtor { net = debtor.net +ℤ a -ℤ a }))
round asset (debtor ∷ n ∷ ns) =
    let creditor = last n ns in
    if is_zero debtor.net || is_zero creditor.net || not (ltb_ℤ debtor.net (pos 0))
    then none
    else let a = min_ℤ (abs debtor.net) creditor.net in
      some (
        edge asset debtor creditor a,
        unsettled (record debtor { net = debtor.net +ℤ a })
            ++ (before_last n ns ++ unsettled (record creditor { net = creditor.net -ℤ a })),
      )

-- `while (true)`, a bounded number of times.
unfoldable pub settle : ℕ → Text → List Net → List SimplifiedDebtEdge
settle zero asset nets = []
settle (suc fuel) asset nets = elim (round asset (sort_nets nets)) [
  | none ↦ []
  | some (e, left) ↦ e ∷ elim (ltb (length left) 2) [ true ↦ [] | false ↦ settle fuel asset left ]
]

-- As many rounds as there are balances.
unfoldable pub simplify_asset : Text → List RawDebt → List SimplifiedDebtEdge
simplify_asset asset debts = settle (length (open_nets debts)) asset (open_nets debts)
