-- ===== src/Debts/Ending.antt =====
-- That the greedy loop ends by itself.
use stellar_split.Prelude.{
  ℕ, zero, suc, ◌-◌, ◌≤◌, ◌≡◌, refl, ◌∙◌, inl, inr, true, List, [], ◌∷◌, arith, ltb, length, All,
  Bool-cases,
}
use stellar_split.Prelude.Ints.{pos}
use stellar_split.Entities.{Text}
use stellar_split.Debts.Entity.{RawDebt, Net}
use stellar_split.Debts.Balancing.{open_nets}
use stellar_split.Debts.Greedy.{sort_nets, round, settle, simplify_asset}
use stellar_split.Debts.Totals.{total-open_nets, debt_net-all}
use stellar_split.Debts.Order.{
  sort_nets-IsSorted, sort_nets-All, length-sort_nets, total-sort_nets, sum_all,
}
use stellar_split.Debts.Rounds.{AllOpen, IsPayment}
use stellar_split.Debts.Conservation.{
  one_round, sum_left, open_nets-AllOpen, simplify_asset-Settles,
}

settle_more :
    (fuel more : ℕ) (asset : Text) (nets : List Net)
    → length nets ≤ fuel
    → length nets ≤ more
    → AllOpen nets
    → sum_all nets ≡ pos 0
    → settle more asset nets ≡ settle fuel asset nets
unfolding settle round sort_nets
settle_more zero zero asset nets short short' opens zero_sum = refl
settle_more zero (suc more) asset [] short short' opens zero_sum = refl
settle_more zero (suc more) asset (n ∷ ns) short short' opens zero_sum = absurd (omega arith)
settle_more (suc fuel) zero asset [] short short' opens zero_sum = refl
settle_more (suc fuel) zero asset (n ∷ ns) short short' opens zero_sum = absurd (omega arith)
settle_more (suc fuel) (suc more) asset nets short short' opens zero_sum =
    let size = length-sort_nets nets in
    let same = total-sort_nets (λ _. true) nets in
    elim (one_round asset (sort_nets nets) (sort_nets-IsSorted nets) (sort_nets-All _ nets opens)
      (rw same zero_sum)) [
        | inl none_left ↦ rw (settle, none_left) refl
        | inr (e, left, step) ↦
            let (go, _, opens_left, _, less, _) = step in
            let left_zero = sum_left asset (sort_nets nets) left e step (rw same zero_sum) in
            elim (Bool-cases (ltb (length left) 2)) [
              | inl few ↦ rw (settle, go, few) refl
              | inr several ↦
                  let rest =
                    settle_more fuel more asset left (omega arith) (omega arith) opens_left
                      left_zero in
                  rw (settle, go, several, rest) refl
            ]
      ]

-- However long the loop of one asset may run, it stops within as many rounds as there are open balances,
-- with at least one edge fewer than these; each edge moves a positive amount of the asset.
pub simplify_asset_ends :
    (asset : Text) (ds : List RawDebt) (more : ℕ)
    → length (open_nets ds) ≤ more
    → (settle more asset (open_nets ds) ≡ simplify_asset asset ds)
      × (length (simplify_asset asset ds) ≤ length (open_nets ds) - 1)
      × All (IsPayment asset) (simplify_asset asset ds)
unfolding simplify_asset
simplify_asset_ends asset ds more long =
    let (_, payments, count) = simplify_asset-Settles asset ds in
    (
      settle_more (length (open_nets ds)) more asset (open_nets ds) (omega arith) long
          (open_nets-AllOpen ds) (total-open_nets (λ _. true) ds ∙ debt_net-all ds),
      count,
      payments,
    )
