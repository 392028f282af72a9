-- ===== src/Debts/Conservation.antt =====
-- What the simplified debts move, compared with the raw ones.
use stellar_split.Prelude.{
  ℕ, zero, suc, ◌-◌, ◌≤◌, ◌≡◌, ◌<◌, ◌⊎◌, refl, sym, ◌∙◌, ap, ltb→lt, inl, inr, Bool, true, List, [],
  ◌∷◌, arith, ltb, length, select, All, Bool-cases,
}
use stellar_split.Prelude.Ints.{pos, pos_part, neg_part, ◌<ℤ◌, ◌+ℤ◌, int_laws}
use stellar_split.Entities.{Text}
use stellar_split.Debts.Entity.{SimplifiedDebtEdge, RawDebt, Net}
use stellar_split.Debts.Balancing.{open_nets, balances, is_open}
use stellar_split.Debts.Greedy.{sort_nets, round, settle, simplify_asset}
use stellar_split.Debts.Totals.{total, flow, edge_net, debt_net, total-open_nets, debt_net-all}
use stellar_split.Debts.Order.{
  IsSorted, sort_nets-IsSorted, sort_nets-All, length-sort_nets, total-sort_nets, sum_all,
  first_owes,
}
use stellar_split.Debts.Rounds.{AllOpen, IsPayment, Advances, round_goes}

-- The edges settle the balances exactly, by payments, fewer than there are balances.
abbrev pub Settles : Text → List Net → List SimplifiedDebtEdge → Type 0
Settles asset nets edges =
    ((p : Text → Bool) → edge_net p edges ≡ total p nets)
    × All (IsPayment asset) edges
    × (length edges ≤ length nets - 1)

-- A single open balance does not cancel out.
lone_balance : (n : Net) → AllOpen (n ∷ []) → ¬ (sum_all (n ∷ []) ≡ pos 0)
lone_balance n opens zero_sum =
    let owes = first_owes n [] (tt, tt) opens.0 zero_sum in
    let first : n.net <ℤ pos 0 = ground arith in
    omega (int_laws, first, ap pos_part zero_sum, ap neg_part zero_sum)

-- Sorted balances that cancel out are settled, or go through a round.
pub one_round :
    (asset : Text) (nets : List Net)
    → IsSorted nets
    → AllOpen nets
    → sum_all nets ≡ pos 0
    → (nets ≡ []) ⊎ ((e : SimplifiedDebtEdge) × (left : List Net) × Advances asset nets e left)
one_round asset [] s opens zero_sum = inl refl
one_round asset (d ∷ []) s opens zero_sum = absurd (lone_balance d opens zero_sum)
one_round asset (d ∷ n ∷ ns) s opens zero_sum = inr (round_goes asset d n ns s opens zero_sum)

few_left : (left : List Net) → AllOpen left → sum_all left ≡ pos 0 → length left < 2 → left ≡ []
few_left [] opens zero_sum few = refl
few_left (n ∷ []) opens zero_sum few = absurd (lone_balance n opens zero_sum)
few_left (n ∷ m ∷ ms) opens zero_sum few = absurd (omega arith)

pub sum_left :
    (asset : Text) (nets left : List Net) (e : SimplifiedDebtEdge)
    → Advances asset nets e left
    → sum_all nets ≡ pos 0
    → sum_all left ≡ pos 0
sum_left asset nets left e (go, pay, opens, several, less, totals) zero_sum =
    let balanced : pos 0 ≡ flow (λ _. true) e.from e.to e.amount +ℤ sum_all left =
      sym zero_sum ∙ totals (λ _. true) in
    omega (int_laws, ap pos_part balanced, ap neg_part balanced)

settle-Settles :
    (fuel : ℕ) (asset : Text) (nets : List Net)
    → length nets ≤ fuel
    → AllOpen nets
    → sum_all nets ≡ pos 0
    → Settles asset nets (settle fuel asset nets)
unfolding settle round
settle-Settles zero asset [] short opens zero_sum = ((λ p. refl), tt, omega arith)
settle-Settles zero asset (n ∷ ns) short opens zero_sum = absurd (omega arith)
settle-Settles (suc fuel) asset nets short opens zero_sum =
    let same = total-sort_nets (λ _. true) nets in
    elim (one_round asset (sort_nets nets) (sort_nets-IsSorted nets) (sort_nets-All _ nets opens)
      (rw same zero_sum)) [
        | inl none_left ↦
            rw (settle, none_left)
              ((λ p. rw (← total-sort_nets p nets, none_left) refl), tt, omega arith)
        | inr (e, left, (go, pay, opens_left, several, less, totals)) ↦
            let left_zero : sum_all left ≡ pos 0 =
              sum_left asset (sort_nets nets) left e (go, pay, opens_left, several, less, totals)
                (rw same zero_sum) in
            let size = length-sort_nets nets in
            elim (Bool-cases (ltb (length left) 2)) [
              | inl few ↦
                  let none_left = few_left left opens_left left_zero (ltb→lt (length left) 2 few) in
                  rw (settle, go, few)
                    (
                      (λ p. rw (← total-sort_nets p nets, totals p, none_left) refl),
                      (pay, tt),
                      omega arith,
                    )
              | inr more ↦
                  let (rest, payments, count) =
                    settle-Settles fuel asset left (omega arith) opens_left left_zero in
                  rw (settle, go, more)
                    (
                      (λ p. rw (← total-sort_nets p nets, totals p, rest p) refl),
                      (pay, payments),
                      ground arith,
                    )
            ]
      ]

select-AllOpen : (ns : List Net) → AllOpen (select is_open ns)
select-AllOpen [] = tt
select-AllOpen (n ∷ ns) = ground (arith, select-AllOpen ns)

pub open_nets-AllOpen : (ds : List RawDebt) → AllOpen (open_nets ds)
unfolding open_nets
open_nets-AllOpen ds = select-AllOpen (balances ds [])

pub simplify_asset-Settles :
    (asset : Text) (ds : List RawDebt)
    → ((p : Text → Bool) → edge_net p (simplify_asset asset ds) ≡ debt_net p ds)
      × All (IsPayment asset) (simplify_asset asset ds)
      × (length (simplify_asset asset ds) ≤ length (open_nets ds) - 1)
unfolding simplify_asset
simplify_asset-Settles asset ds =
    let zero_sum : sum_all (open_nets ds) ≡ pos 0 =
      total-open_nets (λ _. true) ds ∙ debt_net-all ds in
    let (nets, payments, count) =
      settle-Settles (length (open_nets ds)) asset (open_nets ds) (omega arith)
        (open_nets-AllOpen ds) zero_sum in
    ((λ p. nets p ∙ total-open_nets p ds), payments, count)
