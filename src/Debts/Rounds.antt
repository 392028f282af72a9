-- ===== src/Debts/Rounds.antt =====
-- One round of the greedy loop on sorted balances that cancel out.
use stellar_split.Prelude.{
  ◌+◌, ◌≡◌, refl, sym, ◌⊎◌, inl, inr, Bool, true, false, some, List, ◌∷◌, ◌++◌, arith, ◌≤◌, ◌<◌,
  if◌then◌else◌, length, All, All-append, length-append, Bool-cases,
}
use stellar_split.Prelude.Ints.{
  ℤ, pos, ◌+ℤ◌, ◌-ℤ◌, ◌<ℤ◌, ltb_ℤ, is_zero, is_zero→eq, abs, min_ℤ, int_laws,
}
use stellar_split.Entities.{Text}
use stellar_split.Debts.Entity.{SimplifiedDebtEdge, Net}
use stellar_split.Debts.Balancing.{is_open}
use stellar_split.Debts.Greedy.{last, before_last, edge, unsettled, round}
use stellar_split.Debts.Totals.{when, flow, total, total-append}
use stellar_split.Debts.Order.{
  IsSorted, total-last, before_last-All, length-before_last, sum_all, first_owes, last_is_owed,
}

abbrev pub AllOpen : List Net → Type 0
AllOpen = All (λ n. is_open n ≡ true)

-- An edge moves a positive amount of the asset.
abbrev pub IsPayment : Text → SimplifiedDebtEdge → Type 0
IsPayment asset e = (e.asset ≡ asset) × (pos 0 <ℤ e.amount)

abbrev pub Advances : Text → List Net → SimplifiedDebtEdge → List Net → Type 0
Advances asset nets e left =
    (round asset nets ≡ some (e, left))
    × IsPayment asset e
    × AllOpen left
    × (1 < length nets)
    × (length left < length nets)
    × ((p : Text → Bool) → total p nets ≡ flow p e.from e.to e.amount +ℤ total p left)

unsettled-AllOpen : (n : Net) → AllOpen (unsettled n)
unsettled-AllOpen n = ground arith

total-unsettled : (p : Text → Bool) (n : Net) → total p (unsettled n) ≡ when (p n.wallet) n.net
total-unsettled p n = elim (Bool-cases (is_zero n.net)) [
  | inl e ↦ elim (Bool-cases (p n.wallet)) [
    | inl in_set ↦ rw (e, in_set) (sym (is_zero→eq n.net e))
    | inr not_in ↦ rw (e, not_in) refl
  ]
  | inr e ↦ rw e (omega int_laws)
]

length-unsettled : (n : Net) → length (unsettled n) ≡ (if is_zero n.net then 0 else 1)
length-unsettled n = ground arith

-- What a debtor pays a creditor settles one of the two.
module _ (x y : ℤ) (owes : ltb_ℤ x (pos 0) ≡ true) (owed : ltb_ℤ (pos 0) y ≡ true) where
  amount_positive : pos 0 <ℤ min_ℤ (abs x) y
  amount_positive = ground arith

  one_settled : (is_zero (x +ℤ min_ℤ (abs x) y) ≡ true) ⊎ (is_zero (y -ℤ min_ℤ (abs x) y) ≡ true)
  unfolding ◌+ℤ◌ ◌-ℤ◌
  one_settled = ground arith

module _ (asset : Text) (d n : Net) (ns : List Net) where
  abbrev creditor : Net
  creditor = last n ns

  abbrev paid : ℤ
  paid = min_ℤ (abs d.net) creditor.net

  abbrev debtor_after : Net
  debtor_after = record d { net = d.net +ℤ paid }

  abbrev creditor_after : Net
  creditor_after = record creditor { net = creditor.net -ℤ paid }

  abbrev left_over : List Net
  left_over = unsettled debtor_after ++ (before_last n ns ++ unsettled creditor_after)

  total_left :
      (p : Text → Bool)
      → total p (d ∷ n ∷ ns) ≡ flow p d.wallet creditor.wallet paid +ℤ total p left_over
  total_left p =
      let rest = before_last n ns ++ unsettled creditor_after in
      rw
        (
          total-last p n ns,
          total-append p (unsettled debtor_after) rest,
          total-append p (before_last n ns) (unsettled creditor_after),
          total-unsettled p debtor_after,
          total-unsettled p creditor_after,
        )
        (elim (Bool-cases (p d.wallet)) [
          | inl d_in ↦ elim (Bool-cases (p creditor.wallet)) [
            | inl c_in ↦ rw (d_in, c_in) (omega int_laws)
            | inr c_out ↦ rw (d_in, c_out) (omega int_laws)
          ]
          | inr d_out ↦ elim (Bool-cases (p creditor.wallet)) [
            | inl c_in ↦ rw (d_out, c_in) (omega int_laws)
            | inr c_out ↦ rw (d_out, c_out) (omega int_laws)
          ]
        ])

  left_over-AllOpen : AllOpen (n ∷ ns) → AllOpen left_over
  left_over-AllOpen h = All-append _ (unsettled debtor_after) _ (unsettled-AllOpen debtor_after) (
      All-append _ (before_last n ns) _ (before_last-All _ n ns h)
        (unsettled-AllOpen creditor_after))

  length-left_over :
      ltb_ℤ d.net (pos 0) ≡ true
      → ltb_ℤ (pos 0) creditor.net ≡ true
      → length left_over ≤ length ns + 1
  length-left_over owes owed =
      let rest = before_last n ns ++ unsettled creditor_after in
      ground (
        arith,
        one_settled d.net creditor.net owes owed,
        length-append (unsettled debtor_after) rest,
        length-append (before_last n ns) (unsettled creditor_after),
        length-unsettled debtor_after,
        length-unsettled creditor_after,
        length-before_last n ns,
      )

  pub round_goes :
      IsSorted (d ∷ n ∷ ns)
      → AllOpen (d ∷ n ∷ ns)
      → sum_all (d ∷ n ∷ ns) ≡ pos 0
      → (e : SimplifiedDebtEdge) × (left : List Net) × Advances asset (d ∷ n ∷ ns) e left
  unfolding round
  round_goes s opens zero_sum =
      let owes = first_owes d (n ∷ ns) s opens.0 zero_sum in
      let owed = last_is_owed d n ns s.1 owes zero_sum in
      let few = length-left_over owes owed in
      let least_open : is_zero d.net ≡ false = ground arith in
      let last_open : is_zero creditor.net ≡ false = ground arith in
      (
        edge asset d creditor paid,
        left_over,
        (
          (rw (least_open, last_open, owes) refl),
          (refl, amount_positive d.net creditor.net owes owed),
          left_over-AllOpen opens.1,
          (omega arith),
          (omega arith),
          total_left,
        ),
      )
