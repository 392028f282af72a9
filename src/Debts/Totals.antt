-- ===== src/Debts/Totals.antt =====
-- Net amounts: what flows into the wallets that a test picks, less what flows out of them.
use stellar_split.Prelude.{
  ◌≡◌, refl, ap, inl, inr, Bool, true, List, [], ◌∷◌, ◌++◌, if◌then◌else◌, select, Bool-cases,
}
use stellar_split.Prelude.Ints.{ℤ, pos, ◌+ℤ◌, ◌-ℤ◌, is_zero, is_zero→eq, int_laws}
use stellar_split.Entities.{Text, same_text, same_text→eq}
use stellar_split.Debts.Entity.{RawDebt, SimplifiedDebtEdge, Net}
use stellar_split.Debts.Balancing.{get_balance, set_balance, add_debt, balances, is_open, open_nets}

abbrev pub when : Bool → ℤ → ℤ
when b x = if b then x else pos 0

module _ (p : Text → Bool) where
  -- A payment of `a` from one wallet to another.
  abbrev pub flow : Text → Text → ℤ → ℤ
  flow from to a = when (p to) a -ℤ when (p from) a

  abbrev pub debt_net : List RawDebt → ℤ
  debt_net [] = pos 0
  debt_net (d ∷ ds) = flow d.from d.to d.amount +ℤ debt_net ds

  abbrev pub edge_net : List SimplifiedDebtEdge → ℤ
  edge_net [] = pos 0
  edge_net (e ∷ es) = flow e.from e.to e.amount +ℤ edge_net es

  abbrev pub total : List Net → ℤ
  total [] = pos 0
  total (n ∷ ns) = when (p n.wallet) n.net +ℤ total ns

  pub total-append : (ms ns : List Net) → total (ms ++ ns) ≡ total ms +ℤ total ns
  total-append [] ns = omega int_laws
  total-append (m ∷ ms) ns = rw (total-append ms ns) (omega int_laws)

  total-set_balance :
      (w : Text) (x : ℤ) (m : List Net)
      → total (set_balance w x m) ≡ total m +ℤ when (p w) (x -ℤ get_balance w m)
  unfolding set_balance get_balance
  total-set_balance w x [] = elim (Bool-cases (p w)) [
    | inl e ↦ rw e (omega int_laws)
    | inr e ↦ rw e (omega int_laws)
  ]
  total-set_balance w x (n ∷ ns) = elim (Bool-cases (same_text n.wallet w)) [
    | inl same ↦
        let e = ap p (same_text→eq n.wallet w same) in
        elim (Bool-cases (p n.wallet)) [
          | inl in_set ↦ rw (same, ← e, in_set) (omega int_laws)
          | inr not_in ↦ rw (same, ← e, not_in) (omega int_laws)
        ]
    | inr other ↦ rw (other, total-set_balance w x ns) (omega int_laws)
  ]

  total-add_debt :
      (d : RawDebt) (m : List Net) → total (add_debt d m) ≡ total m +ℤ flow d.from d.to d.amount
  unfolding add_debt
  total-add_debt d m =
      let m' = set_balance d.from (get_balance d.from m -ℤ d.amount) m in
      let first = total-set_balance d.from (get_balance d.from m -ℤ d.amount) m in
      let second = total-set_balance d.to (get_balance d.to m' +ℤ d.amount) m' in
      elim (Bool-cases (p d.to)) [
        | inl in_to ↦ elim (Bool-cases (p d.from)) [
          | inl in_from ↦ rw (second, first, in_to, in_from) (omega int_laws)
          | inr not_from ↦ rw (second, first, in_to, not_from) (omega int_laws)
        ]
        | inr not_to ↦ elim (Bool-cases (p d.from)) [
          | inl in_from ↦ rw (second, first, not_to, in_from) (omega int_laws)
          | inr not_from ↦ rw (second, first, not_to, not_from) (omega int_laws)
        ]
      ]

  total-balances :
      (ds : List RawDebt) (m : List Net) → total (balances ds m) ≡ total m +ℤ debt_net ds
  unfolding balances
  total-balances [] m = omega int_laws
  total-balances (d ∷ ds) m =
      rw (total-balances ds (add_debt d m), total-add_debt d m) (omega int_laws)

  total-select : (ns : List Net) → total (select is_open ns) ≡ total ns
  total-select [] = refl
  total-select (n ∷ ns) = elim (Bool-cases (is_zero n.net)) [
    | inl e ↦
        rw (e, total-select ns)
          (elim (Bool-cases (p n.wallet)) [
            | inl in_set ↦ rw (in_set, is_zero→eq n.net e) (omega int_laws)
            | inr not_in ↦ rw not_in (omega int_laws)
          ])
    | inr e ↦ rw (e, total-select ns)
  ]

  pub total-open_nets : (ds : List RawDebt) → total (open_nets ds) ≡ debt_net ds
  unfolding open_nets
  total-open_nets ds = rw (total-select (balances ds []), total-balances ds []) (omega int_laws)

-- Nothing comes in from outside.
pub debt_net-all : (ds : List RawDebt) → debt_net (λ _. true) ds ≡ pos 0
debt_net-all [] = refl
debt_net-all (d ∷ ds) = rw (debt_net-all ds) (omega int_laws)
