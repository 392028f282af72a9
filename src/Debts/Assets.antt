-- ===== src/Debts/Assets.antt =====
-- The debts of one asset, through the grouping of `simplify`.
use stellar_split.Prelude.{
  ◌≡◌, ◌∙◌, refl, ap, arith, inl, inr, Bool, List, [], ◌∷◌, ◌++◌, if◌then◌else◌, select, All,
  Bool-cases,
}
use stellar_split.Prelude.Ints.{ℤ, pos, ◌+ℤ◌, int_laws}
use stellar_split.Entities.{Text, same_text, same_text→eq}
use stellar_split.Debts.Entity.{RawDebt, SimplifiedDebtEdge}
use stellar_split.Debts.Greedy.{simplify_asset}
use stellar_split.Debts.Graph.{add_by_asset, group_by_asset, simplify_groups, simplify}
use stellar_split.Debts.Totals.{when, flow, debt_net, edge_net}
use stellar_split.Debts.Rounds.{IsPayment}
use stellar_split.Debts.Conservation.{simplify_asset-Settles}

+ℤ_zero : (x : ℤ) → pos 0 +ℤ x ≡ x
+ℤ_zero x = omega int_laws

module _ (asset : Text) where
  abbrev pub debts_in : List RawDebt → List RawDebt
  debts_in = select (λ d. same_text d.asset asset)

  abbrev pub edges_in : List SimplifiedDebtEdge → List SimplifiedDebtEdge
  edges_in = select (λ e. same_text e.asset asset)

  edges_in-append :
      (es fs : List SimplifiedDebtEdge) → edges_in (es ++ fs) ≡ edges_in es ++ edges_in fs
  edges_in-append [] fs = refl
  edges_in-append (e ∷ es) fs = ground (arith, edges_in-append es fs)

  -- The edges of one asset are all in it, or none is.
  edges_in_one :
      (b : Text) (es : List SimplifiedDebtEdge)
      → All (IsPayment b) es
      → edges_in es ≡ (if same_text b asset then es else [])
  edges_in_one b [] h = ground arith
  edges_in_one b (e ∷ es) ((same, _), h) = elim (Bool-cases (same_text b asset)) [
    | inl is ↦ rw (same, is, edges_in_one b es h) (rw is refl)
    | inr is_not ↦ rw (same, is_not, edges_in_one b es h) (rw is_not refl)
  ]

module _ (p : Text → Bool) where
  edge_net-append :
      (es fs : List SimplifiedDebtEdge) → edge_net p (es ++ fs) ≡ edge_net p es +ℤ edge_net p fs
  edge_net-append [] fs = omega int_laws
  edge_net-append (e ∷ es) fs = rw (edge_net-append es fs) (omega int_laws)

  debt_net-append :
      (ds : List RawDebt) (d : RawDebt)
      → debt_net p (ds ++ (d ∷ [])) ≡ debt_net p ds +ℤ flow p d.from d.to d.amount
  debt_net-append [] d = omega int_laws
  debt_net-append (c ∷ ds) d = rw (debt_net-append ds d) (omega int_laws)

module _ (asset : Text) (p : Text → Bool) where
  abbrev group_net : List (Text × List RawDebt) → ℤ
  group_net [] = pos 0
  group_net ((b, ds) ∷ gs) = when (same_text b asset) (debt_net p ds) +ℤ group_net gs

  group_net-add :
      (d : RawDebt) (gs : List (Text × List RawDebt))
      → group_net (add_by_asset d gs)
        ≡ group_net gs +ℤ when (same_text d.asset asset) (flow p d.from d.to d.amount)
  unfolding add_by_asset
  group_net-add d [] = elim (Bool-cases (same_text d.asset asset)) [
    | inl is ↦ rw is (omega int_laws)
    | inr is_not ↦ rw is_not (omega int_laws)
  ]
  group_net-add d ((b, ds) ∷ gs) = elim (Bool-cases (same_text b d.asset)) [
    | inl same ↦
        let e = ap (λ t. same_text t asset) (same_text→eq b d.asset same) in
        elim (Bool-cases (same_text b asset)) [
          | inl is ↦ rw (same, ← e, is, debt_net-append p ds d) (omega int_laws)
          | inr is_not ↦ rw (same, ← e, is_not) (omega int_laws)
        ]
    | inr other ↦ rw (other, group_net-add d gs) (omega int_laws)
  ]

  group_net-group :
      (ds : List RawDebt) (gs : List (Text × List RawDebt))
      → group_net (group_by_asset ds gs) ≡ group_net gs +ℤ debt_net p (debts_in asset ds)
  unfolding group_by_asset
  group_net-group [] gs = omega int_laws
  group_net-group (d ∷ ds) gs = elim (Bool-cases (same_text d.asset asset)) [
    | inl is ↦ rw (group_net-group ds (add_by_asset d gs), group_net-add d gs, is) (omega int_laws)
    | inr is_not ↦
        rw (group_net-group ds (add_by_asset d gs), group_net-add d gs, is_not) (omega int_laws)
  ]

  edge_net-groups :
      (gs : List (Text × List RawDebt))
      → edge_net p (edges_in asset (simplify_groups gs)) ≡ group_net gs
  unfolding simplify_groups
  edge_net-groups [] = refl
  edge_net-groups ((b, ds) ∷ gs) =
      let (nets, payments, _) = simplify_asset-Settles b ds in
      let es = simplify_asset b ds in
      let here = edges_in_one asset b es payments in
      elim (Bool-cases (same_text b asset)) [
        | inl is ↦
            rw
              (
                edges_in-append asset es (simplify_groups gs),
                edge_net-append p (edges_in asset es) (edges_in asset (simplify_groups gs)),
                edge_net-groups gs,
                here,
                is,
                nets p,
              )
              refl
        | inr is_not ↦
            rw
              (
                edges_in-append asset es (simplify_groups gs),
                edge_net-append p (edges_in asset es) (edges_in asset (simplify_groups gs)),
                edge_net-groups gs,
                here,
                is_not,
              )
              refl
      ]

  -- In each asset, and for every set of wallets, the simplified debts move into the set, less what they
  -- move out of it, exactly what the raw debts do.
  pub simplify_settles :
      (ds : List RawDebt)
      → edge_net p (edges_in asset (simplify ds).simplified_debts) ≡ debt_net p (debts_in asset ds)
  unfolding simplify
  simplify_settles [] = refl
  simplify_settles (d ∷ ds) =
      edge_net-groups (group_by_asset (d ∷ ds) [])
      ∙ group_net-group (d ∷ ds) []
      ∙ +ℤ_zero (debt_net p (debts_in asset (d ∷ ds)))
