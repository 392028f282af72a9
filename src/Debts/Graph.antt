-- ===== src/Debts/Graph.antt =====
-- `simplify` of backend/src/debt-simplification/debt-graph.service.ts. A `Map` is the list of its entries
-- in the order of their insertion.
use stellar_split.Prelude.{ℕ, ◌+◌, ◌-◌, ◌*◌, ◌/◌, List, [], ◌∷◌, ◌++◌, if◌then◌else◌, length, ltb}
use stellar_split.Entities.{Text, same_text}
use stellar_split.Debts.Entity.{RawDebt, SimplifiedDebtEdge, DebtGraphResult}
use stellar_split.Debts.Greedy.{simplify_asset}

-- `byAsset`: the debt goes to its asset's list, a new one if there is none.
unfoldable pub add_by_asset : RawDebt → List (Text × List RawDebt) → List (Text × List RawDebt)
add_by_asset d [] = (d.asset, d ∷ []) ∷ []
add_by_asset d ((asset, list) ∷ rest) =
    if same_text asset d.asset
    then (asset, list ++ (d ∷ [])) ∷ rest
    else (asset, list) ∷ add_by_asset d rest

unfoldable pub group_by_asset :
    List RawDebt → List (Text × List RawDebt) → List (Text × List RawDebt)
group_by_asset [] groups = groups
group_by_asset (d ∷ ds) groups = group_by_asset ds (add_by_asset d groups)

unfoldable pub simplify_groups : List (Text × List RawDebt) → List SimplifiedDebtEdge
simplify_groups [] = []
simplify_groups ((asset, debts) ∷ rest) = simplify_asset asset debts ++ simplify_groups rest

-- `Math.round(percentage * 100) / 100`, in hundredths; no savings are counted where edges were added.
abbrev pub savings : ℕ → ℕ → ℕ
savings original simplified =
    if ltb 0 original
    then (2 * ((original - simplified) * 10_000) + original) / (2 * original)
    else 0

unfoldable pub simplify : List RawDebt → DebtGraphResult
simplify [] = record {
  simplified_debts = [];
  original_transaction_count = 0;
  simplified_transaction_count = 0;
  savings_percentage = 0;
}
simplify (d ∷ ds) =
    let edges = simplify_groups (group_by_asset (d ∷ ds) []) in
    record {
      simplified_debts = edges;
      original_transaction_count = length (d ∷ ds);
      simplified_transaction_count = length edges;
      savings_percentage = savings (length (d ∷ ds)) (length edges);
    }
