-- ===== src/Debts/Caching.antt =====
-- The methods of backend/src/debt-simplification/debt-simplification.service.ts.
use stellar_split.Prelude.{
  ℕ, ◌+◌, ◌*◌, Bool, true, false, not, ◌&&◌, ◌||◌, Option, none, some, List, [], ◌∷◌, ltb, ◌==◌,
  if◌then◌else◌, length, select, is_some, Keyed, save_row, not_found, db_failure, Action, return,
  gets, throw_if, or_throw, modify, ◌>>=◌, ◌>>◌,
}
use stellar_split.Entities.{Text, same_text}
use stellar_split.Debts.Entity.{SimplifiedDebtEdge, DebtGraphResult}
use stellar_split.Debts.Graph.{simplify}
use stellar_split.Debts.Links.{generate_stellar_payment_link}
use stellar_split.Debts.Store.{SimplifiedDebt, Store, Env, includes, load_raw_debts}

abbrev pub cache_ttl_ms : ℕ
cache_ttl_ms = 24 * 3_600_000

instance abbrev pub simplified_debt_keyed : Keyed SimplifiedDebt
simplified_debt_keyed = record { key = λ d. d.id }

-- `<` on strings, by code units.
abbrev pub text_before : Text → Text → Bool
text_before s [] = false
text_before [] (d ∷ ds) = true
text_before (c ∷ cs) (d ∷ ds) =
    if ltb c d then true else if c == d then text_before cs ds else false

-- `[...userIds].sort()`.
unfoldable pub insert_id : Text → List Text → List Text
insert_id t [] = t ∷ []
insert_id t (u ∷ us) = if text_before u t then u ∷ insert_id t us else t ∷ u ∷ us

unfoldable pub sort_ids : List Text → List Text
sort_ids [] = []
sort_ids (t ∷ ts) = insert_id t (sort_ids ts)

abbrev pub same_ids : List Text → List Text → Bool
same_ids [] [] = true
same_ids (s ∷ ss) (t ∷ ts) = same_text s t && same_ids ss ts
same_ids _ _ = false

abbrev pub same_group : Option ℕ → Option ℕ → Bool
same_group none none = true
same_group (some g) (some h) = g == h
same_group _ _ = false

-- A row for this set of users and this group, or for no group.
abbrev pub is_cached_for : List Text → Option ℕ → SimplifiedDebt → Bool
is_cached_for ids group d = same_ids d.calculated_for_user_ids ids && same_group d.group_id group

-- `ORDER BY "calculatedAt" DESC`, and the first: the earlier row among equals.
unfoldable pub newest : List SimplifiedDebt → Option SimplifiedDebt
newest [] = none
newest (d ∷ ds) = elim (newest ds) [
  | none ↦ some d
  | some e ↦ if ltb d.calculated_at e.calculated_at then some e else some d
]

unfoldable pub find_valid_cache : Env → List Text → Option ℕ → Store → Option SimplifiedDebt
find_valid_cache env ids group s =
    newest (select (λ d. is_cached_for ids group d && ltb env.now d.expires_at) s.simplified_debts)

unfoldable pub delete_where : Env → ℕ → (SimplifiedDebt → Bool) → Action Store (Unit {0})
delete_where env n p = do
  throw_if (not (env.write n)) db_failure
  modify (λ s. record s { simplified_debts = select (λ d. not (p d)) s.simplified_debts })

unfoldable pub save_simplified : Env → ℕ → SimplifiedDebt → Action Store (Unit {0})
save_simplified env n d = do
  throw_if (not (env.write n)) db_failure
  modify (λ s. record s { simplified_debts = save_row d s.simplified_debts })

unfoldable pub with_links : List SimplifiedDebtEdge → List SimplifiedDebtEdge
with_links [] = []
with_links (e ∷ es) =
    record e { payment_link = some (generate_stellar_payment_link e) } ∷ with_links es

unfoldable pub new_simplified_debt : Env → List Text → Option ℕ → DebtGraphResult → SimplifiedDebt
unfolding with_links
new_simplified_debt env ids group g = record {
  id = env.new_id;
  group_id = group;
  calculated_for_user_ids = ids;
  debts = with_links g.simplified_debts;
  original_transaction_count = g.original_transaction_count;
  simplified_transaction_count = g.simplified_transaction_count;
  savings_percentage = g.savings_percentage;
  calculated_at = env.now;
  expires_at = env.now + cache_ttl_ms;
}

unfoldable pub recalculate : Env → List Text → Option ℕ → Action Store SimplifiedDebt
unfolding delete_where save_simplified new_simplified_debt
recalculate env ids group = do
  debts ← gets (λ s. load_raw_debts ids s.participants)
  delete_where env 0 (is_cached_for ids group)
  save_simplified env 1 (new_simplified_debt env ids group (simplify debts))
  return (new_simplified_debt env ids group (simplify debts))

unfoldable pub calculate : Env → List Text → Option ℕ → Action Store SimplifiedDebt
unfolding recalculate find_valid_cache
calculate env user_ids group s = elim (find_valid_cache env (sort_ids user_ids) group s) [
  | some cached ↦ (return cached) s
  | none ↦ recalculate env (sort_ids user_ids) group s
]

-- `debt.paymentLink ?? link` for each edge, and whether one of them was missing.
unfoldable pub complete_links : List SimplifiedDebtEdge → List SimplifiedDebtEdge
complete_links [] = []
complete_links (e ∷ es) =
    elim e.payment_link [
      | none ↦ record e { payment_link = some (generate_stellar_payment_link e) }
      | some link ↦ e
    ]
    ∷ complete_links es

unfoldable pub lacks_links : List SimplifiedDebtEdge → Bool
lacks_links [] = false
lacks_links (e ∷ es) = not (is_some e.payment_link) || lacks_links es

unfoldable pub generate_payment_links : Env → List Text → Option ℕ → Action Store SimplifiedDebt
unfolding calculate save_simplified complete_links lacks_links
generate_payment_links env user_ids group = do
  d ← calculate env user_ids group
  (let completed : SimplifiedDebt = record d { debts = complete_links d.debts } in
      if lacks_links d.debts then save_simplified env 2 completed >> return completed else return d)

unfoldable pub get_by_group : Env → ℕ → Action Store SimplifiedDebt
unfolding newest
get_by_group env group s =
    or_throw
      (newest (
        select (λ d. same_group d.group_id (some group) && ltb env.now d.expires_at)
          s.simplified_debts))
      not_found s

-- The query's order of the rows is the database's.
unfoldable pub get_by_wallet :
    Env → (List SimplifiedDebt → List SimplifiedDebt) → Text → Action Store (List SimplifiedDebt)
unfolding includes
get_by_wallet env order wallet = gets (λ s. order (
    select (λ d. includes d.calculated_for_user_ids wallet && ltb env.now d.expires_at)
      s.simplified_debts))

-- One row deleted per wallet that a record was made for, one wallet at a time.
unfoldable pub invalidate_for_wallets : Env → ℕ → List Text → Action Store (Unit {0})
unfolding delete_where includes
invalidate_for_wallets env n [] = return tt
invalidate_for_wallets env n (w ∷ ws) =
    delete_where env n (λ d. includes d.calculated_for_user_ids w)
    >> invalidate_for_wallets env (n + 1) ws

unfoldable pub invalidate_for_group : Env → ℕ → Action Store (Unit {0})
unfolding delete_where
invalidate_for_group env group = delete_where env 0 (λ d. same_group d.group_id (some group))

-- Gives back how many rows were deleted.
unfoldable pub clean_expired_cache : Env → Action Store ℕ
unfolding delete_where
clean_expired_cache env = do
  expired ← gets (λ s. length (select (λ d. ltb d.expires_at env.now) s.simplified_debts))
  delete_where env 0 (λ d. ltb d.expires_at env.now)
  return expired
