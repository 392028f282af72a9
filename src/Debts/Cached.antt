-- ===== src/Debts/Cached.antt =====
-- What the cache of simplified debts gives back.
use stellar_split.Prelude.{
  ℕ, ◌+◌, ◌<◌, ◌≡◌, refl, inl, inr, Bool, true, not, ◌&&◌, Option, none, some, List, [], ◌∷◌, arith,
  ltb, ◌++◌, select, Keyed, find_by_id, save_row, ok, Bool-cases, save_row-fresh, ==-refl,
}
use stellar_split.Entities.{Text, same_text_refl}
use stellar_split.Debts.Graph.{simplify}
use stellar_split.Debts.Store.{Participant, SimplifiedDebt, Store, Env, load_raw_debts}
use stellar_split.Debts.Caching.{
  simplified_debt_keyed, sort_ids, same_ids, same_group, is_cached_for, newest, find_valid_cache,
  delete_where, save_simplified, new_simplified_debt, recalculate, calculate,
}

same_ids_refl : (ids : List Text) → same_ids ids ids ≡ true
same_ids_refl [] = refl
same_ids_refl (t ∷ ts) = rw (same_text_refl t, same_ids_refl ts)

same_group_refl : (g : Option ℕ) → same_group g g ≡ true
same_group_refl none = refl
same_group_refl (some g) = ==-refl g

module _ {A : Type 0} where
  -- What is deleted is not found.
  select-deleted :
      (p q : A → Bool) (xs : List A) → select (λ x. p x && q x) (select (λ x. not (p x)) xs) ≡ []
  select-deleted p q [] = refl
  select-deleted p q (x ∷ xs) = ground (arith, select-deleted p q xs)

  select-append : (p : A → Bool) (xs ys : List A) → select p (xs ++ ys) ≡ select p xs ++ select p ys
  select-append p [] ys = refl
  select-append p (x ∷ xs) ys = ground (arith, select-append p xs ys)

module _ {A : Type 0} ⦃k : Keyed A⦄ (p : A → Bool) where
  select-find : (i : ℕ) (xs : List A) → find_by_id i xs ≡ none → find_by_id i (select p xs) ≡ none
  unfolding find_by_id
  select-find i [] e = refl
  select-find i (x ∷ xs) e = ground (arith, select-find i xs)

abbrev fresh_debt : Env → List Text → Option ℕ → Store → SimplifiedDebt
fresh_debt env ids group s =
    new_simplified_debt env ids group (simplify (load_raw_debts ids s.participants))

find_cache_after :
    (env later : Env) (ids : List Text) (group : Option ℕ) (d : SimplifiedDebt)
    (rows : List SimplifiedDebt) (ps : List Participant)
    → find_by_id d.id rows ≡ none
    → is_cached_for ids group d ≡ true
    → later.now < d.expires_at
    → find_valid_cache later ids group (record {
      participants = ps;
      simplified_debts = save_row d (select (λ x. not (is_cached_for ids group x)) rows);
    })
      ≡ some d
unfolding find_valid_cache newest
find_cache_after env later ids group d rows ps unused is_for soon =
    let others = select (λ x. not (is_cached_for ids group x)) rows in
    let saved =
      save_row-fresh d others
        (select-find (λ x. not (is_cached_for ids group x)) d.id rows unused) in
    let found =
      select-append (λ x. is_cached_for ids group x && ltb later.now x.expires_at) others
        (d ∷ []) in
    let gone =
      select-deleted (λ x. is_cached_for ids group x) (λ x. ltb later.now x.expires_at) rows in
    let valid : ltb later.now d.expires_at ≡ true = ground arith in
    rw (saved, found, gone, is_for, valid) refl

recalculate_ok :
    (env : Env) (ids : List Text) (group : Option ℕ) (s s' : Store) (d : SimplifiedDebt)
    → recalculate env ids group s ≡ (ok d, s')
    → (fresh_debt env ids group s ≡ d)
      × (s'.simplified_debts
          ≡ save_row d (select (λ x. not (is_cached_for ids group x)) s.simplified_debts))
unfolding recalculate delete_where save_simplified
recalculate_ok env ids group s s' d done = elim (Bool-cases (env.write 0)) [
  | inl first ↦ elim (Bool-cases (env.write 1)) [
    | inl second ↦ ground (arith, first, second)
    | inr failed ↦ ground (arith, first, failed)
  ]
  | inr failed ↦ ground (arith, failed)
]

-- For a day, and as long as the cached rows stay as the calculation left them, its users and group get the
-- row that it saved, whatever their debts have become, and nothing is written. The row's identifier must
-- have been unused.
pub calculate_cached :
    (env later : Env) (ids user_ids : List Text) (group : Option ℕ) (s s' : Store)
    (d : SimplifiedDebt) (changed : List Participant)
    → find_by_id env.new_id s.simplified_debts ≡ none
    → recalculate env ids group s ≡ (ok d, s')
    → sort_ids user_ids ≡ ids
    → later.now < env.now + 86_400_000
    → calculate later user_ids group (record s' { participants = changed })
      ≡ (ok d, record s' { participants = changed })
unfolding calculate recalculate delete_where save_simplified
calculate_cached env later ids user_ids group s s' d changed unused done sorted soon =
    let (fresh, saved) = recalculate_ok env ids group s s' d done in
    let found =
      find_cache_after env later ids group d s.simplified_debts changed (rw (← fresh) unused)
        (rw (← fresh) (rw (same_ids_refl ids, same_group_refl group) refl)) (rw (← fresh) soon) in
    rw (calculate, sorted, (rw (← saved) at found)) refl
