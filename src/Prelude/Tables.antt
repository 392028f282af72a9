-- ===== src/Prelude/Tables.antt =====
-- A TypeORM repository as the list of its rows: `findOne`, `save`, `update` and their laws. Rows have
-- an identifier, the primary key; identifiers are only compared, so they are numbers.
use Prim.Native.Nat.{ℕ, ◌+◌}
use mathlib.Core.Path.{◌≡◌, refl}
use mathlib.Core.Bool.{Bool, true, false}
use mathlib.Core.Option.{Option, none, some}
use mathlib.Core.List.{List, [], ◌∷◌, ◌++◌}
use native.Mathlib.Omega.{arith}
use stellar_split.Prelude.Tests.{◌==◌, if◌then◌else◌}
use stellar_split.Prelude.Lists.{All, count}

pub record Keyed {ℓ} (A : Type ℓ) : Type ℓ where
  pub key : A → ℕ

module _ {ℓ} {A : Type ℓ} where
  -- `findOne({ where })`: the first row that passes.
  unfoldable pub find_where : (A → Bool) → List A → Option A
  find_where p [] = none
  find_where p (x ∷ xs) = if p x then some x else find_where p xs

  pub find_where-none :
      (p : A → Bool) (xs : List A) → find_where p xs ≡ none → All (λ a. p a ≡ false) xs
  unfolding find_where
  find_where-none p [] h = tt
  find_where-none p (x ∷ xs) h = ground (arith, find_where-none p xs)

  pub find_where-pass : (p : A → Bool) (xs : List A) {a : A} → find_where p xs ≡ some a → p a ≡ true
  unfolding find_where
  find_where-pass p [] h = cc
  find_where-pass p (x ∷ xs) {a} h = ground (arith, find_where-pass p xs {a = a})

  pub find_where-All {κ} :
      (P : A → Type κ) (p : A → Bool) (xs : List A) {a : A}
      → All P xs
      → find_where p xs ≡ some a
      → P a
  unfolding find_where
  find_where-All P p [] h e = cc
  find_where-All P p (x ∷ xs) {a} h e = ground (arith, find_where-All P p xs {a = a} h.1)

  pub count-none : (p : A → Bool) (xs : List A) → All (λ a. p a ≡ false) xs → count p xs ≡ 0
  count-none p [] h = refl
  count-none p (x ∷ xs) h = ground (arith, count-none p xs h.1)

  pub count-find_where-none : (p : A → Bool) (xs : List A) → find_where p xs ≡ none → count p xs ≡ 0
  count-find_where-none p xs h = count-none p xs (find_where-none p xs h)

module _ {ℓ} {A : Type ℓ} ⦃k : Keyed A⦄ where
  -- `findOne({ where: { id } })`.
  unfoldable pub find_by_id : ℕ → List A → Option A
  find_by_id i [] = none
  find_by_id i (x ∷ xs) = if k.key x == i then some x else find_by_id i xs

  -- `save(row)`: writes over the row with its identifier, or inserts it.
  unfoldable pub save_row : A → List A → List A
  save_row a [] = a ∷ []
  save_row a (x ∷ xs) = if k.key x == k.key a then a ∷ xs else x ∷ save_row a xs

  -- `update({ id }, change)`.
  unfoldable pub update_row : ℕ → (A → A) → List A → List A
  update_row i f [] = []
  update_row i f (x ∷ xs) = if k.key x == i then f x ∷ xs else x ∷ update_row i f xs

  pub find-key : (i : ℕ) (xs : List A) {a : A} → find_by_id i xs ≡ some a → k.key a ≡ i
  unfolding find_by_id
  find-key i [] e = cc
  find-key i (x ∷ xs) {a} e = ground (arith, find-key i xs {a = a})

  pub find-All {κ} :
      (P : A → Type κ) (i : ℕ) (xs : List A) {a : A} → All P xs → find_by_id i xs ≡ some a → P a
  unfolding find_by_id
  find-All P i [] h e = cc
  find-All P i (x ∷ xs) {a} h e = ground (arith, find-All P i xs {a = a} h.1)

  pub find-save :
      (i : ℕ) (a : A) (xs : List A)
      → find_by_id i (save_row a xs) ≡ (if k.key a == i then some a else find_by_id i xs)
  unfolding find_by_id save_row
  find-save i a [] = refl
  find-save i a (x ∷ xs) = ground (arith, find-save i a xs)

  pub find-update :
      (i j : ℕ) (f : A → A) (xs : List A)
      → ((a : A) → k.key (f a) ≡ k.key a)
      → find_by_id j (update_row i f xs) ≡ (
          if i == j
          then elim (find_by_id j xs) [ none ↦ none | some a ↦ some (f a) ]
          else find_by_id j xs)
  unfolding find_by_id update_row
  find-update i j f [] h = ground arith
  find-update i j f (x ∷ xs) h = ground (arith, find-update i j f xs h, h x)

  pub All-save {κ} : (P : A → Type κ) (a : A) (xs : List A) → P a → All P xs → All P (save_row a xs)
  unfolding save_row
  All-save P a [] p h = (p, tt)
  All-save P a (x ∷ xs) p h = ground (arith, All-save P a xs p h.1)

  -- Inserting a new row.
  pub save_row-fresh :
      (a : A) (xs : List A) → find_by_id (k.key a) xs ≡ none → save_row a xs ≡ xs ++ (a ∷ [])
  unfolding find_by_id save_row
  save_row-fresh a [] e = refl
  save_row-fresh a (x ∷ xs) e = ground (arith, save_row-fresh a xs)

  -- Writing over a row that is there.
  pub count-save :
      (p : A → Bool) (a : A) (xs : List A) {old : A}
      → find_by_id (k.key a) xs ≡ some old
      → count p (save_row a xs) + (if p old then 1 else 0) ≡ count p xs + (if p a then 1 else 0)
  unfolding find_by_id save_row
  count-save p a [] e = cc
  count-save p a (x ∷ xs) {old} e = ground (arith, count-save p a xs {old = old})

  -- A new row, then its next version.
  pub count-save_fresh :
      (p : A → Bool) (a : A) (xs : List A)
      → find_by_id (k.key a) xs ≡ none
      → count p (save_row a xs) ≡ count p xs + (if p a then 1 else 0)
  unfolding find_by_id save_row
  count-save_fresh p a [] e = omega arith
  count-save_fresh p a (x ∷ xs) e = ground (arith, count-save_fresh p a xs)

  -- A row that passes, saved where none did, is the one that is found.
  pub find_where-save :
      (p : A → Bool) (a : A) (xs : List A)
      → find_where p xs ≡ none
      → p a ≡ true
      → find_where p (save_row a xs) ≡ some a
  unfolding find_where save_row
  find_where-save p a [] e h = ground arith
  find_where-save p a (x ∷ xs) e h = ground (arith, find_where-save p a xs)
