-- ===== src/Prelude/Keys.antt =====
-- Tables whose rows have distinct identifiers, and what a search by a condition finds in them.
use mathlib.Core.Path.{◌≡◌, refl}
use mathlib.Core.Logic.{inl, inr}
use mathlib.Core.Bool.{Bool, true}
use mathlib.Core.Option.{none, some}
use mathlib.Core.List.{List, [], ◌∷◌, ◌++◌}
use native.Mathlib.Omega.{arith}
use stellar_split.Prelude.Tests.{◌==◌, if◌then◌else◌, Option-cases}
use stellar_split.Prelude.Tables.{Keyed, find_where, find_by_id, save_row, find-save}

module _ {ℓ} {A : Type ℓ} ⦃k : Keyed A⦄ where
  -- The primary key: no two rows have one identifier.
  abbrev pub Distinct : List A → Type ℓ
  Distinct [] = Unit
  Distinct (x ∷ xs) = (find_by_id (k.key x) xs ≡ none) × Distinct xs

  pub save_row-Distinct : (a : A) (xs : List A) → Distinct xs → Distinct (save_row a xs)
  unfolding find_by_id save_row
  save_row-Distinct a [] h = (refl, tt)
  save_row-Distinct a (x ∷ xs) h =
      ground (arith, save_row-Distinct a xs h.1, find-save (k.key x) a xs)

  -- The row that a search finds is the one with its identifier.
  pub find_where-find :
      (p : A → Bool) (xs : List A) {a : A}
      → Distinct xs
      → find_where p xs ≡ some a
      → find_by_id (k.key a) xs ≡ some a
  unfolding find_where find_by_id
  find_where-find p [] h e = cc
  find_where-find p (x ∷ xs) {a} h e = ground (arith, find_where-find p xs {a = a} h.1)

  pub find_where-save_over :
      (p : A → Bool) (a : A) (xs : List A) {old : A}
      → Distinct xs
      → find_by_id (k.key a) xs ≡ some old
      → p a ≡ p old
      → find_where p (save_row a xs) ≡ (elim (find_where p xs) [
        | none ↦ none
        | some w ↦ if k.key w == k.key a then some a else some w
      ])
  unfolding find_where find_by_id save_row
  find_where-save_over p a [] h e same = cc
  find_where-save_over p a (x ∷ xs) {old} h e same = elim (Option-cases (find_where p xs)) [
    | inl none_there ↦ ground (arith, find_where-save_over p a xs {old = old} h.1)
    | inr (w, there) ↦
        ground (
          arith,
          find_where-save_over p a xs {old = old} h.1,
          find_where-find p xs {a = w} h.1 there,
        )
  ]

  pub find_where-save_fresh :
      (p : A → Bool) (a : A) (xs : List A)
      → find_by_id (k.key a) xs ≡ none
      → find_where p (save_row a xs)
        ≡ (elim (find_where p xs) [ none ↦ if p a then some a else none | some w ↦ some w ])
  unfolding find_where find_by_id save_row
  find_where-save_fresh p a [] e = refl
  find_where-save_fresh p a (x ∷ xs) e = ground (arith, find_where-save_fresh p a xs)

module _ {ℓ} {A : Type ℓ} where
  -- A row that passes, put behind rows that do not.
  pub find_where-append :
      (p : A → Bool) (a : A) (xs : List A)
      → find_where p xs ≡ none
      → p a ≡ true
      → find_where p (xs ++ (a ∷ [])) ≡ some a
  unfolding find_where
  find_where-append p a [] e h = ground arith
  find_where-append p a (x ∷ xs) e h = ground (arith, find_where-append p a xs)
