-- ===== src/Access/Lookups.antt =====
-- Lemmas on lookups by identifier and on selections.
use stellar_split.Prelude.{
  ℕ, ◌≡◌, refl, sym, inl, inr, Bool, false, ◌&&◌, none, some, List, [], ◌∷◌, arith, ◌==◌, All,
  All-map, select, find_by_id, Keyed, Distinct, Bool-cases, ==→eq, ==-refl,
}
use stellar_split.Access.Scope.{includes, collect, split_keyed}

module _ {A : Type 0} where
  pub select_agree :
      (p q : A → Bool) (xs : List A) → All (λ x. p x ≡ q x) xs → select p xs ≡ select q xs
  select_agree p q [] h = refl
  select_agree p q (x ∷ xs) (e, h) = rw (e, select_agree p q xs h) refl

  pub select-select :
      (p q : A → Bool) (xs : List A) → select p (select q xs) ≡ select (λ x. q x && p x) xs
  select-select p q [] = refl
  select-select p q (x ∷ xs) = elim (Bool-cases (q x)) [
    | inl e ↦ ground (arith, select-select p q xs)
    | inr e ↦ ground (arith, select-select p q xs)
  ]

  pub each_holds : (P : A → Type 0) (xs : List A) → ((x : A) → P x) → All P xs
  each_holds P [] f = tt
  each_holds P (x ∷ xs) f = (f x, each_holds P xs f)

module _ {A : Type 0} ⦃k : Keyed A⦄ where
  later_step :
      (x y : A) (xs : List A)
      → find_by_id (k.key x) xs ≡ none
      → find_by_id (k.key y) xs ≡ some y
      → find_by_id (k.key y) (x ∷ xs) ≡ some y
  unfolding find_by_id
  later_step x y xs fresh h = elim (Bool-cases (k.key x == k.key y)) [
    | inl same ↦
        let gone : find_by_id (k.key y) xs ≡ none =
          rw (sym (==→eq (k.key x) (k.key y) same)) fresh in
        cc
    | inr other ↦ rw other h
  ]

  -- Every row is the one that its identifier finds.
  pub each_found : (xs : List A) → Distinct xs → All (λ x. find_by_id (k.key x) xs ≡ some x) xs
  unfolding find_by_id
  each_found [] d = tt
  each_found (x ∷ xs) (fresh, d) = (
    rw (==-refl (k.key x)) refl,
    All-map (λ y. find_by_id (k.key y) xs ≡ some y) _ xs (λ y e. later_step x y xs fresh e)
        (each_found xs d),
  )

  includes-none :
      (p : A → Bool) (i : ℕ) (xs : List A)
      → find_by_id i xs ≡ none
      → includes (collect k.key (select p xs)) i ≡ false
  unfolding find_by_id
  includes-none p i [] e = refl
  includes-none p i (x ∷ xs) e = elim (Bool-cases (p x)) [
    | inl picked ↦ ground (arith, includes-none p i xs)
    | inr left_out ↦ ground (arith, includes-none p i xs)
  ]

  -- Whether the identifier of a row is among those selected.
  pub includes-select :
      (p : A → Bool) (i : ℕ) (xs : List A) {a : A}
      → Distinct xs
      → find_by_id i xs ≡ some a
      → includes (collect k.key (select p xs)) i ≡ p a
  unfolding find_by_id
  includes-select p i [] d e = cc
  includes-select p i (x ∷ xs) {a} (fresh, d) e = elim (Bool-cases (k.key x == i)) [
    | inl here ↦
        let gone : find_by_id i xs ≡ none = rw (sym (==→eq (k.key x) i here)) fresh in
        ground (arith, includes-none p i xs gone)
    | inr there ↦
        let found : find_by_id i xs ≡ some a = ground arith in
        ground (arith, includes-select p i xs {a = a} d found)
  ]
