-- ===== src/Paging/Order.antt =====
-- Rows in the order of a page: by creation time, then identifier.
use stellar_split.Prelude.{
  length, ◌+◌, ◌≡◌, ◌≢◌, refl, inl, inr, Bool, true, false, List, [], ◌∷◌, arith, if◌then◌else◌,
  select, All, All-map, Bool-cases,
}
use stellar_split.Paging.Paginate.{Stamped, is_before, insert_row, order_rows}

module _ {ℓ} {A : Type ℓ} ⦃st : Stamped A⦄ where
  abbrev pub IsSorted : List A → Type ℓ
  IsSorted [] = Unit
  IsSorted (a ∷ as') = All (λ b. is_before a b ≡ true) as' × IsSorted as'

  -- No two rows have one identifier.
  abbrev pub HasDistinctIds : List A → Type ℓ
  HasDistinctIds [] = Unit
  HasDistinctIds (a ∷ as') = All (λ b. st.id a ≢ st.id b) as' × HasDistinctIds as'

  insert_row-All {κ} :
      (P : A → Type κ) (a : A) (rows : List A) → P a → All P rows → All P (insert_row a rows)
  unfolding insert_row
  insert_row-All P a [] h hs = (h, tt)
  insert_row-All P a (b ∷ bs) h hs = ground (arith, insert_row-All P a bs h hs.1)

  pub order_rows-All {κ} : (P : A → Type κ) (rows : List A) → All P rows → All P (order_rows rows)
  unfolding order_rows
  order_rows-All P [] h = tt
  order_rows-All P (a ∷ rest) h =
      insert_row-All P a (order_rows rest) h.0 (order_rows-All P rest h.1)

  length-insert_row : (a : A) (rows : List A) → length (insert_row a rows) ≡ length rows + 1
  unfolding insert_row
  length-insert_row a [] = omega arith
  length-insert_row a (b ∷ bs) = ground (arith, length-insert_row a bs)

  pub length-order_rows : (rows : List A) → length (order_rows rows) ≡ length rows
  unfolding order_rows
  length-order_rows [] = refl
  length-order_rows (a ∷ rest) =
      ground (arith, length-insert_row a (order_rows rest), length-order_rows rest)

  insert_row-IsSorted :
      (a : A) (rows : List A)
      → All (λ b. st.id a ≢ st.id b) rows
      → IsSorted rows
      → IsSorted (insert_row a rows)
  unfolding insert_row
  insert_row-IsSorted a [] other s = (tt, tt)
  insert_row-IsSorted a (b ∷ bs) other (first, s) = elim (Bool-cases (is_before b a)) [
    | inl before ↦ rw before (
      insert_row-All (λ c. is_before b c ≡ true) a bs before first,
      insert_row-IsSorted a bs other.1 s,
    )
    | inr not_before ↦
        let a_first : is_before a b ≡ true = ground (arith, other.0) in
        rw not_before (
          (a_first, All-map _ (λ c. is_before a c ≡ true) bs (λ c h. ground arith) first),
          (first, s),
        )
  ]

  pub order_rows-IsSorted : (rows : List A) → HasDistinctIds rows → IsSorted (order_rows rows)
  unfolding order_rows
  order_rows-IsSorted [] h = tt
  order_rows-IsSorted (a ∷ rest) (other, h) =
      insert_row-IsSorted a (order_rows rest) (order_rows-All _ rest other)
        (order_rows-IsSorted rest h)

  select-All : (p : A → Bool) (P : A → Type 0) (rows : List A) → All P rows → All P (select p rows)
  select-All p P [] h = tt
  select-All p P (a ∷ rest) h = ground (arith, select-All p P rest h.1)

  -- Inserting before rows that all come later.
  insert_row-first :
      (a : A) (rows : List A) → All (λ b. is_before b a ≡ false) rows → insert_row a rows ≡ a ∷ rows
  unfolding insert_row
  insert_row-first a [] h = refl
  insert_row-first a (b ∷ bs) h = rw (h.0) refl

  select-insert_row :
      (p : A → Bool) (a : A) (rows : List A)
      → IsSorted rows
      → select p (insert_row a rows) ≡ (if p a then insert_row a (select p rows) else select p rows)
  unfolding insert_row
  select-insert_row p a [] s = ground arith
  select-insert_row p a (b ∷ bs) (first, s) = elim (Bool-cases (is_before b a)) [
    | inl before ↦ ground (arith, select-insert_row p a bs s)
    | inr not_before ↦
        let later =
          select-All p (λ c. is_before c a ≡ false) bs
            (All-map _ _ bs (λ c h. ground arith) first) in
        ground (arith, not_before, insert_row-first a (select p bs) later)
  ]

  pub order_rows-select :
      (p : A → Bool) (rows : List A)
      → HasDistinctIds rows
      → order_rows (select p rows) ≡ select p (order_rows rows)
  unfolding order_rows
  order_rows-select p [] h = refl
  order_rows-select p (a ∷ rest) (other, h) = elim (Bool-cases (p a)) [
    | inl pass ↦
        rw
          (
            select-insert_row p a (order_rows rest) (order_rows-IsSorted rest h),
            pass,
            order_rows-select p rest h,
          )
          refl
    | inr fail ↦
        rw
          (
            select-insert_row p a (order_rows rest) (order_rows-IsSorted rest h),
            fail,
            order_rows-select p rest h,
          )
          refl
  ]
