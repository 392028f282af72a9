-- ===== src/Splitting/Totals.antt =====
-- The shares of a calculation, against the amounts of its request.
use stellar_split.Prelude.{
  ℕ, zero, suc, ◌+◌, ◌≤◌, ◌<◌, ◌≡◌, ◌↔◌, refl, sym, ◌∙◌, ap, inl, inr, true, false, List, [], ◌∷◌,
  arith, length, ok, is_ok, Bool-cases, Option-cases,
}
use stellar_split.Prelude.Ints.{
  ℤ, pos, pos_part, neg_part, ◌-ℤ◌, ltb_ℤ, is_zero, is_zero→eq, abs, int_laws,
}
use stellar_split.Splitting.Entity.{
  SplitType, CalculateSplitDto, ParticipantShareDto, SplitCalculationResultDto,
}
use stellar_split.Splitting.Validator.{
  is_empty, expected_total, validate, validate_basic_requirements, validate_result, is_off,
}
use stellar_split.Splitting.Shares.{
  share_of, each_participant, calculate_equal_split, calculate_itemized_split,
  calculate_percentage_split, calculate_custom_split, tab_share, find_tab, Tab,
}
use stellar_split.Splitting.Calculation.{
  sum_totals, largest_from, adjust_at, apply_rounding_adjustment, calculate_shares,
  rounding_adjustment, adjusted_shares, calculate_split,
}

abbrev pub ids_of : List ParticipantShareDto → List ℕ
ids_of [] = []
ids_of (x ∷ xs) = x.participant_id ∷ ids_of xs

largest_from_bound :
    (i best : ℕ) (most : ℤ) (xs : List ParticipantShareDto)
    → best < i + length xs
    → largest_from i best most xs < i + length xs
unfolding largest_from
largest_from_bound i best most [] h = h
largest_from_bound i best most (x ∷ xs) h = elim (Bool-cases (ltb_ℤ most x.total)) [
  | inl more ↦
      rw (largest_from, more) (omega (arith, largest_from_bound (i + 1) i x.total xs (omega arith)))
  | inr not_more ↦
      rw (largest_from, not_more)
        (omega (arith, largest_from_bound (i + 1) best most xs (omega arith)))
]

sum_totals-adjust_at :
    (k : ℕ) (a : ℤ) (xs : List ParticipantShareDto)
    → k < length xs
    → sum_totals (adjust_at k a xs) ≡ sum_totals xs -ℤ a
unfolding sum_totals adjust_at
sum_totals-adjust_at k a [] h = absurd (omega arith)
sum_totals-adjust_at zero a (x ∷ xs) h = omega int_laws
sum_totals-adjust_at (suc k) a (x ∷ xs) h =
    rw (sum_totals-adjust_at k a xs (omega arith)) (omega int_laws)

ids-adjust_at :
    (k : ℕ) (a : ℤ) (xs : List ParticipantShareDto) → ids_of (adjust_at k a xs) ≡ ids_of xs
unfolding adjust_at
ids-adjust_at k a [] = refl
ids-adjust_at zero a (x ∷ xs) = refl
ids-adjust_at (suc k) a (x ∷ xs) = ap (◌∷◌ x.participant_id) (ids-adjust_at k a xs)

sum_totals-apply :
    (xs : List ParticipantShareDto) (a : ℤ)
    → is_empty xs ≡ false
    → sum_totals (apply_rounding_adjustment xs a) ≡ sum_totals xs -ℤ a
unfolding apply_rounding_adjustment
sum_totals-apply [] a h = cc
sum_totals-apply (x ∷ xs) a h = elim (Bool-cases (is_zero a)) [
  | inl e ↦ rw (e, is_zero→eq a e) (omega int_laws)
  | inr e ↦ rw e (
      sum_totals-adjust_at (largest_from 0 0 x.total (x ∷ xs)) a (x ∷ xs)
        (omega (arith, largest_from_bound 0 0 x.total (x ∷ xs) (omega arith))))
]

ids-apply :
    (xs : List ParticipantShareDto) (a : ℤ) → ids_of (apply_rounding_adjustment xs a) ≡ ids_of xs
unfolding apply_rounding_adjustment
ids-apply [] a = refl
ids-apply (x ∷ xs) a = elim (Bool-cases (is_zero a)) [
  | inl e ↦ rw e refl
  | inr e ↦ rw e (ids-adjust_at (largest_from 0 0 x.total (x ∷ xs)) a (x ∷ xs))
]

ids-each :
    (f : ℕ → ParticipantShareDto) (ids : List ℕ)
    → ((i : ℕ) → (f i).participant_id ≡ i)
    → ids_of (each_participant f ids) ≡ ids
unfolding each_participant
ids-each f [] h = refl
ids-each f (i ∷ is) h = rw (h i, ids-each f is h) refl

tab_share-id :
    (dto : CalculateSplitDto) (tabs : List Tab) (i : ℕ) → (tab_share dto tabs i).participant_id ≡ i
unfolding tab_share share_of
tab_share-id dto tabs i = elim (Option-cases (find_tab i tabs)) [
  | inl e ↦ rw (tab_share, e) refl
  | inr (t, e) ↦ rw (tab_share, e) refl
]

ids-calculate_shares :
    (dto : CalculateSplitDto) → ids_of (calculate_shares dto) ≡ dto.participant_ids
unfolding calculate_shares calculate_equal_split calculate_itemized_split calculate_percentage_split
    calculate_custom_split share_of
ids-calculate_shares dto = go dto.split_type refl
  where
    go : (t : SplitType) → dto.split_type ≡ t → ids_of (calculate_shares dto) ≡ dto.participant_ids
    go SplitType.equal e = rw (calculate_shares, e) (ids-each _ dto.participant_ids (λ i. refl))
    go SplitType.itemized e =
        rw (calculate_shares, e) (ids-each _ dto.participant_ids (λ i. tab_share-id dto _ i))
    go SplitType.percentage e =
        rw (calculate_shares, e) (ids-each _ dto.participant_ids (λ i. refl))
    go SplitType.custom e = rw (calculate_shares, e) (ids-each _ dto.participant_ids (λ i. refl))

is_empty-ids : (xs : List ParticipantShareDto) → is_empty (ids_of xs) ≡ is_empty xs
is_empty-ids [] = refl
is_empty-ids (x ∷ xs) = refl

shares_there :
    (dto : CalculateSplitDto)
    → is_empty dto.participant_ids ≡ false
    → is_empty (calculate_shares dto) ≡ false
shares_there dto some_there =
    sym (is_empty-ids (calculate_shares dto)) ∙ ap is_empty (ids-calculate_shares dto) ∙ some_there

no_difference : (a b : ℤ) → a -ℤ b ≡ pos 0 → a ≡ b
no_difference a b e = omega (int_laws, ap pos_part e, ap neg_part e)

take_back : (a b : ℤ) → a -ℤ (a -ℤ b) ≡ b
take_back a b = omega int_laws

pub adjusted_total :
    (dto : CalculateSplitDto)
    → is_empty dto.participant_ids ≡ false
    → sum_totals (adjusted_shares dto) ≡ expected_total dto
unfolding rounding_adjustment adjusted_shares
adjusted_total dto some_there =
    let shares = calculate_shares dto in
    let rest = rounding_adjustment dto in
    elim (Bool-cases (is_zero rest)) [
      | inl e ↦
          rw (adjusted_shares, e)
            (no_difference (sum_totals shares) (expected_total dto) (is_zero→eq rest e))
      | inr e ↦
          rw (adjusted_shares, e)
            (sum_totals-apply shares rest (shares_there dto some_there)
              ∙ take_back (sum_totals shares) (expected_total dto))
    ]

ids-adjusted_shares : (dto : CalculateSplitDto) → ids_of (adjusted_shares dto) ≡ dto.participant_ids
unfolding adjusted_shares
ids-adjusted_shares dto = elim (Bool-cases (is_zero (rounding_adjustment dto))) [
  | inl e ↦ rw (adjusted_shares, e) (ids-calculate_shares dto)
  | inr e ↦
      rw (adjusted_shares, e)
        (ids-apply (calculate_shares dto) (rounding_adjustment dto) ∙ ids-calculate_shares dto)
]

participants_there :
    (dto : CalculateSplitDto) → validate dto ≡ true → is_empty dto.participant_ids ≡ false
unfolding validate validate_basic_requirements
participants_there dto valid = ground arith

pub calculation_ok :
    (dto : CalculateSplitDto) (r : SplitCalculationResultDto)
    → calculate_split dto ≡ ok r
    → (validate dto ≡ true)
      × (r.shares ≡ adjusted_shares dto)
      × (r.grand_total ≡ expected_total dto)
unfolding calculate_split
calculation_ok dto r done = elim (Bool-cases (validate dto)) [
  | inr invalid ↦ absurd (ground (arith, invalid))
  | inl valid ↦
      elim (Bool-cases
        (validate_result dto (sum_totals (adjusted_shares dto)) (rounding_adjustment dto))) [
          | inl accepted ↦ ground (arith, valid, accepted)
          | inr refused ↦ absurd (ground (arith, valid, refused))
        ]
]

-- No cent is lost or made up: the shares of a calculation that goes through are one for each participant,
-- in the order of the request, and add up to its subtotal, tax and tip exactly, which is the grand total.
pub calculate_split_exact :
    (dto : CalculateSplitDto) (r : SplitCalculationResultDto)
    → calculate_split dto ≡ ok r
    → (sum_totals r.shares ≡ expected_total dto)
      × (r.grand_total ≡ expected_total dto)
      × (ids_of r.shares ≡ dto.participant_ids)
calculate_split_exact dto r done =
    let (valid, shares, grand) = calculation_ok dto r done in
    rw shares (adjusted_total dto (participants_there dto valid), grand, ids-adjusted_shares dto)

not_off : (a : ℤ) → is_off a a ≡ false
not_off a = let none_left : a -ℤ a ≡ pos 0 = omega int_laws in rw none_left refl

-- A request that is valid is answered exactly when rounding makes no more difference, in all, than one
-- cent for each participant.
pub calculate_split_iff :
    (dto : CalculateSplitDto)
    → validate dto ≡ true
    → (is_ok (calculate_split dto) ≡ true)
      ↔ (pos_part (abs (rounding_adjustment dto)) ≤ length dto.participant_ids)
unfolding calculate_split validate_result
calculate_split_iff dto valid =
    let total = adjusted_total dto (participants_there dto valid) in
    let exact : is_off (sum_totals (adjusted_shares dto)) (expected_total dto) ≡ false =
      rw total (not_off (expected_total dto)) in
    elim (Bool-cases (ltb_ℤ (pos (length dto.participant_ids)) (abs (rounding_adjustment dto)))) [
      | inl more ↦
          let verdict : validate_result dto (sum_totals (adjusted_shares dto))
                (rounding_adjustment dto)
              ≡ false =
            rw (validate_result, exact, more) refl in
          let outcome : is_ok (calculate_split dto) ≡ false =
            rw (calculate_split, valid, verdict) refl in
          ground (arith, outcome)
      | inr within ↦
          let verdict : validate_result dto (sum_totals (adjusted_shares dto))
                (rounding_adjustment dto)
              ≡ true =
            rw (validate_result, exact, within) refl in
          let outcome : is_ok (calculate_split dto) ≡ true =
            rw (calculate_split, valid, verdict) refl in
          ground (arith, outcome)
    ]
