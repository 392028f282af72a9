-- ===== src/Splitting/Calculation.antt =====
-- `calculateSplit` and `applyRoundingAdjustment` of
-- backend/src/modules/splits/split-calculation.service.ts.
use stellar_split.Prelude.{
  ℕ, zero, suc, ◌+◌, true, false, not, List, [], ◌∷◌, if◌then◌else◌, bad_request, Result, ok, err,
}
use stellar_split.Prelude.Ints.{ℤ, pos, ◌+ℤ◌, ◌-ℤ◌, ltb_ℤ, is_zero}
use stellar_split.Splitting.Entity.{
  SplitType, CalculateSplitDto, ParticipantShareDto, SplitCalculationResultDto,
}
use stellar_split.Splitting.Validator.{expected_total, given, validate, validate_result}
use stellar_split.Splitting.Shares.{
  calculate_equal_split, calculate_itemized_split, calculate_percentage_split,
  calculate_custom_split,
}

unfoldable pub sum_totals : List ParticipantShareDto → ℤ
sum_totals [] = pos 0
sum_totals (x ∷ xs) = x.total +ℤ sum_totals xs

-- The index of the largest total, the first of several: `best` with the total `most` so far, at `i`.
unfoldable pub largest_from : ℕ → ℕ → ℤ → List ParticipantShareDto → ℕ
largest_from i best most [] = best
largest_from i best most (x ∷ xs) = elim (ltb_ℤ most x.total) [
  | true ↦ largest_from (i + 1) i x.total xs
  | false ↦ largest_from (i + 1) best most xs
]

unfoldable pub adjust_at : ℕ → ℤ → List ParticipantShareDto → List ParticipantShareDto
adjust_at k adjustment [] = []
adjust_at zero adjustment (x ∷ xs) = record x { total = x.total -ℤ adjustment } ∷ xs
adjust_at (suc k) adjustment (x ∷ xs) = x ∷ adjust_at k adjustment xs

unfoldable pub apply_rounding_adjustment : List ParticipantShareDto → ℤ → List ParticipantShareDto
unfolding largest_from adjust_at
apply_rounding_adjustment [] adjustment = []
apply_rounding_adjustment (x ∷ xs) adjustment =
    if is_zero adjustment
    then x ∷ xs
    else adjust_at (largest_from 0 0 x.total (x ∷ xs)) adjustment (x ∷ xs)

unfoldable pub calculate_shares : CalculateSplitDto → List ParticipantShareDto
unfolding calculate_equal_split calculate_itemized_split calculate_percentage_split
    calculate_custom_split
calculate_shares dto = elim dto.split_type [
  | SplitType.equal ↦ calculate_equal_split dto
  | SplitType.itemized ↦ calculate_itemized_split dto
  | SplitType.percentage ↦ calculate_percentage_split dto
  | SplitType.custom ↦ calculate_custom_split dto
]

unfoldable pub rounding_adjustment : CalculateSplitDto → ℤ
unfolding sum_totals calculate_shares expected_total
rounding_adjustment dto = sum_totals (calculate_shares dto) -ℤ expected_total dto

unfoldable pub adjusted_shares : CalculateSplitDto → List ParticipantShareDto
unfolding apply_rounding_adjustment calculate_shares rounding_adjustment
adjusted_shares dto =
    if is_zero (rounding_adjustment dto)
    then calculate_shares dto
    else apply_rounding_adjustment (calculate_shares dto) (rounding_adjustment dto)

unfoldable pub calculate_split : CalculateSplitDto → Result SplitCalculationResultDto
unfolding validate validate_result adjusted_shares
calculate_split dto =
    if not (validate dto)
    then err bad_request
    else let shares = adjusted_shares dto in
      if not (validate_result dto (sum_totals shares) (rounding_adjustment dto))
      then err bad_request
      else ok (record {
        split_type = dto.split_type;
        original_subtotal = dto.subtotal;
        original_tax = given dto.tax;
        original_tip = given dto.tip;
        grand_total = expected_total dto;
        shares = shares;
        rounding_adjustment = rounding_adjustment dto;
      })
