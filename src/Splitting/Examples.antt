-- ===== src/Splitting/Examples.antt =====
-- Bills of small groups, and the theorems at them.
use stellar_split.Prelude.{ℕ, ◌≡◌, refl, true, none, some, List, [], ◌∷◌, bad_request, err}
use stellar_split.Prelude.Ints.{ℤ, pos, negsuc, ◌+ℤ◌, ◌-ℤ◌}
use stellar_split.Entities.{codes}
use stellar_split.Splitting.Entity.{
  SplitType, CalculateSplitDto, ParticipantShareDto, SplitCalculationResultDto,
}
use stellar_split.Splitting.Validator.{
  has_no_duplicates, expected_total, validate_basic_requirements, validate_equal_split,
  validate_itemized_split, is_blank, includes_all, validate_item, validate_items, sum_prices,
  validate, validate_result,
}
use stellar_split.Splitting.Shares.{
  round_ratio, distribute_tax, distribute_tip, share_of, each_participant, calculate_equal_split,
  open_tabs, charge, charge_all, charge_items, find_tab, tab_share, calculate_itemized_split,
}
use stellar_split.Splitting.Calculation.{
  sum_totals, largest_from, adjust_at, apply_rounding_adjustment, calculate_shares,
  rounding_adjustment, adjusted_shares, calculate_split,
}
use stellar_split.Splitting.Totals.{ids_of, calculate_split_exact}
use stellar_split.Splitting.Fairness.{AllButOne, equal_total, equal_split_fair}

abbrev bill : CalculateSplitDto
bill = record {
  split_type = SplitType.equal;
  subtotal = pos 10_000;
  tax = none;
  tip = none;
  tip_distribution = none;
  participant_ids = 1 ∷ 2 ∷ 3 ∷ [];
  items = none;
  percentages = none;
  custom_amounts = none;
}

abbrev pays : ℕ → ℕ → ℤ → ParticipantShareDto
pays i subtotal total = record {
  participant_id = i;
  subtotal = subtotal;
  tax = 0;
  tip = 0;
  total = total;
  items = none;
}

-- 100.00 for three.
abbrev result : SplitCalculationResultDto
result = record {
  split_type = SplitType.equal;
  original_subtotal = pos 10_000;
  original_tax = pos 0;
  original_tip = pos 0;
  grand_total = pos 10_000;
  shares = pays 1 3_333 (pos 3_334) ∷ pays 2 3_333 (pos 3_333) ∷ pays 3 3_333 (pos 3_333) ∷ [];
  rounding_adjustment = negsuc 0;
}

calculate_split_exact_example :
    (sum_totals result.shares ≡ expected_total bill)
    × (result.grand_total ≡ expected_total bill)
    × (ids_of result.shares ≡ bill.participant_ids)
unfolding calculate_split validate has_no_duplicates expected_total validate_basic_requirements
    validate_equal_split validate_result calculate_equal_split share_of distribute_tax
    distribute_tip round_ratio each_participant sum_totals largest_from adjust_at
    apply_rounding_adjustment calculate_shares rounding_adjustment adjusted_shares ◌+ℤ◌ ◌-ℤ◌
calculate_split_exact_example = calculate_split_exact bill result refl

equal_split_fair_example : AllButOne (equal_total bill) 3 result.shares
unfolding calculate_split validate has_no_duplicates expected_total validate_basic_requirements
    validate_equal_split validate_result calculate_equal_split share_of distribute_tax
    distribute_tip round_ratio each_participant sum_totals largest_from adjust_at
    apply_rounding_adjustment calculate_shares rounding_adjustment adjusted_shares ◌+ℤ◌ ◌-ℤ◌
equal_split_fair_example = equal_split_fair bill result refl refl

-- 50.01 with 1.01 of tax and 1.01 of tip, for two: each of the three amounts is rounded up for both.
abbrev refused_bill : CalculateSplitDto
refused_bill = record bill {
  subtotal = pos 5_001;
  tax = some (pos 101);
  tip = some (pos 101);
  participant_ids = 1 ∷ 2 ∷ [];
}

-- A valid request that is refused.
refused_test : calculate_split refused_bill ≡ err bad_request
unfolding calculate_split validate has_no_duplicates expected_total validate_basic_requirements
    validate_equal_split validate_result calculate_equal_split share_of distribute_tax
    distribute_tip round_ratio each_participant sum_totals largest_from adjust_at
    apply_rounding_adjustment calculate_shares rounding_adjustment adjusted_shares ◌+ℤ◌ ◌-ℤ◌
refused_test = refl

-- One has the steak, and both share the wine; the tax goes by what they had.
abbrev dinner : CalculateSplitDto
dinner = record bill {
  split_type = SplitType.itemized;
  subtotal = pos 6_000;
  tax = some (pos 600);
  participant_ids = 1 ∷ 2 ∷ [];
  items = some (
      record { name = codes "steak"; price = pos 4_000; participant_ids = 1 ∷ [] }
      ∷ record { name = codes "wine"; price = pos 2_000; participant_ids = 1 ∷ 2 ∷ [] }
      ∷ []);
}

abbrev totals_of : List ParticipantShareDto → List ℤ
totals_of [] = []
totals_of (x ∷ xs) = x.total ∷ totals_of xs

dinner_test : totals_of (adjusted_shares dinner) ≡ pos 5_500 ∷ pos 1_100 ∷ []
unfolding calculate_itemized_split open_tabs charge_items charge_all charge find_tab tab_share
    share_of distribute_tax distribute_tip round_ratio each_participant sum_totals largest_from
    adjust_at apply_rounding_adjustment calculate_shares rounding_adjustment adjusted_shares
    expected_total ◌+ℤ◌ ◌-ℤ◌
dinner_test = refl

dinner_valid_test : validate dinner ≡ true
unfolding validate has_no_duplicates expected_total validate_basic_requirements
    validate_itemized_split is_blank includes_all validate_item validate_items sum_prices ◌+ℤ◌ ◌-ℤ◌
dinner_valid_test = refl
