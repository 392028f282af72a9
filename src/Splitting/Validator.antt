-- ===== src/Splitting/Validator.antt =====
-- backend/src/modules/splits/validators/split.validator.ts. Every check throws a bad request, so a
-- validation is the Boolean that tells whether none does.
use stellar_split.Prelude.{
  ℕ, Bool, true, false, not, ◌&&◌, ◌||◌, Option, List, [], ◌∷◌, ◌==◌, if◌then◌else◌, or_default,
  is_some, length,
}
use stellar_split.Prelude.Ints.{ℤ, pos, ◌+ℤ◌, ◌-ℤ◌, ltb_ℤ, abs}
use stellar_split.Entities.{Text, is_space}
use stellar_split.Splitting.Entity.{
  SplitType, ItemDto, PercentageSplitDto, CustomSplitDto, CalculateSplitDto,
}

abbrev pub includes : List ℕ → ℕ → Bool
includes [] i = false
includes (j ∷ js) i = if j == i then true else includes js i

-- `new Set(ids).size === ids.length`.
unfoldable pub has_no_duplicates : List ℕ → Bool
has_no_duplicates [] = true
has_no_duplicates (i ∷ is) = not (includes is i) && has_no_duplicates is

abbrev pub is_negative : ℤ → Bool
is_negative x = ltb_ℤ x (pos 0)

-- `dto.tax || 0`.
abbrev pub given : Option ℤ → ℤ
given x = or_default x (pos 0)

unfoldable pub expected_total : CalculateSplitDto → ℤ
expected_total dto = dto.subtotal +ℤ given dto.tax +ℤ given dto.tip

abbrev pub is_empty {ℓ} : {A : Type ℓ} → List A → Bool
is_empty [] = true
is_empty (x ∷ xs) = false

unfoldable pub validate_basic_requirements : CalculateSplitDto → Bool
unfolding has_no_duplicates expected_total
validate_basic_requirements dto =
    not (is_empty dto.participant_ids)
    && has_no_duplicates dto.participant_ids
    && not (is_negative dto.subtotal)
    && not (is_negative (given dto.tax))
    && not (is_negative (given dto.tip))
    && ltb_ℤ (pos 0) (expected_total dto)

unfoldable pub validate_equal_split : CalculateSplitDto → Bool
validate_equal_split dto =
    not (is_some dto.items || is_some dto.percentages || is_some dto.custom_amounts)

-- `!name || name.trim() === ''`.
unfoldable pub is_blank : Text → Bool
is_blank [] = true
is_blank (c ∷ cs) = is_space c && is_blank cs

unfoldable pub includes_all : List ℕ → List ℕ → Bool
includes_all ids [] = true
includes_all ids (i ∷ is) = includes ids i && includes_all ids is

unfoldable pub validate_item : List ℕ → ItemDto → Bool
unfolding is_blank includes_all has_no_duplicates
validate_item ids item =
    not (is_blank item.name)
    && not (is_negative item.price)
    && not (is_empty item.participant_ids)
    && includes_all ids item.participant_ids
    && has_no_duplicates item.participant_ids

unfoldable pub validate_items : List ℕ → List ItemDto → Bool
unfolding validate_item
validate_items ids [] = true
validate_items ids (x ∷ xs) = validate_item ids x && validate_items ids xs

unfoldable pub sum_prices : List ItemDto → ℤ
sum_prices [] = pos 0
sum_prices (x ∷ xs) = x.price +ℤ sum_prices xs

-- `Math.abs(a - b) > 0.01`, in units of 0.01.
abbrev pub is_off : ℤ → ℤ → Bool
is_off a b = ltb_ℤ (pos 1) (abs (a -ℤ b))

unfoldable pub validate_itemized_split : CalculateSplitDto → Bool
unfolding validate_items sum_prices
validate_itemized_split dto =
    let items = or_default dto.items [] in
    not (is_empty items)
    && not (is_some dto.percentages || is_some dto.custom_amounts)
    && validate_items dto.participant_ids items
    && not (is_off (sum_prices items) dto.subtotal)

-- The entries are checked in their order, `seen` being those before.
unfoldable pub validate_percentages : List ℕ → List ℕ → List PercentageSplitDto → Bool
validate_percentages ids seen [] = true
validate_percentages ids seen (x ∷ xs) =
    includes ids x.participant_id
    && not (includes seen x.participant_id)
    && not (is_negative x.percentage || ltb_ℤ (pos 10_000) x.percentage)
    && validate_percentages ids (x.participant_id ∷ seen) xs

unfoldable pub sum_percentages : List PercentageSplitDto → ℤ
sum_percentages [] = pos 0
sum_percentages (x ∷ xs) = x.percentage +ℤ sum_percentages xs

abbrev pub percentage_ids : List PercentageSplitDto → List ℕ
percentage_ids [] = []
percentage_ids (x ∷ xs) = x.participant_id ∷ percentage_ids xs

unfoldable pub validate_percentage_split : CalculateSplitDto → Bool
unfolding validate_percentages sum_percentages includes_all
validate_percentage_split dto =
    let percentages = or_default dto.percentages [] in
    not (is_empty percentages)
    && not (is_some dto.items || is_some dto.custom_amounts)
    && validate_percentages dto.participant_ids [] percentages
    && not (is_off (sum_percentages percentages) (pos 10_000))
    && includes_all (percentage_ids percentages) dto.participant_ids

unfoldable pub validate_amounts : List ℕ → List ℕ → List CustomSplitDto → Bool
validate_amounts ids seen [] = true
validate_amounts ids seen (x ∷ xs) =
    includes ids x.participant_id
    && not (includes seen x.participant_id)
    && not (is_negative x.amount)
    && validate_amounts ids (x.participant_id ∷ seen) xs

unfoldable pub sum_amounts : List CustomSplitDto → ℤ
sum_amounts [] = pos 0
sum_amounts (x ∷ xs) = x.amount +ℤ sum_amounts xs

abbrev pub amount_ids : List CustomSplitDto → List ℕ
amount_ids [] = []
amount_ids (x ∷ xs) = x.participant_id ∷ amount_ids xs

unfoldable pub validate_custom_split : CalculateSplitDto → Bool
unfolding validate_amounts sum_amounts includes_all
validate_custom_split dto =
    let amounts = or_default dto.custom_amounts [] in
    not (is_empty amounts)
    && not (is_some dto.items || is_some dto.percentages)
    && validate_amounts dto.participant_ids [] amounts
    && not (is_off (sum_amounts amounts) dto.subtotal)
    && includes_all (amount_ids amounts) dto.participant_ids

unfoldable pub validate : CalculateSplitDto → Bool
unfolding validate_basic_requirements validate_equal_split validate_itemized_split
    validate_percentage_split validate_custom_split
validate dto = validate_basic_requirements dto && elim dto.split_type [
  | SplitType.equal ↦ validate_equal_split dto
  | SplitType.itemized ↦ validate_itemized_split dto
  | SplitType.percentage ↦ validate_percentage_split dto
  | SplitType.custom ↦ validate_custom_split dto
]

-- At most one cent off in all, and one for each participant before the adjustment.
unfoldable pub validate_result : CalculateSplitDto → ℤ → ℤ → Bool
unfolding expected_total
validate_result dto total adjustment =
    not (is_off total (expected_total dto))
    && not (ltb_ℤ (pos (length dto.participant_ids)) (abs adjustment))
