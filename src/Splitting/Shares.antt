-- ===== src/Splitting/Shares.antt =====
-- The amounts of backend/src/modules/splits/split-calculation.service.ts, in exact hundredths.
use stellar_split.Prelude.{
  ℕ, ◌+◌, ◌*◌, ◌/◌, Bool, true, false, ◌||◌, Option, none, some, List, [], ◌∷◌, ◌++◌, ◌==◌,
  if◌then◌else◌, or_default, length,
}
use stellar_split.Prelude.Ints.{pos, pos_part}
use stellar_split.Entities.{Text}
use stellar_split.Splitting.Entity.{
  TipDistributionType, ItemDto, PercentageSplitDto, CustomSplitDto, CalculateSplitDto,
  ParticipantShareDto,
}
use stellar_split.Splitting.Validator.{given}

-- `round` of a / b hundredths: halves go up.
unfoldable pub round_ratio : ℕ → ℕ → ℕ
round_ratio a b = (2 * a + b) / (2 * b)

unfoldable pub distribute_tax : ℕ → ℕ → ℕ → ℕ
unfolding round_ratio
distribute_tax participant_subtotal total_subtotal total_tax =
    if (total_tax == 0) || (total_subtotal == 0)
    then 0
    else round_ratio (total_tax * participant_subtotal) total_subtotal

unfoldable pub distribute_tip : ℕ → ℕ → ℕ → TipDistributionType → ℕ → ℕ
unfolding round_ratio
distribute_tip participant_subtotal total_subtotal total_tip distribution participants =
    if total_tip == 0 then 0 else elim distribution [
      | TipDistributionType.equal ↦ round_ratio total_tip participants
      | TipDistributionType.proportional ↦
          if total_subtotal == 0
          then round_ratio total_tip participants
          else round_ratio (total_tip * participant_subtotal) total_subtotal
    ]

-- One participant's share; the amounts of the request have been validated, and are not negative.
unfoldable pub share_of :
    CalculateSplitDto → TipDistributionType → ℕ → ℕ → Option (List Text) → ParticipantShareDto
unfolding distribute_tax distribute_tip
share_of dto by_default i subtotal items =
    let tax = distribute_tax subtotal (pos_part dto.subtotal) (pos_part (given dto.tax)) in
    let tip =
      distribute_tip subtotal (pos_part dto.subtotal) (pos_part (given dto.tip))
        (or_default dto.tip_distribution by_default) (length dto.participant_ids) in
    record {
      participant_id = i;
      subtotal = subtotal;
      tax = tax;
      tip = tip;
      total = pos (subtotal + tax + tip);
      items = items;
    }

-- `participantIds.map`.
unfoldable pub each_participant : (ℕ → ParticipantShareDto) → List ℕ → List ParticipantShareDto
each_participant f [] = []
each_participant f (i ∷ is) = f i ∷ each_participant f is

unfoldable pub calculate_equal_split : CalculateSplitDto → List ParticipantShareDto
unfolding share_of each_participant round_ratio
calculate_equal_split dto =
    each_participant
      (λ i.
        share_of dto TipDistributionType.equal i
          (round_ratio (pos_part dto.subtotal) (length dto.participant_ids)) none)
      dto.participant_ids

-- What a participant has to pay for items so far, as a fraction, and their names.
pub record Tab : Type 0 where
  pub participant : ℕ
  pub numerator : ℕ
  pub denominator : ℕ
  pub names : List Text

unfoldable pub open_tabs : List ℕ → List Tab
open_tabs [] = []
open_tabs (i ∷ is) =
    record { participant = i; numerator = 0; denominator = 1; names = [] } ∷ open_tabs is

-- The price's part of one participant is added: a new entry, if there is none.
unfoldable pub charge : ItemDto → ℕ → List Tab → List Tab
charge item i [] =
    record {
      participant = i;
      numerator = pos_part item.price;
      denominator = length item.participant_ids;
      names = item.name ∷ [];
    }
    ∷ []
charge item i (t ∷ ts) =
    if t.participant == i
    then record {
      participant = i;
      numerator = t.numerator * length item.participant_ids + pos_part item.price * t.denominator;
      denominator = t.denominator * length item.participant_ids;
      names = t.names ++ (item.name ∷ []);
    }
      ∷ ts
    else t ∷ charge item i ts

unfoldable pub charge_all : ItemDto → List ℕ → List Tab → List Tab
unfolding charge
charge_all item [] ts = ts
charge_all item (i ∷ is) ts = charge_all item is (charge item i ts)

unfoldable pub charge_items : List ItemDto → List Tab → List Tab
unfolding charge_all
charge_items [] ts = ts
charge_items (x ∷ xs) ts = charge_items xs (charge_all x x.participant_ids ts)

unfoldable pub find_tab : ℕ → List Tab → Option Tab
find_tab i [] = none
find_tab i (t ∷ ts) = if t.participant == i then some t else find_tab i ts

unfoldable pub tab_share : CalculateSplitDto → List Tab → ℕ → ParticipantShareDto
unfolding share_of round_ratio find_tab
tab_share dto tabs i = elim (find_tab i tabs) [
  | none ↦ share_of dto TipDistributionType.proportional i 0 (some [])
  | some t ↦
      share_of dto TipDistributionType.proportional i (round_ratio t.numerator t.denominator)
        (some t.names)
]

unfoldable pub calculate_itemized_split : CalculateSplitDto → List ParticipantShareDto
unfolding tab_share each_participant open_tabs charge_items
calculate_itemized_split dto =
    each_participant
      (tab_share dto (charge_items (or_default dto.items []) (open_tabs dto.participant_ids)))
      dto.participant_ids

-- The last entry of a participant, as a `Map` keeps it, or 0.
unfoldable pub percentage_of : ℕ → List PercentageSplitDto → ℕ
percentage_of i [] = 0
percentage_of i (x ∷ xs) =
    let later = percentage_of i xs in
    if has_entry xs then later else if x.participant_id == i then pos_part x.percentage else later
  where
    has_entry : List PercentageSplitDto → Bool
    has_entry [] = false
    has_entry (y ∷ ys) = if y.participant_id == i then true else has_entry ys

unfoldable pub calculate_percentage_split : CalculateSplitDto → List ParticipantShareDto
unfolding share_of each_participant round_ratio percentage_of
calculate_percentage_split dto =
    each_participant
      (λ i.
        share_of dto TipDistributionType.proportional i
          (round_ratio (pos_part dto.subtotal * percentage_of i (or_default dto.percentages []))
            10_000)
          none)
      dto.participant_ids

unfoldable pub amount_of : ℕ → List CustomSplitDto → ℕ
amount_of i [] = 0
amount_of i (x ∷ xs) =
    let later = amount_of i xs in
    if has_entry xs then later else if x.participant_id == i then pos_part x.amount else later
  where
    has_entry : List CustomSplitDto → Bool
    has_entry [] = false
    has_entry (y ∷ ys) = if y.participant_id == i then true else has_entry ys

unfoldable pub calculate_custom_split : CalculateSplitDto → List ParticipantShareDto
unfolding share_of each_participant amount_of
calculate_custom_split dto =
    each_participant
      (λ i.
        share_of dto TipDistributionType.proportional i
          (amount_of i (or_default dto.custom_amounts [])) none)
      dto.participant_ids
