-- ===== src/Splitting/Entity.antt =====
-- backend/src/modules/splits/dto/calculate-split.dto.ts. Amounts are in hundredths, percentages in
-- hundredths of a per cent.
use stellar_split.Prelude.{ℕ, Option, List}
use stellar_split.Prelude.Ints.{ℤ}
use stellar_split.Entities.{Text}

pub data SplitType : Type 0 where
  equal itemized percentage custom : SplitType

pub data TipDistributionType : Type 0 where
  equal proportional : TipDistributionType

pub record ItemDto : Type 0 where
  pub name : Text
  pub price : ℤ
  pub participant_ids : List ℕ

pub record PercentageSplitDto : Type 0 where
  pub participant_id : ℕ
  pub percentage : ℤ

pub record CustomSplitDto : Type 0 where
  pub participant_id : ℕ
  pub amount : ℤ

pub record CalculateSplitDto : Type 0 where
  pub split_type : SplitType
  pub subtotal : ℤ
  pub tax : Option ℤ
  pub tip : Option ℤ
  pub tip_distribution : Option TipDistributionType
  pub participant_ids : List ℕ
  pub items : Option (List ItemDto)
  pub percentages : Option (List PercentageSplitDto)
  pub custom_amounts : Option (List CustomSplitDto)

pub record ParticipantShareDto : Type 0 where
  pub participant_id : ℕ
  pub subtotal : ℕ
  pub tax : ℕ
  pub tip : ℕ
  pub total : ℤ
  pub items : Option (List Text)

pub record SplitCalculationResultDto : Type 0 where
  pub split_type : SplitType
  pub original_subtotal : ℤ
  pub original_tax : ℤ
  pub original_tip : ℤ
  pub grand_total : ℤ
  pub shares : List ParticipantShareDto
  pub rounding_adjustment : ℤ
