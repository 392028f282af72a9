-- ===== src/Splitting/Fairness.antt =====
-- Equal splits: who pays what.
use stellar_split.Prelude.{
  ℕ, zero, suc, ◌≤◌, ◌≡◌, refl, inl, inr, Bool, not, none, List, [], ◌∷◌, arith, length, count, All,
  All-map, ok, Bool-cases,
}
use stellar_split.Prelude.Ints.{ℤ, pos, pos_part, ◌-ℤ◌, is_zero, abs, int_laws}
use stellar_split.Splitting.Entity.{
  SplitType, TipDistributionType, CalculateSplitDto, ParticipantShareDto, SplitCalculationResultDto,
}
use stellar_split.Splitting.Shares.{round_ratio, share_of, each_participant, calculate_equal_split}
use stellar_split.Splitting.Calculation.{
  largest_from, adjust_at, apply_rounding_adjustment, calculate_shares, rounding_adjustment,
  adjusted_shares, calculate_split,
}
use stellar_split.Splitting.Totals.{calculate_split_iff, calculation_ok}

abbrev pub differs : ℤ → ParticipantShareDto → Bool
differs c x = not (is_zero (x.total -ℤ c))

-- Everybody pays `c`, but for one at most, who pays no more than `n` more or less.
abbrev pub AllButOne : ℤ → ℕ → List ParticipantShareDto → Type 0
AllButOne c n xs =
    (count (differs c) xs ≤ 1)
    × All (λ (x : ParticipantShareDto). pos_part (abs (x.total -ℤ c)) ≤ n) xs

abbrev IsFlat : ℤ → List ParticipantShareDto → Type 0
IsFlat c = All (λ (x : ParticipantShareDto). x.total ≡ c)

self_minus : (c : ℤ) → c -ℤ c ≡ pos 0
self_minus c = omega int_laws

abs-neg : (a : ℤ) → pos_part (abs (pos 0 -ℤ a)) ≡ pos_part (abs a)
unfolding ◌-ℤ◌
abs-neg a = ground arith

none_differs : (c : ℤ) (xs : List ParticipantShareDto) → IsFlat c xs → count (differs c) xs ≡ 0
none_differs c [] h = refl
none_differs c (x ∷ xs) h = rw (h.0, self_minus c, none_differs c xs h.1) (omega arith)

flat_within :
    (c : ℤ) (n : ℕ) (xs : List ParticipantShareDto)
    → IsFlat c xs
    → All (λ (x : ParticipantShareDto). pos_part (abs (x.total -ℤ c)) ≤ n) xs
flat_within c n [] h = tt
flat_within c n (x ∷ xs) h = (rw (h.0, self_minus c) (omega arith), flat_within c n xs h.1)

adjust_at-AllButOne :
    (c a : ℤ) (k : ℕ) (xs : List ParticipantShareDto)
    → IsFlat c xs
    → AllButOne c (pos_part (abs a)) (adjust_at k a xs)
unfolding adjust_at
adjust_at-AllButOne c a k [] h = (omega arith, tt)
adjust_at-AllButOne c a zero (x ∷ xs) h =
    let lowered : c -ℤ a -ℤ c ≡ pos 0 -ℤ a = omega int_laws in
    (
      ground (arith, none_differs c xs h.1),
      (rw (h.0, lowered) (omega (arith, abs-neg a)), flat_within c (pos_part (abs a)) xs h.1),
    )
adjust_at-AllButOne c a (suc k) (x ∷ xs) h =
    let (few, within) = adjust_at-AllButOne c a k xs h.1 in
    (rw (h.0, self_minus c) (omega (arith, few)), (rw (h.0, self_minus c) (omega arith), within))

each_participant-IsFlat :
    (f : ℕ → ParticipantShareDto) (c : ℤ) (ids : List ℕ)
    → ((i : ℕ) → (f i).total ≡ c)
    → IsFlat c (each_participant f ids)
unfolding each_participant
each_participant-IsFlat f c [] h = tt
each_participant-IsFlat f c (i ∷ is) h = (h i, each_participant-IsFlat f c is h)

apply-AllButOne :
    (c a : ℤ) (xs : List ParticipantShareDto)
    → IsFlat c xs
    → AllButOne c (pos_part (abs a)) (apply_rounding_adjustment xs a)
unfolding apply_rounding_adjustment
apply-AllButOne c a [] h = (omega arith, tt)
apply-AllButOne c a (x ∷ xs) h = elim (Bool-cases (is_zero a)) [
  | inl e ↦ rw e ((omega (arith, none_differs c (x ∷ xs) h)), flat_within c _ (x ∷ xs) h)
  | inr e ↦ rw e (adjust_at-AllButOne c a (largest_from 0 0 x.total (x ∷ xs)) (x ∷ xs) h)
]

-- What each pays in an equal split before the adjustment.
unfoldable pub equal_total : CalculateSplitDto → ℤ
equal_total dto =
    (share_of dto TipDistributionType.equal 0
      (round_ratio (pos_part dto.subtotal) (length dto.participant_ids)) none).total

equal-IsFlat :
    (dto : CalculateSplitDto)
    → dto.split_type ≡ SplitType.equal
    → IsFlat (equal_total dto) (calculate_shares dto)
unfolding calculate_shares calculate_equal_split equal_total share_of
equal-IsFlat dto is_equal =
    rw (calculate_shares, is_equal)
      (each_participant-IsFlat _ (equal_total dto) dto.participant_ids (λ i. refl))

within_more :
    (c : ℤ) (m n : ℕ) (xs : List ParticipantShareDto) → m ≤ n → AllButOne c m xs → AllButOne c n xs
within_more c m n xs h (few, within) = (few, All-map _ _ xs (λ x w. omega (arith, w, h)) within)

-- In an equal split that goes through everybody pays the same but for one at most, who pays no more than
-- one cent for each participant more or less.
pub equal_split_fair :
    (dto : CalculateSplitDto) (r : SplitCalculationResultDto)
    → calculate_split dto ≡ ok r
    → dto.split_type ≡ SplitType.equal
    → AllButOne (equal_total dto) (length dto.participant_ids) r.shares
unfolding adjusted_shares
equal_split_fair dto r done is_equal =
    let (valid, shares, grand) = calculation_ok dto r done in
    let flat = equal-IsFlat dto is_equal in
    let n = length dto.participant_ids in
    let a = rounding_adjustment dto in
    let few : pos_part (abs a) ≤ n = (calculate_split_iff dto valid).0 (rw done refl) in
    rw shares (elim (Bool-cases (is_zero a)) [
      | inl e ↦
          rw (adjusted_shares, e)
            (
              (omega (arith, none_differs (equal_total dto) (calculate_shares dto) flat)),
              flat_within (equal_total dto) n (calculate_shares dto) flat,
            )
      | inr e ↦
          rw (adjusted_shares, e)
            (within_more (equal_total dto) (pos_part (abs a)) n _ few
              (apply-AllButOne (equal_total dto) a (calculate_shares dto) flat))
    ])
