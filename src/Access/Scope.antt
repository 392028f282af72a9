-- ===== src/Access/Scope.antt =====
-- backend/src/auth/services/access-scope.service.ts, but for the groups.
use stellar_split.Prelude.{
  ℕ, Bool, false, ◌&&◌, ◌||◌, Option, none, some, List, [], ◌∷◌, ltb, ◌==◌, count, select,
  find_by_id, Keyed,
}

-- The columns that are read. A user is known by an identifier or an address.
pub record Split : Type 0 where
  pub id : ℕ
  pub creator_wallet_address : Option ℕ

pub record Participant : Type 0 where
  pub id : ℕ
  pub user_id : ℕ
  pub split_id : ℕ

-- A receipt or a dispute: both are of a split.
pub record Owned : Type 0 where
  pub id : ℕ
  pub split_id : ℕ

instance abbrev pub split_keyed : Keyed Split
split_keyed = record { key = λ x. x.id }

instance abbrev pub participant_keyed : Keyed Participant
participant_keyed = record { key = λ x. x.id }

instance abbrev pub owned_keyed : Keyed Owned
owned_keyed = record { key = λ x. x.id }

-- Participants that are deleted are not among the rows.
pub record Store : Type 0 where
  pub splits : List Split
  pub participants : List Participant
  pub receipts : List Owned
  pub disputes : List Owned

-- `split?.creatorWalletAddress === userId`.
abbrev pub is_created_by : ℕ → Split → Bool
is_created_by user p = elim p.creator_wallet_address [ none ↦ false | some w ↦ w == user ]

unfoldable pub is_split_creator : ℕ → ℕ → Store → Bool
is_split_creator user i s = elim (find_by_id i s.splits) [
  | none ↦ false
  | some p ↦ is_created_by user p
]

unfoldable pub is_split_participant : ℕ → ℕ → Store → Bool
is_split_participant user i s =
    ltb 0 (count (λ p. (p.user_id == user) && (p.split_id == i)) s.participants)

unfoldable pub can_access_split : ℕ → ℕ → Store → Bool
unfolding is_split_creator is_split_participant
can_access_split user i s = is_split_creator user i s || is_split_participant user i s

abbrev pub includes : List ℕ → ℕ → Bool
includes [] i = false
includes (j ∷ js) i = (j == i) || includes js i

abbrev pub collect {ℓ} : {A : Type ℓ} → (A → ℕ) → List A → List ℕ
collect f [] = []
collect f (x ∷ xs) = f x ∷ collect f xs

-- Without identifiers the queries have no rows either.
unfoldable pub filter_accessible_splits : ℕ → List ℕ → Store → List ℕ
filter_accessible_splits user ids s =
    let splits = select (λ p. includes ids p.id) s.splits in
    let rows = select (λ p. (p.user_id == user) && includes ids p.split_id) s.participants in
    let participant_split_ids = collect (λ p. p.split_id) rows in
    collect (λ p. p.id)
      (select (λ p. is_created_by user p || includes participant_split_ids p.id) splits)

unfoldable pub can_access_participant_payments : ℕ → ℕ → Store → Bool
unfolding can_access_split
can_access_participant_payments user i s = elim (find_by_id i s.participants) [
  | none ↦ false
  | some p ↦ (p.user_id == user) || can_access_split user p.split_id s
]

unfoldable pub is_participant_in_split : ℕ → ℕ → Store → Bool
is_participant_in_split i split s =
    ltb 0 (count (λ p. (p.id == i) && (p.split_id == split)) s.participants)

-- What receipts and disputes have in common.
unfoldable pub can_access_owned : List Owned → ℕ → ℕ → Store → Bool
unfolding can_access_split
can_access_owned rows user i s = elim (find_by_id i rows) [
  | none ↦ false
  | some r ↦ can_access_split user r.split_id s
]

unfoldable pub filter_accessible_owned : List Owned → ℕ → List ℕ → Store → List ℕ
unfolding filter_accessible_splits
filter_accessible_owned rows user ids s =
    let found = select (λ r. includes ids r.id) rows in
    let accessible_split_ids = filter_accessible_splits user (collect (λ r. r.split_id) found) s in
    collect (λ r. r.id) (select (λ r. includes accessible_split_ids r.split_id) found)

unfoldable pub can_access_receipt : ℕ → ℕ → Store → Bool
unfolding can_access_owned
can_access_receipt user i s = can_access_owned s.receipts user i s

unfoldable pub filter_accessible_receipts : ℕ → List ℕ → Store → List ℕ
unfolding filter_accessible_owned
filter_accessible_receipts user ids s = filter_accessible_owned s.receipts user ids s

unfoldable pub can_access_dispute : ℕ → ℕ → Store → Bool
unfolding can_access_owned
can_access_dispute user i s = can_access_owned s.disputes user i s

unfoldable pub filter_accessible_disputes : ℕ → List ℕ → Store → List ℕ
unfolding filter_accessible_owned
filter_accessible_disputes user ids s = filter_accessible_owned s.disputes user ids s
