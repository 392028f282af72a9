-- ===== src/Access/Agreement.antt =====
-- The filters beside the checks of one resource.
use stellar_split.Prelude.{
  ℕ, ◌≡◌, refl, ap, sym, ◌∙◌, inl, inr, Bool, true, ◌&&◌, ◌||◌, some, List, [], ◌∷◌, arith, ltb,
  ◌==◌, is_some, All, All-map, count, select, find_by_id, Distinct, Bool-cases, Option-cases, ==→eq,
  ==-refl, find-key,
}
use stellar_split.Access.Scope.{
  Split, Participant, Owned, Store, split_keyed, participant_keyed, owned_keyed, is_created_by,
  is_split_creator, is_split_participant, can_access_split, includes, collect,
  filter_accessible_splits, can_access_owned, filter_accessible_owned, can_access_receipt,
  filter_accessible_receipts, can_access_dispute, filter_accessible_disputes,
}
use stellar_split.Access.Lookups.{select_agree, select-select, each_found, includes-select}

-- The rows of the user's participations name a split exactly when one of them is in it.
participations :
    (user i : ℕ) (ids : List ℕ) (ps : List Participant)
    → includes ids i ≡ true
    → includes
        (collect
          (λ (p : Participant). p.split_id)
          (select (λ p. (p.user_id == user) && includes ids p.split_id) ps))
        i
      ≡ ltb 0 (count (λ p. (p.user_id == user) && (p.split_id == i)) ps)
participations user i ids [] h = refl
participations user i ids (p ∷ ps) h = elim (Bool-cases (p.user_id == user)) [
  | inr other ↦ ground (arith, participations user i ids ps h)
  | inl same ↦ elim (Bool-cases (p.split_id == i)) [
    | inl here ↦
        let listed : includes ids p.split_id ≡ true = rw (==→eq p.split_id i here) h in
        rw (same, listed, here) (ground arith)
    | inr there ↦ elim (Bool-cases (includes ids p.split_id)) [
      | inl listed ↦ ground (arith, participations user i ids ps h)
      | inr unlisted ↦ ground (arith, participations user i ids ps h)
    ]
  ]
]

split_agrees :
    (user : ℕ) (ids : List ℕ) (s : Store) (p : Split)
    → find_by_id p.id s.splits ≡ some p
    → let rows = select (λ q. (q.user_id == user) && includes ids q.split_id) s.participants in
      (includes ids p.id
        && (is_created_by user p || includes (collect (λ (q : Participant). q.split_id) rows) p.id))
      ≡ (includes ids p.id && can_access_split user p.id s)
unfolding can_access_split is_split_creator is_split_participant
split_agrees user ids s p e = elim (Bool-cases (includes ids p.id)) [
  | inr unlisted ↦ rw unlisted refl
  | inl listed ↦
      rw
        (
          listed,
          can_access_split,
          is_split_creator,
          e,
          is_split_participant,
          participations user p.id ids s.participants listed,
        )
        refl
]

splits_agree :
    (user : ℕ) (ids : List ℕ) (s : Store)
    → Distinct s.splits
    → filter_accessible_splits user ids s
      ≡ collect
          (λ (p : Split). p.id)
          (select (λ p. includes ids p.id && can_access_split user p.id s) s.splits)
unfolding filter_accessible_splits
splits_agree user ids s d = ap (collect (λ (p : Split). p.id)) (
    select-select _ (λ (p : Split). includes ids p.id) s.splits
    ∙ select_agree _ _ s.splits (
        All-map (λ (p : Split). find_by_id p.id s.splits ≡ some p) _ s.splits
          (λ p e. split_agrees user ids s p e) (each_found s.splits d)))

included :
    (q : Owned → Bool) (i : ℕ) (rows : List Owned) {r : Owned}
    → find_by_id i rows ≡ some r
    → q r ≡ true
    → includes (collect (λ (o : Owned). o.split_id) (select q rows)) r.split_id ≡ true
unfolding find_by_id
included q i [] e h = cc
included q i (x ∷ rows) {r} e h = elim (Bool-cases (x.id == i)) [
  | inl here ↦ let same : x ≡ r = ground arith in rw (same, h, ==-refl r.split_id) refl
  | inr there ↦
      let found : find_by_id i rows ≡ some r = ground arith in
      let later = included q i rows {r = r} found h in ground (arith, later)
]

module _ (rows : List Owned) (s : Store) (splits : Distinct s.splits)
    (owners : All (λ (r : Owned). is_some (find_by_id r.split_id s.splits) ≡ true) rows) where
  abbrev HasSplit : Owned → Type 0
  HasSplit r = is_some (find_by_id r.split_id s.splits) ≡ true

  -- A listed row's split is among those that the filter of the splits gives exactly if the user has
  -- access to it.
  split_listed :
      (user : ℕ) (ids : List ℕ) (r : Owned) (p : Split)
      → find_by_id r.id rows ≡ some r
      → find_by_id r.split_id s.splits ≡ some p
      → includes ids r.id ≡ true
      → let found = select (λ (o : Owned). includes ids o.id) rows in
        includes
          (filter_accessible_splits user (collect (λ (o : Owned). o.split_id) found) s)
          r.split_id
        ≡ can_access_split user r.split_id s
  split_listed user ids r p e there listed =
      let found = select (λ (o : Owned). includes ids o.id) rows in
      let split_ids = collect (λ (o : Owned). o.split_id) found in
      let its : includes split_ids r.split_id ≡ true =
        included (λ o. includes ids o.id) r.id rows {r = r} e listed in
      let named : p.id ≡ r.split_id = find-key r.split_id s.splits {a = p} there in
      ap (λ l. includes l r.split_id) (splits_agree user split_ids s splits)
      ∙ includes-select (λ (q : Split). includes split_ids q.id && can_access_split user q.id s)
          r.split_id s.splits {a = p} splits there
      ∙ rw (named, its) refl

  owned_agrees :
      (user : ℕ) (ids : List ℕ) (r : Owned)
      → find_by_id r.id rows ≡ some r
      → HasSplit r
      → let found = select (λ (o : Owned). includes ids o.id) rows in
        let accessible =
          filter_accessible_splits user (collect (λ (o : Owned). o.split_id) found) s in
        (includes ids r.id && includes accessible r.split_id)
        ≡ (includes ids r.id && can_access_owned rows user r.id s)
  unfolding can_access_owned
  owned_agrees user ids r e owned = elim (Bool-cases (includes ids r.id)) [
    | inr unlisted ↦ rw unlisted refl
    | inl listed ↦ elim (Option-cases (find_by_id r.split_id s.splits)) [
      | inl none_there ↦ ground arith
      | inr (p, there) ↦
          let whole : can_access_owned rows user r.id s ≡ can_access_split user r.split_id s =
            rw (can_access_owned, e) refl in
          ap (λ b. includes ids r.id && b) (split_listed user ids r p e there listed ∙ sym whole)
    ]
  ]

  both_hold :
      (os : List Owned)
      → All (λ (r : Owned). find_by_id r.id rows ≡ some r) os
      → All HasSplit os
      → All (λ (r : Owned). (find_by_id r.id rows ≡ some r) × HasSplit r) os
  both_hold [] f g = tt
  both_hold (o ∷ os) (f, fs) (g, gs) = ((f, g), both_hold os fs gs)

  owned_filter_agrees :
      (user : ℕ) (ids : List ℕ)
      → Distinct rows
      → filter_accessible_owned rows user ids s
        ≡ collect
            (λ (r : Owned). r.id)
            (select (λ r. includes ids r.id && can_access_owned rows user r.id s) rows)
  unfolding filter_accessible_owned
  owned_filter_agrees user ids d = ap (collect (λ (r : Owned). r.id)) (
      select-select _ (λ (r : Owned). includes ids r.id) rows
      ∙ select_agree _ _ rows (
          All-map (λ (r : Owned). (find_by_id r.id rows ≡ some r) × HasSplit r) _ rows
            (λ r e. owned_agrees user ids r e.0 e.1) (both_hold rows (each_found rows d) owners)))

-- The filters of splits, receipts and disputes give, in the order of the rows, exactly those listed that
-- the check of the single one lets the user see. Identifiers must be distinct in each table, and every
-- receipt and dispute must be of a split that is there.
pub filters_agree :
    (user : ℕ) (ids : List ℕ) (s : Store)
    → Distinct s.splits
    → Distinct s.receipts
    → Distinct s.disputes
    → All (λ (r : Owned). is_some (find_by_id r.split_id s.splits) ≡ true) s.receipts
    → All (λ (r : Owned). is_some (find_by_id r.split_id s.splits) ≡ true) s.disputes
    → (filter_accessible_splits user ids s
        ≡ collect
            (λ (p : Split). p.id)
            (select (λ p. includes ids p.id && can_access_split user p.id s) s.splits))
      × (filter_accessible_receipts user ids s
          ≡ collect
              (λ (r : Owned). r.id)
              (select (λ r. includes ids r.id && can_access_receipt user r.id s) s.receipts))
      × (filter_accessible_disputes user ids s
          ≡ collect
              (λ (r : Owned). r.id)
              (select (λ r. includes ids r.id && can_access_dispute user r.id s) s.disputes))
unfolding filter_accessible_receipts filter_accessible_disputes can_access_receipt
    can_access_dispute
filters_agree user ids s splits receipts disputes of_receipts of_disputes = (
  splits_agree user ids s splits,
  owned_filter_agrees s.receipts s splits of_receipts user ids receipts,
  owned_filter_agrees s.disputes s splits of_disputes user ids disputes,
)
