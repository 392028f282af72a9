-- ===== src/Access/Examples.antt =====
-- A split of user 5 in which user 6 takes part, another one, and receipts of both.
use stellar_split.Prelude.{
  ◌≢◌, inl, ℕ, List, ◌&&◌, ◌≡◌, refl, some, none, [], ◌∷◌, select, find_by_id,
}
use stellar_split.Access.Scope.{
  is_split_creator, Split, Owned, Store, split_keyed, owned_keyed, includes, collect,
  can_access_split, can_access_receipt, can_access_dispute, filter_accessible_splits,
  filter_accessible_receipts, filter_accessible_disputes, filter_accessible_owned,
}
use stellar_split.Access.Guard.{
  Action, Resource, Permission, Request, check_split_action, check_split_permission,
  check_permission, check_each, can_activate,
}
use stellar_split.Access.Admission.{IsEntitled, can_activate_entitles}
use stellar_split.Access.Agreement.{filters_agree}

abbrev store : Store
store = record {
  splits =
      record { id = 1; creator_wallet_address = some 5 }
      ∷ record { id = 2; creator_wallet_address = none }
      ∷ [];
  participants = record { id = 7; user_id = 6; split_id = 1 } ∷ [];
  receipts = record { id = 3; split_id = 1 } ∷ record { id = 4; split_id = 2 } ∷ [];
  disputes = record { id = 8; split_id = 2 } ∷ [];
}

test_filters :
    (filter_accessible_receipts 6 (3 ∷ 4 ∷ []) store ≡ 3 ∷ [])
    × (filter_accessible_receipts 5 (4 ∷ []) store ≡ [])
    × (filter_accessible_disputes 5 (8 ∷ []) store ≡ [])
unfolding filter_accessible_receipts filter_accessible_disputes filter_accessible_owned
    filter_accessible_splits
test_filters = (refl, refl, refl)

abbrev ids : List ℕ
ids = 3 ∷ 4 ∷ []

filters_agree_example :
    (filter_accessible_splits 6 ids store
      ≡ collect
          (λ (p : Split). p.id)
          (select (λ p. includes ids p.id && can_access_split 6 p.id store) store.splits))
    × (filter_accessible_receipts 6 ids store
        ≡ collect
            (λ (r : Owned). r.id)
            (select (λ r. includes ids r.id && can_access_receipt 6 r.id store) store.receipts))
    × (filter_accessible_disputes 6 ids store
        ≡ collect
            (λ (r : Owned). r.id)
            (select (λ r. includes ids r.id && can_access_dispute 6 r.id store) store.disputes))
unfolding find_by_id
filters_agree_example =
    filters_agree 6 ids store (refl, (refl, tt)) (refl, (refl, tt)) (refl, tt) (refl, (refl, tt))
      (refl, tt)

abbrev of_split_1 : Request
of_split_1 = record {
  params_id = some 1;
  params_split_id = none;
  params_receipt_id = none;
  params_participant_id = none;
  params_dispute_id = none;
  body_split_id = none;
  body_receipt_id = none;
  body_participant_id = none;
}

abbrev removal : List Permission
removal = record { resource = Resource.split; action = Action.remove_participant } ∷ []

test_removal : can_activate (some removal) (some 6) of_split_1 store ≢ none
unfolding can_activate check_each check_permission check_split_permission check_split_action
    is_split_creator find_by_id
test_removal e = cc

can_activate_entitles_example : IsEntitled Action.remove_participant 5 1 store
unfolding can_activate check_each check_permission check_split_permission check_split_action
    is_split_creator find_by_id
can_activate_entitles_example =
    can_activate_entitles removal Action.remove_participant 5 1 of_split_1 store (inl refl) refl
      refl
