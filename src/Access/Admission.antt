-- ===== src/Access/Admission.antt =====
-- Who gets past the guard.
use stellar_split.Prelude.{
  ℕ, ◌≡◌, ◌≢◌, ◌⊎◌, refl, sym, ◌∙◌, inl, inr, true, Option, none, some, List, [], ◌∷◌, arith,
  Bool-cases,
}
use stellar_split.Access.Scope.{Store, is_split_creator, is_split_participant, can_access_split}
use stellar_split.Access.Guard.{
  Action, Resource, Permission, Request, or_else, is_admin, check_split_action,
  check_split_permission, check_dispute_permission, check_permission, check_each, can_activate,
}

-- A permission is among those of a route.
abbrev pub Required : Permission → List Permission → Type 0
Required p [] = ⊥
Required p (q ∷ qs) = (p ≡ q) ⊎ Required p qs

Required-checked :
    (user : ℕ) (p : Permission) (ps : List Permission) (q : Request) (s : Store)
    → Required p ps
    → check_each user ps q s ≡ true
    → check_permission user p q s ≡ true
unfolding check_each
Required-checked user p [] q s among h = absurd among
Required-checked user p (r ∷ ps) q s (inl e) h = rw e (ground arith)
Required-checked user p (r ∷ ps) q s (inr among) h =
    Required-checked user p ps q s among (ground arith)

-- The split that a request names.
abbrev pub named_split : Request → Option ℕ
named_split q = or_else (or_else q.params_split_id q.params_id) q.body_split_id

-- What a permission on a split asks of the user.
abbrev pub IsEntitled : Action → ℕ → ℕ → Store → Type 0
IsEntitled Action.remove_participant user i s = is_split_creator user i s ≡ true
IsEntitled _ user i s = (is_split_creator user i s ≡ true) ⊎ (is_split_participant user i s ≡ true)

either_access :
    (user i : ℕ) (s : Store)
    → can_access_split user i s ≡ true
    → (is_split_creator user i s ≡ true) ⊎ (is_split_participant user i s ≡ true)
unfolding can_access_split
either_access user i s h = elim (Bool-cases (is_split_creator user i s)) [
  | inl e ↦ inl e
  | inr e ↦ inr (rw (sym h, e) refl)
]

action_entitles :
    (user : ℕ) (a : Action) (i : ℕ) (s : Store)
    → check_split_action user a i s ≡ true
    → IsEntitled a user i s
unfolding check_split_action
action_entitles user Action.create i s h = cc
action_entitles user Action.list i s h = cc
action_entitles user Action.read i s h = either_access user i s h
action_entitles user Action.update i s h = either_access user i s h
action_entitles user Action.delete i s h = either_access user i s h
action_entitles user Action.create_payment i s h = either_access user i s h
action_entitles user Action.add_participant i s h = either_access user i s h
action_entitles user Action.remove_participant i s h = h
action_entitles user Action.read_split_payments i s h = cc
action_entitles user Action.read_participant_payments i s h = cc
action_entitles user Action.accept i s h = cc
action_entitles user Action.resolve i s h = cc
action_entitles user Action.reject i s h = cc
action_entitles user Action.other i s h = cc

named_check :
    (user : ℕ) (a : Action) (i : ℕ) (q : Request) (s : Store)
    → named_split q ≡ some i
    → check_split_permission user a q s ≡ check_split_action user a i s
unfolding check_split_permission check_split_action
named_check user a i q s named = rw (check_split_permission, named) refl

-- A request that names a split gets past a permission on splits only if the user made the split or
-- takes part in it, and past the one to remove a participant only if the user made it, whatever other
-- permissions the route asks for.
pub can_activate_entitles :
    (ps : List Permission) (a : Action) (user i : ℕ) (q : Request) (s : Store)
    → Required (record { resource = Resource.split; action = a }) ps
    → named_split q ≡ some i
    → can_activate (some ps) (some user) q s ≡ none
    → IsEntitled a user i s
unfolding can_activate check_permission check_split_permission
can_activate_entitles ps a user i q s among named through =
    let checked : check_each user ps q s ≡ true = elim (Bool-cases (check_each user ps q s)) [
      | inl e ↦ e
      | inr e ↦ ground arith
    ] in
    let passed =
      Required-checked user (record { resource = Resource.split; action = a }) ps q s among
        checked in
    action_entitles user a i s (sym (named_check user a i q s named) ∙ passed)

-- Nobody ends a dispute by way of the guard.
dispute_ending_refused :
    (ps : List Permission) (user : ℕ) (q : Request) (s : Store)
    → Required (record { resource = Resource.dispute; action = Action.resolve }) ps
    → can_activate (some ps) (some user) q s ≢ none
unfolding can_activate check_permission check_dispute_permission is_admin
dispute_ending_refused ps user q s among through =
    let checked : check_each user ps q s ≡ true = elim (Bool-cases (check_each user ps q s)) [
      | inl e ↦ e
      | inr e ↦ ground arith
    ] in
    let passed =
      Required-checked user (record { resource = Resource.dispute; action = Action.resolve }) ps q s
        among checked in
    cc
