-- ===== src/Access/Guard.antt =====
-- backend/src/auth/guards/authorization.guard.ts over auth/services/authorization.service.ts, but for the
-- permissions on groups.
use stellar_split.Prelude.{
  ℕ, Bool, true, false, ◌&&◌, Option, none, some, List, [], ◌∷◌, if◌then◌else◌,
}
use stellar_split.Access.Scope.{
  Store, is_split_creator, can_access_split, is_participant_in_split,
  can_access_participant_payments, can_access_receipt, can_access_dispute,
}

-- The actions that the guard knows, and any other.
pub data Action : Type 0 where
  create list read update delete create_payment add_participant remove_participant : Action
  read_split_payments read_participant_payments accept resolve reject other : Action

pub data Resource : Type 0 where
  split receipt payment export invitation dispute : Resource

pub record Permission : Type 0 where
  pub resource : Resource
  pub action : Action

-- The identifiers in the path and in the body; an empty one is none.
pub record Request : Type 0 where
  pub params_id : Option ℕ
  pub params_split_id : Option ℕ
  pub params_receipt_id : Option ℕ
  pub params_participant_id : Option ℕ
  pub params_dispute_id : Option ℕ
  pub body_split_id : Option ℕ
  pub body_receipt_id : Option ℕ
  pub body_participant_id : Option ℕ

abbrev pub or_else : Option ℕ → Option ℕ → Option ℕ
or_else none y = y
or_else (some x) y = some x

-- A check of an identifier, if there is one.
abbrev pub on_id : Option ℕ → (ℕ → Bool) → Bool
on_id none check = false
on_id (some i) check = check i

-- `AuthorizationService.isAdmin`.
unfoldable pub is_admin : ℕ → Bool
is_admin user = false

unfoldable pub check_split_action : ℕ → Action → ℕ → Store → Bool
check_split_action user Action.read i s = can_access_split user i s
check_split_action user Action.update i s = can_access_split user i s
check_split_action user Action.delete i s = can_access_split user i s
check_split_action user Action.create_payment i s = can_access_split user i s
check_split_action user Action.add_participant i s = can_access_split user i s
check_split_action user Action.remove_participant i s = is_split_creator user i s
check_split_action user _ i s = false

abbrev pub needs_no_split : Action → Bool
needs_no_split Action.create = true
needs_no_split Action.list = true
needs_no_split _ = false

unfoldable pub check_split_permission : ℕ → Action → Request → Store → Bool
unfolding check_split_action
check_split_permission user action q s =
    elim (or_else (or_else q.params_split_id q.params_id) q.body_split_id) [
      | none ↦ needs_no_split action
      | some i ↦ check_split_action user action i s
    ]

unfoldable pub check_receipt_permission : ℕ → Action → Request → Store → Bool
check_receipt_permission user Action.create q s = elim (or_else q.params_split_id q.body_split_id) [
  | none ↦ true
  | some i ↦ can_access_split user i s
]
check_receipt_permission user Action.read q s =
    on_id (or_else (or_else q.params_receipt_id q.params_id) q.body_receipt_id)
      (λ i. can_access_receipt user i s)
check_receipt_permission user Action.delete q s =
    on_id (or_else (or_else q.params_receipt_id q.params_id) q.body_receipt_id)
      (λ i. can_access_receipt user i s)
check_receipt_permission user _ q s = false

unfoldable pub check_payment_permission : ℕ → Action → Request → Store → Bool
check_payment_permission user Action.create q s =
    on_id (or_else q.params_split_id q.body_split_id) (λ i.
      on_id (or_else q.params_participant_id q.body_participant_id)
        (λ p. can_access_split user i s && is_participant_in_split p i s))
check_payment_permission user Action.read_split_payments q s =
    on_id (or_else q.params_split_id q.body_split_id) (λ i. can_access_split user i s)
check_payment_permission user Action.read_participant_payments q s =
    on_id (or_else q.params_participant_id q.body_participant_id)
      (λ p. can_access_participant_payments user p s)
check_payment_permission user _ q s = false

unfoldable pub check_invitation_permission : ℕ → Action → Request → Store → Bool
check_invitation_permission user Action.create q s =
    on_id q.body_split_id (λ i. can_access_split user i s)
check_invitation_permission user Action.read q s = true
check_invitation_permission user Action.accept q s = true
check_invitation_permission user _ q s = false

unfoldable pub check_dispute_permission : ℕ → Action → Request → Store → Bool
unfolding is_admin
check_dispute_permission user Action.create q s =
    on_id (or_else q.params_split_id q.body_split_id) (λ i. can_access_split user i s)
check_dispute_permission user Action.read q s =
    on_id (or_else q.params_dispute_id q.params_id) (λ i. can_access_dispute user i s)
check_dispute_permission user Action.resolve q s = is_admin user
check_dispute_permission user Action.reject q s = is_admin user
check_dispute_permission user _ q s = false

-- A user exports what is the user's own.
unfoldable pub check_permission : ℕ → Permission → Request → Store → Bool
unfolding check_split_permission check_receipt_permission check_payment_permission
    check_invitation_permission check_dispute_permission
check_permission user p q s = elim p.resource [
  | Resource.split ↦ check_split_permission user p.action q s
  | Resource.receipt ↦ check_receipt_permission user p.action q s
  | Resource.payment ↦ check_payment_permission user p.action q s
  | Resource.export ↦ true
  | Resource.invitation ↦ check_invitation_permission user p.action q s
  | Resource.dispute ↦ check_dispute_permission user p.action q s
]

-- The loop over the permissions.
unfoldable pub check_each : ℕ → List Permission → Request → Store → Bool
unfolding check_permission
check_each user [] q s = true
check_each user (p ∷ ps) q s = check_permission user p q s && check_each user ps q s

-- A refusal, by an exception of its own when there is no user.
pub data Refusal : Type 0 where
  unauthorized insufficient : Refusal

-- None when the request is let through.
unfoldable pub can_activate : Option (List Permission) → Option ℕ → Request → Store → Option Refusal
unfolding check_each
can_activate none user q s = none
can_activate (some ps) none q s = some unauthorized
can_activate (some ps) (some user) q s = if check_each user ps q s then none else some insufficient
