-- ===== src/Invitations/Store.antt =====
-- What the invitations service reads and writes.
use stellar_split.Prelude.{
  ℕ, Bool, not, List, [], ◌∷◌, ◌++◌, save_row, db_failure, Action, throw_if, modify, ◌>>◌, ◌==◌,
}
use stellar_split.Entities.{Text, Split}
use stellar_split.Invitations.Entity.{
  Invitation, invitation_keyed, Participant, participant_keyed, User,
}

pub record Store : Type 0 where
  pub invitations : List Invitation
  pub participants : List Participant
  pub splits : List Split
  pub users : List User

-- The clock in milliseconds, the random UUIDs (a token's, a guest's), the identifiers that the database
-- generates, and whether the n-th write of the call goes through.
pub record Env : Type 0 where
  pub now : ℕ
  pub new_token : ℕ
  pub new_guest : Text
  pub new_id : ℕ
  pub new_user_id : Text
  pub write : ℕ → Bool

-- `where: { token }`.
abbrev pub has_token : ℕ → Invitation → Bool
has_token token v = v.token == token

unfoldable pub save_invitation : Env → ℕ → Invitation → Action Store (Unit {0})
save_invitation env n v = do
  throw_if (not (env.write n)) db_failure
  modify (λ s. record s { invitations = save_row v s.invitations })

unfoldable pub save_participant : Env → ℕ → Participant → Action Store (Unit {0})
save_participant env n p = do
  throw_if (not (env.write n)) db_failure
  modify (λ s. record s { participants = save_row p s.participants })

-- A new user, whose identifier the database makes up.
unfoldable pub save_user : Env → ℕ → User → Action Store (Unit {0})
save_user env n u = do
  throw_if (not (env.write n)) db_failure
  modify (λ s. record s { users = s.users ++ (u ∷ []) })
