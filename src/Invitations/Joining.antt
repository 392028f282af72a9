-- ===== src/Invitations/Joining.antt =====
-- `joinByToken` of backend/src/invitations/invitations.service.ts.
use stellar_split.Prelude.{
  ℕ, ◌+◌, Bool, not, ◌&&◌, ◌||◌, Option, none, some, List, [], ◌∷◌, ◌++◌, leb, ◌==◌, if◌then◌else◌,
  or_default, is_some, find_where, find_by_id, gone, conflict, Action, return, gets, or_throw,
  throw_if, ◌>>=◌, ◌>>◌,
}
use stellar_split.Entities.{Text, Split, split_keyed}
use stellar_split.Invitations.Entity.{
  is_given, same_text, Invitation, Participant, pending, JoinInvitationDto,
}
use stellar_split.Invitations.Store.{Store, Env, has_token, save_invitation, save_participant}
use stellar_split.Invitations.Inviting.{is_spent}

-- `guest-`, with which the names of guests begin.
abbrev pub guest_prefix : Text
guest_prefix = b'g' ∷ b'u' ∷ b'e' ∷ b's' ∷ b't' ∷ b'-' ∷ []

-- `where: { splitId, userId }`.
unfoldable pub is_member : ℕ → Text → Participant → Bool
is_member split user p = (p.split_id == split) && same_text p.user_id user

-- The search for a participant with the email, if one is given.
unfoldable pub find_member : ℕ → Option Text → List Participant → Option Participant
find_member split none ps = none
find_member split (some email) ps =
    if is_given (some email) then find_where (is_member split email) ps else none

unfoldable pub new_participant : Env → JoinInvitationDto → Invitation → Participant
new_participant env dto v = record {
  id = env.new_id;
  split_id = v.split_id;
  user_id = or_default dto.email (guest_prefix ++ env.new_guest);
  amount_owed = 0;
  amount_paid = 0;
  status = pending;
  wallet_address = none;
}

-- The invitation after one more use, with the email kept if it has none yet.
unfoldable pub count_use : ℕ → JoinInvitationDto → Invitation → Invitation
count_use now dto v = record v {
  invitee_email =
      if is_given dto.email && not (is_given v.invitee_email) then dto.email else v.invitee_email;
  uses_count = v.uses_count + 1;
  used_at = if (v.max_uses == 1) || leb v.max_uses (v.uses_count + 1) then some now else v.used_at;
}

pub record Joined : Type 0 where
  pub participant : Participant
  pub split : Split
  pub is_new_user : Bool

-- The two writes are not in a transaction.
unfoldable pub join_by_token : Env → ℕ → JoinInvitationDto → Action Store Joined
unfolding save_participant save_invitation
join_by_token env token dto = do
  found ← gets (λ s. find_where (has_token token) s.invitations)
  v ← or_throw found gone
  throw_if (is_spent env.now v) gone
  there ← gets (λ s. find_by_id v.split_id s.splits)
  split ← or_throw there gone
  existing ← gets (λ s. find_member v.split_id dto.email s.participants)
  throw_if (is_some existing) conflict
  save_participant env 0 (new_participant env dto v)
  save_invitation env 1 (count_use env.now dto v)
  return (record {
    participant = new_participant env dto v;
    split = split;
    is_new_user = not (is_given dto.email);
  })
