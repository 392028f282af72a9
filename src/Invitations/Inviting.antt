-- ===== src/Invitations/Inviting.antt =====
-- `create`, `getByToken`, `getActiveInvitations` and `invalidate` of
-- backend/src/invitations/invitations.service.ts. The order in which the database returns rows is a
-- parameter, `order_by`. The link of a new invitation, a text made from the token, is left out.
use stellar_split.Prelude.{
  ℕ, ◌+◌, ◌*◌, Bool, true, not, ◌&&◌, ◌||◌, Option, none, some, List, ltb, leb, ◌==◌, if◌then◌else◌,
  or_default, is_some, find_where, find_by_id, select, not_found, conflict, gone, Action, return,
  gets, or_throw, throw_if, ◌>>=◌, ◌>>◌,
}
use stellar_split.Entities.{Text, split_keyed}
use stellar_split.Invitations.Entity.{
  is_given, is_text, Invitation, invitation_keyed, CreateInvitationDto,
}
use stellar_split.Invitations.Store.{Store, Env, has_token, save_invitation}

-- `where: { splitId, expiresAt: MoreThan(now), usedAt: IsNull() }`.
unfoldable pub is_active : ℕ → ℕ → Invitation → Bool
is_active now split v = (v.split_id == split) && ltb now v.expires_at && not (is_some v.used_at)

-- The same with `inviteeEmail: email`.
unfoldable pub is_duplicate : ℕ → ℕ → Text → Invitation → Bool
unfolding is_active
is_duplicate now split email v = is_active now split v && is_text v.invitee_email email

-- The search for a duplicate, made for an email that is given.
unfoldable pub find_duplicate : ℕ → ℕ → Option Text → List Invitation → Option Invitation
find_duplicate now split none vs = none
find_duplicate now split (some email) vs =
    if is_given (some email) then find_where (is_duplicate now split email) vs else none

-- An hour is 3,600,000 milliseconds; the source counts hours of local time, which differ from that where
-- the clock changes for summer.
unfoldable pub new_invitation : Env → CreateInvitationDto → Invitation
new_invitation env dto = record {
  id = env.new_id;
  token = env.new_token;
  split_id = dto.split_id;
  expires_at = env.now + or_default dto.expires_in_hours 72 * 3_600_000;
  used_at = none;
  max_uses = or_default dto.max_uses 1;
  uses_count = 0;
  is_upgradeable = or_default dto.is_upgradeable true;
  invitee_email = dto.invitee_email;
  token_version = 1;
  created_at = env.now;
}

unfoldable pub create : Env → CreateInvitationDto → Action Store Invitation
unfolding save_invitation
create env dto = do
  split ← gets (λ s. find_by_id dto.split_id s.splits)
  throw_if (not (is_some split)) not_found
  existing ← gets (λ s. find_duplicate env.now dto.split_id dto.invitee_email s.invitations)
  throw_if (is_some existing) conflict
  save_invitation env 0 (new_invitation env dto)
  return (new_invitation env dto)

-- The tests that `getByToken` and `joinByToken` share.
unfoldable pub is_spent : ℕ → Invitation → Bool
is_spent now v =
    leb v.max_uses v.uses_count || (is_some v.used_at && (v.max_uses == 1)) || leb v.expires_at now

unfoldable pub get_by_token : Env → ℕ → Action Store Invitation
get_by_token env token = do
  found ← gets (λ s. find_where (has_token token) s.invitations)
  v ← or_throw found gone
  throw_if (is_spent env.now v) gone
  return v

unfoldable pub get_active_invitations :
    (List Invitation → List Invitation) → Env → ℕ → Store → List Invitation
get_active_invitations order_by env split s =
    order_by (select (is_active env.now split) s.invitations)

unfoldable pub mark_invalid : ℕ → Invitation → Invitation
mark_invalid now v = record v { token_version = v.token_version + 1; expires_at = now }

unfoldable pub invalidate : Env → ℕ → Action Store (Unit {0})
unfolding save_invitation
invalidate env i = do
  found ← gets (λ s. find_by_id i s.invitations)
  v ← or_throw found not_found
  save_invitation env 0 (mark_invalid env.now v)
