-- ===== src/Invitations/Upgrading.antt =====
-- `upgradeGuest` of backend/src/invitations/invitations.service.ts.
use stellar_split.Prelude.{
  Bool, true, not, Option, none, some, find_where, find_by_id, not_found, bad_request, Action,
  return, gets, or_throw, throw_if, ◌>>=◌, ◌>>◌,
}
use stellar_split.Entities.{Text}
use stellar_split.Invitations.Entity.{
  same_text, starts_with, Participant, participant_keyed, User, UpgradeGuestDto,
}
use stellar_split.Invitations.Store.{Store, Env, save_participant, save_user}
use stellar_split.Invitations.Joining.{guest_prefix}

unfoldable pub is_guest : Participant → Bool
is_guest p = starts_with guest_prefix p.user_id

unfoldable pub has_email : Text → User → Bool
has_email email u = same_text u.email email

unfoldable pub new_user : Env → Text → User
new_user env email = record {
  id = env.new_user_id;
  email = email;
  email_preferences = record {
    invitations = true;
    reminders = true;
    received_confirmation = true;
    completion = true;
  };
}

-- The user with the email, who is made if there is none.
unfoldable pub find_or_create : Env → Text → Option User → Action Store User
unfolding save_user
find_or_create env email none = save_user env 0 (new_user env email) >> return (new_user env email)
find_or_create env email (some u) = return u

abbrev pub link_to : User → Participant → Participant
link_to u p = record p { user_id = u.id }

unfoldable pub upgrade_guest : Env → UpgradeGuestDto → Action Store (Participant × User)
unfolding save_participant
upgrade_guest env dto = do
  found ← gets (λ s. find_by_id dto.participant_id s.participants)
  p ← or_throw found not_found
  throw_if (not (is_guest p)) bad_request
  existing ← gets (λ s. find_where (has_email dto.email) s.users)
  u ← find_or_create env dto.email existing
  save_participant env 1 (link_to u p)
  return (link_to u p, u)
