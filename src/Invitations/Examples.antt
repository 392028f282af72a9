-- ===== src/Invitations/Examples.antt =====
-- Runs of the invitations service on small stores.
use stellar_split.Prelude.{
  ℕ, ◌+◌, ◌≤◌, ◌<◌, ◌≡◌, refl, ◌≢◌, ◌↔◌, ◌⊎◌, true, false, none, some, [], ◌∷◌, ◌++◌, arith, ◌==◌,
  find_where, find_by_id, save_row, is_ok,
}
use stellar_split.Entities.{Text, Split, split_keyed, active}
use stellar_split.Invitations.Entity.{
  Invitation, invitation_keyed, Participant, participant_keyed, pending, JoinInvitationDto,
  CreateInvitationDto, UpgradeGuestDto,
}
use stellar_split.Invitations.Store.{Store, Env}
use stellar_split.Invitations.Inviting.{is_spent}
use stellar_split.Invitations.Joining.{
  join_by_token, find_member, guest_prefix, count_use, new_participant,
}
use stellar_split.Invitations.Upgrading.{is_guest, find_or_create, upgrade_guest}
use stellar_split.Invitations.Service.{Call, perform}
use stellar_split.Invitations.Rows.{invited}
use stellar_split.Invitations.Limits.{History, perform_all, joins, joins_within_limit}
use stellar_split.Invitations.Outcomes.{join_by_token_iff}

abbrev dinner : Split
dinner = record {
  id = 1;
  total_amount = 9000;
  amount_paid = 0;
  status = active;
  is_frozen = false;
  created_at = 0;
  due_date = none;
  expiry_date = none;
}

abbrev invitation : Invitation
invitation = record {
  id = 7;
  token = 70;
  split_id = 1;
  expires_at = 5000;
  used_at = none;
  max_uses = 2;
  uses_count = 1;
  is_upgradeable = true;
  invitee_email = none;
  token_version = 1;
  created_at = 0;
}

abbrev guest : Participant
guest = record {
  id = 3;
  split_id = 1;
  user_id = guest_prefix ++ (b'1' ∷ []);
  amount_owed = 0;
  amount_paid = 0;
  status = pending;
  wallet_address = none;
}

abbrev mail : Text
mail = b'a' ∷ b'@' ∷ []

abbrev before : Store
before = record {
  invitations = invitation ∷ [];
  participants = guest ∷ [];
  splits = dinner ∷ [];
  users = [];
}

abbrev at : ℕ → ℕ → Env
at time id = record {
  now = time;
  new_token = 90;
  new_guest = b'2' ∷ [];
  new_id = id;
  new_user_id = b'u' ∷ [];
  write = λ n. true;
}

-- The first write goes through, the next does not.
abbrev cut_short : Env
cut_short = record (at 1000 20) { write = λ n. n == 0 }

abbrev anonymous : JoinInvitationDto
anonymous = record { email = none; display_name = none }

abbrev with_mail : JoinInvitationDto
with_mail = record { email = some mail; display_name = none }

abbrev for_mail : CreateInvitationDto
for_mail = record {
  split_id = 1;
  expires_in_hours = none;
  max_uses = none;
  invitee_email = some mail;
  is_upgradeable = none;
}

abbrev upgrade : UpgradeGuestDto
upgrade = record { participant_id = 3; email = mail; display_name = none }

-- One join uses the invitation up, so that the second one is refused.
abbrev two_joins : History
two_joins =
    (at 1000 20, Call.join 70 anonymous)
    ∷ (at 2000 21, Call.join 70 with_mail)
    ∷ (at 3000 22, Call.upgrade upgrade)
    ∷ []

joins_test : joins 70 two_joins before ≡ 1
unfolding perform join_by_token find_where is_spent find_by_id find_member save_row count_use
    upgrade_guest new_participant is_guest find_or_create
joins_test = refl

joins_within_limit_example :
    (v' : Invitation) × (invited 70 (perform_all two_joins before) ≡ some v')
    × (v'.uses_count ≡ 1 + joins 70 two_joins before)
    × (v'.max_uses ≡ 2)
    × (v'.uses_count ≤ v'.max_uses)
unfolding perform join_by_token find_where is_spent find_by_id find_member save_row count_use
    upgrade_guest new_participant is_guest find_or_create
joins_within_limit_example =
    joins_within_limit 70 two_joins before invitation (refl, tt) (refl, (refl, (refl, tt))) refl
      (omega arith)

join_by_token_iff_example : (is_ok (join_by_token (at 1000 20) 70 with_mail before).0 ≡ true) ↔ (
    (1 < 2)
    × ((invitation.used_at ≡ none) ⊎ (invitation.max_uses ≢ 1))
    × (1000 < 5000)
    × (find_by_id 1 before.splits ≢ none)
    × (find_member 1 (some mail) before.participants ≡ none)
    × (true ≡ true)
    × (true ≡ true))
unfolding find_where
join_by_token_iff_example = join_by_token_iff (at 1000 20) 70 with_mail before invitation refl
