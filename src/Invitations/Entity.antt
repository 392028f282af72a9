-- ===== src/Invitations/Entity.antt =====
-- backend/src/invitations/invitation.entity.ts and dto, backend/src/entities/participant.entity.ts and
-- user.entity.ts. The user of a participant is a string in this service: a user's identifier, an email
-- address, or a guest's made-up name.
use stellar_split.Prelude.{
  ℕ, Bool, true, false, Option, none, some, [], ◌∷◌, ◌==◌, if◌then◌else◌, Keyed,
}
use stellar_split.Entities.{Text}
pub use stellar_split.Entities.{same_text}

-- `s.startsWith(prefix)`.
abbrev pub starts_with : Text → Text → Bool
starts_with [] s = true
starts_with (c ∷ cs) [] = false
starts_with (c ∷ cs) (d ∷ ds) = if c == d then starts_with cs ds else false

-- `if (text)`: a string that is there and not empty.
abbrev pub is_given : Option Text → Bool
is_given none = false
is_given (some []) = false
is_given (some (c ∷ cs)) = true

-- A column that may be null, compared with a string.
abbrev pub is_text : Option Text → Text → Bool
is_text none t = false
is_text (some s) t = same_text s t

-- The token, a random UUID, is only compared, so it is a number.
pub record Invitation : Type 0 where
  pub id : ℕ
  pub token : ℕ
  pub split_id : ℕ
  pub expires_at : ℕ
  pub used_at : Option ℕ
  pub max_uses : ℕ
  pub uses_count : ℕ
  pub is_upgradeable : Bool
  pub invitee_email : Option Text
  pub token_version : ℕ
  pub created_at : ℕ

pub data ParticipantStatus : Type 0 where
  pending paid partial : ParticipantStatus

-- Rows that are softly deleted, which `findOne` leaves out, are not in the table.
pub record Participant : Type 0 where
  pub id : ℕ
  pub split_id : ℕ
  pub user_id : Text
  pub amount_owed : ℕ
  pub amount_paid : ℕ
  pub status : ParticipantStatus
  pub wallet_address : Option Text

pub record EmailPreferences : Type 0 where
  pub invitations : Bool
  pub reminders : Bool
  pub received_confirmation : Bool
  pub completion : Bool

pub record User : Type 0 where
  pub id : Text
  pub email : Text
  pub email_preferences : EmailPreferences

pub record CreateInvitationDto : Type 0 where
  pub split_id : ℕ
  pub expires_in_hours : Option ℕ
  pub max_uses : Option ℕ
  pub invitee_email : Option Text
  pub is_upgradeable : Option Bool

pub record JoinInvitationDto : Type 0 where
  pub email : Option Text
  pub display_name : Option Text

pub record UpgradeGuestDto : Type 0 where
  pub participant_id : ℕ
  pub email : Text
  pub display_name : Option Text

instance abbrev pub invitation_keyed : Keyed Invitation
invitation_keyed = record { key = λ i. i.id }

instance abbrev pub participant_keyed : Keyed Participant
participant_keyed = record { key = λ p. p.id }
