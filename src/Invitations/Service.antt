-- ===== src/Invitations/Service.antt =====
-- The calls of the invitations service that change state, as one type.
use stellar_split.Prelude.{ℕ, Bool, Result, is_ok}
use stellar_split.Invitations.Entity.{CreateInvitationDto, JoinInvitationDto, UpgradeGuestDto}
use stellar_split.Invitations.Store.{Store, Env}
use stellar_split.Invitations.Inviting.{create, invalidate}
use stellar_split.Invitations.Joining.{join_by_token}
use stellar_split.Invitations.Upgrading.{upgrade_guest}

pub data Call : Type 0 where
  invite : CreateInvitationDto → Call
  join : ℕ → JoinInvitationDto → Call
  upgrade : UpgradeGuestDto → Call
  revoke : ℕ → Call

-- Whether the call went through, and the store after it.
abbrev pub outcome_of : {A : Type 0} → Result A × Store → Bool × Store
outcome_of (r, s) = (is_ok r, s)

unfoldable pub perform : Env → Call → Store → Bool × Store
perform env (Call.invite dto) s = outcome_of (create env dto s)
perform env (Call.join token dto) s = outcome_of (join_by_token env token dto s)
perform env (Call.upgrade dto) s = outcome_of (upgrade_guest env dto s)
perform env (Call.revoke i) s = outcome_of (invalidate env i s)
