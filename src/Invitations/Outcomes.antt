-- ===== src/Invitations/Outcomes.antt =====
-- When the operations of the invitations service go through, and what they leave.
use stellar_split.Prelude.{
  ℕ, ◌+◌, ◌≤◌, ◌<◌, ◌≡◌, refl, ◌≢◌, ◌↔◌, ◌⊎◌, inl, inr, true, false, none, some, List, [], ◌∷◌,
  arith, ◌==◌, or_default, All, count, find_where, find_by_id, save_row, bad_request, db_failure,
  ok, err, is_ok,
}
use stellar_split.Prelude.{
  Option-cases, Bool-cases, count-save_fresh, count-find_where-none, find-save, find-key,
  find_where-All, find_where-append,
}
use stellar_split.Entities.{Text, same_text_refl, split_keyed}
use stellar_split.Invitations.Entity.{
  starts_with, Invitation, invitation_keyed, Participant, participant_keyed, User,
  JoinInvitationDto, CreateInvitationDto, UpgradeGuestDto,
}
use stellar_split.Invitations.Store.{Store, Env}
use stellar_split.Invitations.Inviting.{
  create, new_invitation, is_active, is_duplicate, find_duplicate, is_spent,
}
use stellar_split.Invitations.Joining.{guest_prefix, join_by_token, new_participant, find_member}
use stellar_split.Invitations.Upgrading.{
  upgrade_guest, find_or_create, has_email, link_to, new_user, is_guest,
}
use stellar_split.Invitations.Rows.{invited}

-- A join by a token that is found goes through exactly when the invitation has uses left, was not used up
-- as a single use, has not expired, its split is there, nobody in it has the given email, and the two
-- writes go through.
pub join_by_token_iff :
    (env : Env) (t : ℕ) (dto : JoinInvitationDto) (s : Store) (v : Invitation)
    → invited t s ≡ some v
    → (is_ok (join_by_token env t dto s).0 ≡ true) ↔ (
        (v.uses_count < v.max_uses)
        × ((v.used_at ≡ none) ⊎ (v.max_uses ≢ 1))
        × (env.now < v.expires_at)
        × (find_by_id v.split_id s.splits ≢ none)
        × (find_member v.split_id dto.email s.participants ≡ none)
        × (env.write 0 ≡ true)
        × (env.write 1 ≡ true))
unfolding join_by_token is_spent
join_by_token_iff env t dto s v e = ground arith

-- The participant and the use count are two writes with no transaction. If the second one fails, the
-- call fails, but the participant is in the split and the invitation as it was: this use of it is counted
-- nowhere. The new identifier must be unused.
pub join_uncounted :
    (env : Env) (t : ℕ) (dto : JoinInvitationDto) (s : Store) (v : Invitation)
    → invited t s ≡ some v
    → is_spent env.now v ≡ false
    → find_by_id v.split_id s.splits ≢ none
    → find_member v.split_id dto.email s.participants ≡ none
    → find_by_id env.new_id s.participants ≡ none
    → (env.write 0 ≡ true) × (env.write 1 ≡ false)
    → let (r, s') = join_by_token env t dto s in
      let in_split = λ (p : Participant). p.split_id == v.split_id in
      (r ≡ err db_failure)
      × (s'.invitations ≡ s.invitations)
      × (count in_split s'.participants ≡ count in_split s.participants + 1)
unfolding join_by_token new_participant
join_uncounted env t dto s v e open_now split_there new_member fresh writes = ground (
  arith,
  count-save_fresh (λ (p : Participant). p.split_id == v.split_id) (new_participant env dto v)
      s.participants fresh,
)

create_done :
    (env : Env) (dto : CreateInvitationDto) (s : Store)
    → is_ok (create env dto s).0 ≡ true
    → (find_duplicate env.now dto.split_id dto.invitee_email s.invitations ≡ none)
      × ((create env dto s).1.invitations ≡ save_row (new_invitation env dto) s.invitations)
unfolding create
create_done env dto s goes = ground arith

no_duplicate :
    (now split : ℕ) (email : Text) (vs : List Invitation)
    → email ≢ []
    → find_duplicate now split (some email) vs ≡ none
    → find_where (is_duplicate now split email) vs ≡ none
unfolding find_duplicate
no_duplicate now split [] vs nonempty e = elim (nonempty refl) [ ]
no_duplicate now split (c ∷ cs) vs nonempty e = e

new_invitation-is_duplicate :
    (env : Env) (dto : CreateInvitationDto) (email : Text)
    → dto.invitee_email ≡ some email
    → 1 ≤ or_default dto.expires_in_hours 72
    → is_duplicate env.now dto.split_id email (new_invitation env dto) ≡ true
unfolding is_duplicate is_active new_invitation
new_invitation-is_duplicate env dto email given hours =
    rw given (ground (arith, same_text_refl email))

-- An invitation for an email that goes out is the one open invitation of the split for that email. The
-- expiry must be at least an hour away and the new identifier unused.
pub create_unique :
    (env : Env) (dto : CreateInvitationDto) (s : Store) (email : Text)
    → dto.invitee_email ≡ some email
    → email ≢ []
    → 1 ≤ or_default dto.expires_in_hours 72
    → find_by_id env.new_id s.invitations ≡ none
    → is_ok (create env dto s).0 ≡ true
    → count (is_duplicate env.now dto.split_id email) (create env dto s).1.invitations ≡ 1
unfolding new_invitation
create_unique env dto s email given nonempty hours fresh goes =
    let (free, saved) = create_done env dto s goes in
    let new = new_invitation env dto in
    let test = is_duplicate env.now dto.split_id email in
    let none_before =
      no_duplicate env.now dto.split_id email s.invitations nonempty (rw given at free) in
    rw saved (
      ground (
        arith,
        count-save_fresh test new s.invitations fresh,
        count-find_where-none test s.invitations none_before,
        new_invitation-is_duplicate env dto email given hours,
      ))

-- Who is a guest by the name that the users' identifiers have.
abbrev pub NamesNoGuest : List User → Type 0
NamesNoGuest us = All (λ u. starts_with guest_prefix u.id ≡ false) us

find_or_create_done :
    (env : Env) (email : Text) (s : Store)
    → NamesNoGuest s.users
    → starts_with guest_prefix env.new_user_id ≡ false
    → let (r, s') = find_or_create env email (find_where (has_email email) s.users) s in
      ((u : User) × (r ≡ ok u)
        × (starts_with guest_prefix u.id ≡ false)
        × (find_where (has_email email) s'.users ≡ some u)
        × (s'.participants ≡ s.participants))
      ⊎ (is_ok r ≡ false)
unfolding find_or_create new_user has_email
find_or_create_done env email s names new_name =
    elim (Option-cases (find_where (has_email email) s.users)) [
      | inr (u, e) ↦ inl (
        u,
        rw e refl,
        find_where-All (λ u. starts_with guest_prefix u.id ≡ false) (has_email email) s.users
            {a = u} names e,
        rw e e,
        rw e refl,
      )
      | inl e ↦ elim (Bool-cases (env.write 0)) [
        | inr fails ↦ inr (ground arith)
        | inl writes ↦
            let u = new_user env email in
            inl (
              u,
              ground arith,
              new_name,
              ground
                  (arith, find_where-append (has_email email) u s.users e (same_text_refl email)),
              ground arith,
            )
      ]
    ]

upgrade_guest_done :
    (env : Env) (dto : UpgradeGuestDto) (s : Store) (p : Participant)
    → find_by_id dto.participant_id s.participants ≡ some p
    → is_ok (upgrade_guest env dto s).0 ≡ true
    → let (r, s1) = find_or_create env dto.email (find_where (has_email dto.email) s.users) s in
      (is_ok r ≡ true)
      × ((u : User)
          → r ≡ ok u
          → (upgrade_guest env dto s).1
            ≡ record s1 { participants = save_row (link_to u p) s1.participants })
unfolding upgrade_guest
upgrade_guest_done env dto s p found goes = (ground arith, λ u e. ground arith)

upgrade_refused :
    (env : Env) (dto : UpgradeGuestDto) (s : Store) (p : Participant)
    → find_by_id dto.participant_id s.participants ≡ some p
    → starts_with guest_prefix p.user_id ≡ false
    → (upgrade_guest env dto s).0 ≡ err bad_request
unfolding upgrade_guest is_guest
upgrade_refused env dto s p found no_guest = ground arith

-- A guest who is upgraded is linked to the one user that the email finds, keeps all else, and is no guest:
-- no later upgrade of the same participant goes through while the row stays. No user's identifier may
-- look like a guest's.
pub upgrade_guest_once :
    (env env' : Env) (dto : UpgradeGuestDto) (email : Text) (s : Store) (p : Participant)
    → find_by_id dto.participant_id s.participants ≡ some p
    → NamesNoGuest s.users
    → starts_with guest_prefix env.new_user_id ≡ false
    → is_ok (upgrade_guest env dto s).0 ≡ true
    → let s' = (upgrade_guest env dto s).1 in
      ((u : User) × (find_where (has_email dto.email) s'.users ≡ some u)
        × (find_by_id dto.participant_id s'.participants ≡ some (link_to u p)))
      × ((upgrade_guest env' (record dto { email = email }) s').0 ≡ err bad_request)
upgrade_guest_once env env' dto email s p found names new_name goes =
    let (made, written) = upgrade_guest_done env dto s p found goes in
    elim (find_or_create_done env dto.email s names new_name) [
      | inr fails ↦ ground arith
      | inl (u, r, no_guest, of_email, same) ↦
          let row : find_by_id dto.participant_id (upgrade_guest env dto s).1.participants
              ≡ some (link_to u p) =
            rw (written u r, same)
              (ground (
                arith,
                find-key dto.participant_id s.participants {a = p} found,
                find-save dto.participant_id (link_to u p) s.participants,
              )) in
          (
            (u, rw (written u r) of_email, row),
            upgrade_refused env' (record dto { email = email }) (upgrade_guest env dto s).1
                (link_to u p) row no_guest,
          )
    ]
