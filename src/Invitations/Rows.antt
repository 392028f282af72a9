-- ===== src/Invitations/Rows.antt =====
-- What each operation of the invitations service does to the invitations.
use stellar_split.Prelude.{
  ℕ, ◌+◌, ◌≡◌, refl, sym, ap, ◌∙◌, ◌≢◌, ◌⊎◌, inl, inr, Bool, true, false, Option, none, some, List,
  arith, ◌==◌, if◌then◌else◌, find_where, find_by_id, save_row, not_found, gone, err, is_ok,
}
use stellar_split.Prelude.{Bool-cases, Distinct, find_where-find, find_where-save_over}
use stellar_split.Entities.{split_keyed}
use stellar_split.Invitations.Entity.{
  Invitation, invitation_keyed, participant_keyed, CreateInvitationDto, JoinInvitationDto,
  UpgradeGuestDto,
}
use stellar_split.Invitations.Store.{Store, Env, has_token}
use stellar_split.Invitations.Inviting.{create, invalidate, new_invitation, mark_invalid, is_spent}
use stellar_split.Invitations.Joining.{join_by_token, count_use}
use stellar_split.Invitations.Upgrading.{upgrade_guest, find_or_create}
use stellar_split.Invitations.Service.{Call}

-- The invitation that a token finds.
abbrev pub invited : ℕ → Store → Option Invitation
invited token s = find_where (has_token token) s.invitations

-- A call that joins with the token.
abbrev pub is_join : ℕ → Call → Bool
is_join token (Call.invite dto) = false
is_join token (Call.join t dto) = t == token
is_join token (Call.upgrade dto) = false
is_join token (Call.revoke i) = false

-- What a call may do to an invitation, `joined` when it joins by it.
pub record RowStep (now : ℕ) (joined : Bool) (v v' : Invitation) : Type 0 where
  pub same_id : v'.id ≡ v.id
  pub same_max : v'.max_uses ≡ v.max_uses
  pub counted : v'.uses_count ≡ v.uses_count + (if joined then 1 else 0)
  pub admitted : joined ≡ true → is_spent now v ≡ false
  pub expiry : (v'.expires_at ≡ v.expires_at) ⊎ (v'.expires_at ≡ now)

module _ (env : Env) (s : Store) where
  -- A join leaves the invitations as they are, or goes through and counts one use.
  pub join_found :
      (t : ℕ) (dto : JoinInvitationDto) (v : Invitation)
      → invited t s ≡ some v
      → ((is_ok (join_by_token env t dto s).0 ≡ false)
          × ((join_by_token env t dto s).1.invitations ≡ s.invitations))
        ⊎ ((is_ok (join_by_token env t dto s).0 ≡ true)
            × (is_spent env.now v ≡ false)
            × ((join_by_token env t dto s).1.invitations
                ≡ save_row (count_use env.now dto v) s.invitations))
  unfolding join_by_token
  join_found t dto v e = ground arith

  pub join_unknown :
      (t : ℕ) (dto : JoinInvitationDto)
      → invited t s ≡ none
      → join_by_token env t dto s ≡ (err gone, s)
  unfolding join_by_token
  join_unknown t dto e = rw e

  pub create_outcomes :
      (dto : CreateInvitationDto)
      → ((create env dto s).1.invitations ≡ s.invitations)
        ⊎ ((create env dto s).1.invitations ≡ save_row (new_invitation env dto) s.invitations)
  unfolding create
  create_outcomes dto = ground arith

  pub invalidate_found :
      (i : ℕ) (v : Invitation)
      → find_by_id i s.invitations ≡ some v
      → ((invalidate env i s).1.invitations ≡ s.invitations)
        ⊎ ((invalidate env i s).1.invitations ≡ save_row (mark_invalid env.now v) s.invitations)
  unfolding invalidate
  invalidate_found i v e = ground arith

  pub invalidate_unknown :
      (i : ℕ) → find_by_id i s.invitations ≡ none → invalidate env i s ≡ (err not_found, s)
  unfolding invalidate
  invalidate_unknown i e = rw e

  pub upgrade_guest-invitations :
      (dto : UpgradeGuestDto) → (upgrade_guest env dto s).1.invitations ≡ s.invitations
  unfolding upgrade_guest find_or_create
  upgrade_guest-invitations dto = ground arith

-- A row written over by its next version, as a search by token sees it.
pub over_row :
    (t : ℕ) (vs : List Invitation) (old new v : Invitation)
    → Distinct vs
    → find_by_id new.id vs ≡ some old
    → new.token ≡ old.token
    → find_where (has_token t) vs ≡ some v
    → ((v ≡ old) × (find_where (has_token t) (save_row new vs) ≡ some new))
      ⊎ ((v.id ≢ new.id) × (find_where (has_token t) (save_row new vs) ≡ some v))
over_row t vs old new v d there same e = ground (
  arith,
  find_where-find (has_token t) vs {a = v} d e,
  find_where-save_over (has_token t) new vs {old = old} d there (rw same refl),
)

pub other_token :
    (u t : ℕ) (s : Store) (v w : Invitation)
    → invited t s ≡ some v
    → invited u s ≡ some w
    → v.id ≢ w.id
    → (u == t) ≡ false
other_token u t s v w e there other = elim (Bool-cases (u == t)) [
  | inl same ↦
      let eq : u ≡ t = ground arith in
      let both : some w ≡ some v = sym there ∙ ap (λ n. invited n s) eq ∙ e in ground arith
  | inr differ ↦ differ
]

pub unchanged : (now : ℕ) (v : Invitation) → RowStep now false v v
unchanged now v = record {
  same_id = refl;
  same_max = refl;
  counted = omega arith;
  admitted = λ e. cc;
  expiry = inl refl;
}

pub joined_once :
    (now : ℕ) (dto : JoinInvitationDto) (v : Invitation)
    → is_spent now v ≡ false
    → RowStep now true v (count_use now dto v)
unfolding count_use
joined_once now dto v e = record {
  same_id = refl;
  same_max = refl;
  counted = refl;
  admitted = λ _. e;
  expiry = inl refl;
}

pub revoked : (now : ℕ) (v : Invitation) → RowStep now false v (mark_invalid now v)
unfolding mark_invalid
revoked now v = record {
  same_id = refl;
  same_max = refl;
  counted = omega arith;
  admitted = λ e. cc;
  expiry = inr refl;
}
