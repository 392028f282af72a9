-- ===== src/Invitations/Moves.antt =====
-- What any call of the invitations service does to an invitation that is there, and to the keys.
use stellar_split.Prelude.{
  ℕ, ◌≡◌, refl, ap, ◌∙◌, inl, inr, Bool, true, false, ◌&&◌, none, some, arith, ◌==◌, find_by_id,
  is_ok,
}
use stellar_split.Prelude.{
  Option-cases, Distinct, save_row-Distinct, find_where-find, find_where-save_fresh, find-key,
  find_where-pass,
}
use stellar_split.Entities.{split_keyed}
use stellar_split.Invitations.Entity.{
  Invitation, invitation_keyed, participant_keyed, CreateInvitationDto, JoinInvitationDto,
}
use stellar_split.Invitations.Store.{Store, Env, has_token}
use stellar_split.Invitations.Inviting.{create, invalidate, new_invitation, mark_invalid}
use stellar_split.Invitations.Joining.{join_by_token, count_use}
use stellar_split.Invitations.Upgrading.{upgrade_guest}
use stellar_split.Invitations.Service.{Call, perform}
use stellar_split.Invitations.Rows.{
  RowStep, invited, is_join, over_row, other_token, unchanged, joined_once, revoked, join_found,
  join_unknown, create_outcomes, invalidate_found, invalidate_unknown, upgrade_guest-invitations,
}

module _ (env : Env) (s : Store) (t : ℕ) (v : Invitation) where
  -- The invitation that the token finds after a call.
  Moves : Bool → Store → Type 0
  Moves joined s' = (v' : Invitation) × (invited t s' ≡ some v') × RowStep env.now joined v v'

  stays : (s' : Store) → invited t s ≡ some v → s'.invitations ≡ s.invitations → Moves false s'
  unfolding Moves
  stays s' e same = (v, rw same e, unchanged env.now v)

  join-Moves :
      (u : ℕ) (dto : JoinInvitationDto)
      → Distinct s.invitations
      → invited t s ≡ some v
      → let (r, s') = join_by_token env u dto s in Moves (is_ok r && (u == t)) s'
  unfolding Moves count_use
  join-Moves u dto d e = elim (Option-cases (invited u s)) [
    | inl none_there ↦ rw (join_unknown env s u dto none_there) (stays s e refl)
    | inr (w, there) ↦ elim (join_found env s u dto w there) [
      | inl (fails, same) ↦ rw fails (stays (join_by_token env u dto s).1 e same)
      | inr (goes, open_now, saved) ↦
          let new = count_use env.now dto w in
          let by_id = find_where-find (has_token u) s.invitations {a = w} d there in
          let of_w = find_where-pass (has_token u) s.invitations {a = w} there in
          let of_v = find_where-pass (has_token t) s.invitations {a = v} e in
          elim (over_row t s.invitations w new v d by_id refl e) [
            | inl (same, found) ↦
                let by_t : (u == t) ≡ true = ground arith in
                rw (goes, by_t) (new, rw saved found, rw same (joined_once env.now dto w open_now))
            | inr (other, found) ↦
                let not_t : (u == t) ≡ false = other_token u t s v w e there other in
                rw (goes, not_t) (v, rw saved found, unchanged env.now v)
          ]
    ]
  ]

  invalidate-Moves :
      (i : ℕ) → Distinct s.invitations → invited t s ≡ some v → Moves false (invalidate env i s).1
  unfolding Moves mark_invalid
  invalidate-Moves i d e = elim (Option-cases (find_by_id i s.invitations)) [
    | inl none_there ↦ rw (invalidate_unknown env s i none_there) (stays s e refl)
    | inr (w, there) ↦ elim (invalidate_found env s i w there) [
      | inl same ↦ stays (invalidate env i s).1 e same
      | inr saved ↦
          let new = mark_invalid env.now w in
          let by_id : find_by_id w.id s.invitations ≡ some w =
            ap (λ n. find_by_id n s.invitations) (find-key i s.invitations {a = w} there) ∙ there in
          elim (over_row t s.invitations w new v d by_id refl e) [
            | inl (same, found) ↦ (new, rw saved found, rw same (revoked env.now w))
            | inr (other, found) ↦ (v, rw saved found, unchanged env.now v)
          ]
    ]
  ]

  create-Moves :
      (dto : CreateInvitationDto)
      → find_by_id env.new_id s.invitations ≡ none
      → invited t s ≡ some v
      → Moves false (create env dto s).1
  unfolding Moves new_invitation
  create-Moves dto fresh e = elim (create_outcomes env s dto) [
    | inl same ↦ stays (create env dto s).1 e same
    | inr saved ↦ (
      v,
      rw
          (
            saved,
            find_where-save_fresh (has_token t) (new_invitation env dto) s.invitations fresh,
            e,
          )
          refl,
      unchanged env.now v,
    )
  ]

and_false : (b : Bool) → (b && false) ≡ false
and_false true = refl
and_false false = refl

-- Whatever the call and its outcome, the invitation that a token finds stays the one it finds, its
-- maximum stays, its uses grow by one exactly when the call joins by it, which a spent one refuses, and
-- its expiry stays or is set to now.
pub perform_moves :
    (env : Env) (c : Call) (s : Store) (t : ℕ) (v : Invitation)
    → Distinct s.invitations
    → find_by_id env.new_id s.invitations ≡ none
    → invited t s ≡ some v
    → let (done, s') = perform env c s in
      (v' : Invitation) × (invited t s' ≡ some v') × RowStep env.now (done && is_join t c) v v'
unfolding perform Moves
perform_moves env (Call.invite dto) s t v d fresh e =
    rw (and_false (is_ok (create env dto s).0)) (create-Moves env s t v dto fresh e)
perform_moves env (Call.join u dto) s t v d fresh e = join-Moves env s t v u dto d e
perform_moves env (Call.upgrade dto) s t v d fresh e =
    rw (and_false (is_ok (upgrade_guest env dto s).0))
      (stays env s t v (upgrade_guest env dto s).1 e (upgrade_guest-invitations env s dto))
perform_moves env (Call.revoke i) s t v d fresh e =
    rw (and_false (is_ok (invalidate env i s).0)) (invalidate-Moves env s t v i d e)

pub perform-Distinct :
    (env : Env) (c : Call) (s : Store)
    → Distinct s.invitations
    → Distinct (perform env c s).1.invitations
unfolding perform
perform-Distinct env (Call.invite dto) s d = elim (create_outcomes env s dto) [
  | inl same ↦ rw same d
  | inr saved ↦ rw saved (save_row-Distinct (new_invitation env dto) s.invitations d)
]
perform-Distinct env (Call.join u dto) s d = elim (Option-cases (invited u s)) [
  | inl e ↦ rw (join_unknown env s u dto e) d
  | inr (w, e) ↦ elim (join_found env s u dto w e) [
    | inl (fails, same) ↦ rw same d
    | inr (goes, open_now, saved) ↦
        rw saved (save_row-Distinct (count_use env.now dto w) s.invitations d)
  ]
]
perform-Distinct env (Call.upgrade dto) s d = rw (upgrade_guest-invitations env s dto) d
perform-Distinct env (Call.revoke i) s d = elim (Option-cases (find_by_id i s.invitations)) [
  | inl e ↦ rw (invalidate_unknown env s i e) d
  | inr (w, e) ↦ elim (invalidate_found env s i w e) [
    | inl same ↦ rw same d
    | inr saved ↦ rw saved (save_row-Distinct (mark_invalid env.now w) s.invitations d)
  ]
]
