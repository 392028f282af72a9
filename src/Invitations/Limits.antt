-- ===== src/Invitations/Limits.antt =====
-- How many people an invitation lets in, over any calls of the service in any order.
use stellar_split.Prelude.{
  ℕ, ◌+◌, ◌≤◌, ◌≡◌, refl, ◌∙◌, Bool, true, false, ◌&&◌, none, some, List, [], ◌∷◌, arith,
  if◌then◌else◌, find_where, find_by_id, save_row, is_ok,
}
use stellar_split.Prelude.{Distinct, save_row-Distinct, find_where-find, find_where-save_over}
use stellar_split.Invitations.Entity.{Invitation, invitation_keyed, participant_keyed}
use stellar_split.Invitations.Store.{Store, Env, has_token}
use stellar_split.Invitations.Inviting.{invalidate, mark_invalid, is_spent}
use stellar_split.Invitations.Service.{Call, perform}
use stellar_split.Invitations.Rows.{RowStep, invited, is_join}
use stellar_split.Invitations.Moves.{perform_moves, perform-Distinct}

abbrev pub History : Type 0
History = List (Env × Call)

abbrev pub perform_all : History → Store → Store
perform_all [] s = s
perform_all ((env, c) ∷ h) s = perform_all h (perform env c s).1

-- How many calls join with the token.
abbrev pub joins : ℕ → History → Store → ℕ
joins t [] s = 0
joins t ((env, c) ∷ h) s =
    (if (perform env c s).0 && is_join t c then 1 else 0) + joins t h (perform env c s).1

-- The identifiers that the database makes up are unused.
abbrev pub AllFresh : History → Store → Type 0
AllFresh [] s = Unit
AllFresh ((env, c) ∷ h) s =
    (find_by_id env.new_id s.invitations ≡ none) × AllFresh h (perform env c s).1

-- Each call comes no earlier than the one before it, the first no earlier than `now`.
abbrev pub InOrder : ℕ → History → Type 0
InOrder now [] = Unit
InOrder now ((env, c) ∷ h) = (now ≤ env.now) × InOrder env.now h

step_within :
    (now : ℕ) (joined : Bool) (v w : Invitation)
    → RowStep now joined v w
    → v.uses_count ≤ v.max_uses
    → w.uses_count ≤ w.max_uses
unfolding is_spent
step_within now true v w step le =
    let open_now = step.admitted refl in ground (arith, step.counted, step.same_max)
step_within now false v w step le = omega (arith, step.counted, step.same_max)

step_refused :
    (now : ℕ) (joined : Bool) (v w : Invitation)
    → RowStep now joined v w
    → v.expires_at ≤ now
    → joined ≡ false
unfolding is_spent
step_refused now true v w step le = let open_now = step.admitted refl in ground arith
step_refused now false v w step le = refl

-- However often an invitation is used, by calls of the service in any order, whatever fails: its use
-- count tells exactly how many calls joined by it, and never exceeds its maximum, if it did not before.
-- New identifiers must be unused.
pub joins_within_limit :
    (t : ℕ) (h : History) (s : Store) (v : Invitation)
    → Distinct s.invitations
    → AllFresh h s
    → invited t s ≡ some v
    → v.uses_count ≤ v.max_uses
    → (v' : Invitation) × (invited t (perform_all h s) ≡ some v')
      × (v'.uses_count ≡ v.uses_count + joins t h s)
      × (v'.max_uses ≡ v.max_uses)
      × (v'.uses_count ≤ v'.max_uses)
joins_within_limit t [] s v d fresh e le = (v, e, omega arith, refl, le)
joins_within_limit t ((env, c) ∷ h) s v d fresh e le =
    let (w, f, step) = perform_moves env c s t v d fresh.0 e in
    let le' : w.uses_count ≤ w.max_uses =
      step_within env.now ((perform env c s).0 && is_join t c) v w step le in
    let (v', g, uses, same_max, bound) =
      joins_within_limit t h (perform env c s).1 w (perform-Distinct env c s d) fresh.1 f le' in
    (v', g, omega (arith, uses, step.counted), same_max ∙ step.same_max, bound)

closed_stays :
    (now : ℕ) (t : ℕ) (h : History) (s : Store) (v : Invitation)
    → Distinct s.invitations
    → AllFresh h s
    → InOrder now h
    → invited t s ≡ some v
    → v.expires_at ≤ now
    → joins t h s ≡ 0
closed_stays now t [] s v d fresh later e le = refl
closed_stays now t ((env, c) ∷ h) s v d fresh later e le =
    let (w, f, step) = perform_moves env c s t v d fresh.0 e in
    let le' : w.expires_at ≤ env.now = ground arith in
    let rest =
      closed_stays env.now t h (perform env c s).1 w (perform-Distinct env c s d) fresh.1 later.1 f
        le' in
    let refused =
      step_refused env.now ((perform env c s).0 && is_join t c) v w step (omega arith) in
    rw refused (omega (arith, rest))

invalidate_done :
    (env : Env) (s : Store) (v : Invitation)
    → find_by_id v.id s.invitations ≡ some v
    → is_ok (invalidate env v.id s).0 ≡ true
    → (invalidate env v.id s).1.invitations ≡ save_row (mark_invalid env.now v) s.invitations
unfolding invalidate
invalidate_done env s v e goes = ground arith

-- After an invalidation that goes through nobody joins by the invitation's token any more, over any later
-- calls of the service in any order. The token must be the invitation's own, new identifiers unused.
pub invalidate_final :
    (env : Env) (t : ℕ) (h : History) (s : Store) (v : Invitation)
    → Distinct s.invitations
    → invited t s ≡ some v
    → is_ok (invalidate env v.id s).0 ≡ true
    → AllFresh h (invalidate env v.id s).1
    → InOrder env.now h
    → joins t h (invalidate env v.id s).1 ≡ 0
unfolding mark_invalid
invalidate_final env t h s v d e goes fresh later =
    let new = mark_invalid env.now v in
    let s' = (invalidate env v.id s).1 in
    let by_id = find_where-find (has_token t) s.invitations {a = v} d e in
    let saved = invalidate_done env s v by_id goes in
    let found : find_where (has_token t) (save_row new s.invitations) ≡ some new =
      ground (arith, find_where-save_over (has_token t) new s.invitations {old = v} d by_id refl) in
    closed_stays env.now t h s' new (rw saved (save_row-Distinct new s.invitations d)) fresh later
      (rw saved found) (omega arith)
