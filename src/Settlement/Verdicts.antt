-- ===== src/Settlement/Verdicts.antt =====
-- What one reconciliation decides, and what it leaves of a payment that the chain does not know.
use stellar_split.Prelude.{
  ℕ, ◌+◌, ◌≡◌, refl, ◌⊎◌, inl, inr, true, false, Option, none, some, List, arith, leb,
  if◌then◌else◌, find_by_id, update_row, Error, Result, ok, err, is_ok,
}
use stellar_split.Prelude.{Option-cases, Bool-cases, find-update}
use stellar_split.Invitations.Entity.{participant_keyed}
use stellar_split.Payments.Entity.{
  PaymentSettlementStatus, submitted, reconciling, review_required, Payment, payment_keyed,
  Verification,
}
use stellar_split.Settlement.Store.{Store, Env}
use stellar_split.Settlement.Reconciling.{
  is_final, set_status, check, mark_reconciling, mark_confirmed, mark_payment_for_review,
  handle_confirmed_payment, handle_failed_payment, settle_by, give_back, ask, reconcile,
  reconcile_payment,
}

-- The status that a reconciliation gives, by Horizon's answer.
abbrev pub verdict : Env → Payment → Result (Option Verification) → PaymentSettlementStatus
verdict env p (err e) =
    if leb env.max_reconciliation_attempts (p.reconciliation_attempts + 1)
    then review_required
    else submitted
verdict env p (ok none) = reconciling
verdict env p (ok (some v)) =
    if v.valid then PaymentSettlementStatus.confirmed else PaymentSettlementStatus.failed

Answer-cases :
    (r : Result (Option Verification))
    → ((e : Error) × (r ≡ err e)) ⊎ ((r ≡ ok none) ⊎ ((v : Verification) × (r ≡ ok (some v))))
Answer-cases (err e) = inl (e, refl)
Answer-cases (ok none) = inr (inl refl)
Answer-cases (ok (some v)) = inr (inr (v, refl))

KeepsId : (Payment → Payment) → Type 0
KeepsId f = (x : Payment) → (f x).id ≡ x.id

update_once :
    (p : Payment) (f : Payment → Payment) (ps : List Payment)
    → KeepsId f
    → find_by_id p.id ps ≡ some p
    → find_by_id p.id (update_row p.id f ps) ≡ some (f p)
unfolding KeepsId
update_once p f ps keep found = ground (arith, find-update p.id p.id f ps keep)

update_twice :
    (p : Payment) (f g : Payment → Payment) (ps : List Payment)
    → KeepsId f
    → KeepsId g
    → find_by_id p.id ps ≡ some p
    → find_by_id p.id (update_row p.id g (update_row p.id f ps)) ≡ some (g (f p))
unfolding KeepsId
update_twice p f g ps keep keep' found =
    ground
      (arith, find-update p.id p.id g (update_row p.id f ps) keep', update_once p f ps keep found)

mark_payment_for_review_lem :
    (env : Env) (n i : ℕ) (s : Store)
    → env.write n ≡ true
    → (mark_payment_for_review env n i s).1.payments
      ≡ update_row i (check env.now review_required) s.payments
unfolding mark_payment_for_review find_by_id update_row
mark_payment_for_review_lem env n i s goes =
    elim (Option-cases (find_by_id i (update_row i (check env.now review_required) s.payments))) [
      | inl e ↦ rw (goes, e) refl
      | inr (p, e) ↦ rw (goes, e) refl
    ]

give_back_review :
    (env : Env) (p : Payment) (s : Store)
    → leb env.max_reconciliation_attempts (p.reconciliation_attempts + 1) ≡ true
    → (give_back env p s).1 ≡ (mark_payment_for_review env 3 p.id s).1
unfolding give_back
give_back_review env p s spent =
    elim (Bool-cases (is_ok (mark_payment_for_review env 3 p.id s).0)) [
      | inl goes ↦ ground arith
      | inr fails ↦ ground arith
    ]

-- What is at the payment's identifier after a reconciliation.
abbrev pub AfterIs : Env → Store → Payment → Payment → Type 0
AfterIs env s p p' = find_by_id p.id (reconcile_payment env p.id s).1.payments ≡ some p'

module _ (env : Env) (s : Store) (p : Payment) (found : find_by_id p.id s.payments ≡ some p)
    (open_now : is_final p.settlement_status ≡ false) (writes : (n : ℕ) → env.write n ≡ true) where
  unfoldable pub first : Payment → Payment
  first = mark_reconciling env.now (p.reconciliation_attempts + 1)

  pub missing_row : env.verify p.tx_hash ≡ ok none → AfterIs env s p (first p)
  unfolding first reconcile_payment reconcile ask settle_by mark_reconciling KeepsId
  missing_row answer = ground (arith, writes 0, update_once p first s.payments (λ x. refl) found)

  confirmed_row :
      (v : Verification)
      → env.verify p.tx_hash ≡ ok (some v)
      → v.valid ≡ true
      → AfterIs env s p (mark_confirmed env.now v.amount (first p))
  unfolding first reconcile_payment reconcile ask settle_by mark_reconciling mark_confirmed
      handle_confirmed_payment KeepsId
  confirmed_row v answer valid = ground (
    arith,
    writes 0,
    writes 1,
    writes 2,
    update_twice p first (mark_confirmed env.now v.amount) s.payments (λ x. refl) (λ x. refl) found,
  )

  failed_row :
      (v : Verification)
      → env.verify p.tx_hash ≡ ok (some v)
      → v.valid ≡ false
      → AfterIs env s p (check env.now PaymentSettlementStatus.failed (first p))
  unfolding first reconcile_payment reconcile ask settle_by mark_reconciling handle_failed_payment
      KeepsId
  failed_row v answer valid = ground (
    arith,
    writes 0,
    writes 1,
    writes 2,
    update_twice p first (check env.now PaymentSettlementStatus.failed) s.payments (λ x. refl)
        (λ x. refl) found,
  )

  error_gives_back :
      (e : Error)
      → env.verify p.tx_hash ≡ err e
      → (reconcile_payment env p.id s).1
        ≡ (give_back env p (record s { payments = update_row p.id first s.payments })).1
  unfolding first reconcile_payment reconcile ask
  error_gives_back e answer = ground (arith, writes 0)

  review_row :
      (e : Error)
      → env.verify p.tx_hash ≡ err e
      → leb env.max_reconciliation_attempts (p.reconciliation_attempts + 1) ≡ true
      → AfterIs env s p (check env.now review_required (first p))
  unfolding KeepsId first mark_reconciling
  review_row e answer spent =
      let s1 : Store = record s { payments = update_row p.id first s.payments } in
      rw
        (
          error_gives_back e answer,
          give_back_review env p s1 spent,
          mark_payment_for_review_lem env 3 p.id s1 (writes 3),
        )
        (update_twice p first (check env.now review_required) s.payments (λ x. refl) (λ x. refl)
          found)

  back_row :
      (e : Error)
      → env.verify p.tx_hash ≡ err e
      → leb env.max_reconciliation_attempts (p.reconciliation_attempts + 1) ≡ false
      → AfterIs env s p (set_status submitted (first p))
  unfolding first reconcile_payment reconcile ask give_back mark_reconciling KeepsId
  back_row e answer spare = ground (
    arith,
    writes 0,
    writes 3,
    update_twice p first (set_status submitted) s.payments (λ x. refl) (λ x. refl) found,
  )

-- A reconciliation of a payment that is not final, when the writes go through, counts one attempt and leaves
-- the payment confirmed or failed as the chain says, reconciling if the chain does not know the transaction,
-- and after an error submitted again, or in review once the attempts have reached their maximum.
pub reconcile_payment_decides :
    (env : Env) (s : Store) (p : Payment)
    → find_by_id p.id s.payments ≡ some p
    → is_final p.settlement_status ≡ false
    → ((n : ℕ) → env.write n ≡ true)
    → (p' : Payment) × (find_by_id p.id (reconcile_payment env p.id s).1.payments ≡ some p')
      × (p'.settlement_status ≡ verdict env p (env.verify p.tx_hash))
      × (p'.reconciliation_attempts ≡ p.reconciliation_attempts + 1)
unfolding first mark_reconciling mark_confirmed
reconcile_payment_decides env s p found open_now writes =
    elim (Answer-cases (env.verify p.tx_hash)) [
      | inl (e, a) ↦
          elim (Bool-cases (leb env.max_reconciliation_attempts (p.reconciliation_attempts + 1))) [
            | inl spent ↦ (
              check env.now review_required (first env s p found open_now writes p),
              review_row env s p found open_now writes e a spent,
              rw (a, spent) refl,
              refl,
            )
            | inr spare ↦ (
              set_status submitted (first env s p found open_now writes p),
              back_row env s p found open_now writes e a spare,
              rw (a, spare) refl,
              refl,
            )
          ]
      | inr (inl a) ↦ (
        first env s p found open_now writes p,
        missing_row env s p found open_now writes a,
        rw a refl,
        refl,
      )
      | inr (inr (v, a)) ↦ elim (Bool-cases v.valid) [
        | inl valid ↦ (
          mark_confirmed env.now v.amount (first env s p found open_now writes p),
          confirmed_row env s p found open_now writes v a valid,
          rw (a, valid) refl,
          refl,
        )
        | inr invalid ↦ (
          check env.now PaymentSettlementStatus.failed (first env s p found open_now writes p),
          failed_row env s p found open_now writes v a invalid,
          rw (a, invalid) refl,
          refl,
        )
      ]
    ]
