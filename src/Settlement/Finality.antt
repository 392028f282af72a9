-- ===== src/Settlement/Finality.antt =====
-- Payments that are confirmed or failed, under the calls of the reconciliation service.
use stellar_split.Prelude.{
  ℕ, zero, suc, ◌+◌, ◌≡◌, refl, sym, ap, ◌∙◌, inl, inr, Bool, true, false, Option, none, some, List,
  [], ◌∷◌, ◌++◌, arith, ◌==◌, take, All, select, find_by_id, update_row, Result, ok, err,
}
use stellar_split.Prelude.{Option-cases, Bool-cases, Distinct, find-key, find-update}
use stellar_split.Invitations.Entity.{participant_keyed}
use stellar_split.Payments.Entity.{
  PaymentSettlementStatus, submitted, review_required, Payment, payment_keyed, Verification,
}
use stellar_split.Settlement.Store.{Store, Env, add_reconciliation}
use stellar_split.Settlement.Reconciling.{
  set_status, check, mark_reconciling, mark_confirmed, mark_payment_for_review,
  handle_confirmed_payment, handle_failed_payment, settle_by, give_back, ask, reconcile,
  reconcile_payment,
}
use stellar_split.Settlement.Reviewing.{
  set_retry, is_submitted, is_in_review, is_stale, is_pending, for_each, reconcile_pending_payments,
  detect_stale_payments, Resolution, resolve, resolve_payment_from_review,
}
use stellar_split.Settlement.Service.{Call, perform}

abbrev pub is_settled : PaymentSettlementStatus → Bool
is_settled PaymentSettlementStatus.submitted = false
is_settled PaymentSettlementStatus.confirmed = true
is_settled PaymentSettlementStatus.failed = true
is_settled PaymentSettlementStatus.review_required = false
is_settled PaymentSettlementStatus.reconciling = false

module _ (env : Env) (j : ℕ) where
  -- What an operation on another payment leaves of payment `j`.
  mark_payment_for_review-other :
      (n i : ℕ) (s : Store)
      → (i == j) ≡ false
      → find_by_id j (mark_payment_for_review env n i s).1.payments ≡ find_by_id j s.payments
  unfolding mark_payment_for_review
  mark_payment_for_review-other n i s other =
      ground (arith, find-update i j (check env.now review_required) s.payments (λ x. refl))

  settle_by-other :
      (p : Payment) (v : Option Verification) (s : Store)
      → (p.id == j) ≡ false
      → find_by_id j (settle_by env p v s).1.payments ≡ find_by_id j s.payments
  unfolding settle_by handle_confirmed_payment handle_failed_payment mark_confirmed
  settle_by-other p none s other = refl
  settle_by-other p (some v) s other = ground (
    arith,
    find-update p.id j (mark_confirmed env.now v.amount) s.payments (λ x. refl),
    find-update p.id j (check env.now PaymentSettlementStatus.failed) s.payments (λ x. refl),
  )

  give_back-other :
      (p : Payment) (s : Store)
      → (p.id == j) ≡ false
      → find_by_id j (give_back env p s).1.payments ≡ find_by_id j s.payments
  unfolding give_back
  give_back-other p s other = ground (
    arith,
    mark_payment_for_review-other 3 p.id s other,
    find-update p.id j (set_status submitted) s.payments (λ x. refl),
  )

  reconcile-other_by :
      (p : Payment) (s : Store) (r : Result (Option Verification))
      → env.verify p.tx_hash ≡ r
      → (p.id == j) ≡ false
      → find_by_id j (reconcile env p s).1.payments ≡ find_by_id j s.payments
  unfolding reconcile ask mark_reconciling
  reconcile-other_by p s (err x) answer other =
      let s1 : Store = record s {
        payments =
            update_row p.id (mark_reconciling env.now (p.reconciliation_attempts + 1)) s.payments;
      } in
      ground (
        arith,
        find-update p.id j (mark_reconciling env.now (p.reconciliation_attempts + 1)) s.payments
            (λ x. refl),
        give_back-other p s1 other,
      )
  reconcile-other_by p s (ok v) answer other =
      let s1 : Store = record s {
        payments =
            update_row p.id (mark_reconciling env.now (p.reconciliation_attempts + 1)) s.payments;
      } in
      ground (
        arith,
        find-update p.id j (mark_reconciling env.now (p.reconciliation_attempts + 1)) s.payments
            (λ x. refl),
        settle_by-other p v s1 other,
        give_back-other p (settle_by env p v s1).1 other,
      )

  reconcile-other :
      (p : Payment) (s : Store)
      → (p.id == j) ≡ false
      → find_by_id j (reconcile env p s).1.payments ≡ find_by_id j s.payments
  reconcile-other p s other = reconcile-other_by p s (env.verify p.tx_hash) refl other

  for_each-other :
      (n : ℕ) (qs : List Payment) (s : Store)
      → All (λ q. (q.id == j) ≡ false) qs
      → find_by_id j (for_each (λ n q. mark_payment_for_review env n q.id) n qs s).1.payments
        ≡ find_by_id j s.payments
  unfolding for_each
  for_each-other n [] s h = refl
  for_each-other n (q ∷ qs) s h =
      let s' = (mark_payment_for_review env n q.id s).1 in
      ground (arith, mark_payment_for_review-other n q.id s h.0, for_each-other (n + 1) qs s' h.1)

  queue-payments :
      (n : ℕ) (qs : List Payment) (s : Store)
      → (for_each (λ n q. add_reconciliation env n q.id) n qs s).1.payments ≡ s.payments
  unfolding for_each add_reconciliation
  queue-payments n [] s = refl
  queue-payments n (q ∷ qs) s =
      let s' : Store = record s { reconciliation_queue = s.reconciliation_queue ++ (q.id ∷ []) } in
      ground (arith, queue-payments (n + 1) qs s')

none-other :
    (j : ℕ) (p : Payment → Bool) (xs : List Payment)
    → find_by_id j xs ≡ none
    → All (λ q. (q.id == j) ≡ false) (select p xs)
unfolding find_by_id
none-other j p [] e = tt
none-other j p (x ∷ xs) e = ground (arith, none-other j p xs)

-- The rows that pass a test that row `j` does not.
select-other :
    (j : ℕ) (p : Payment → Bool) (xs : List Payment) (a : Payment)
    → Distinct xs
    → find_by_id j xs ≡ some a
    → p a ≡ false
    → All (λ q. (q.id == j) ≡ false) (select p xs)
unfolding find_by_id
select-other j p [] a d e h = tt
select-other j p (x ∷ xs) a d e h = ground (arith, select-other j p xs a d.1, none-other j p xs)

-- The database's order gives back rows that it was given.
abbrev pub Orders : (List Payment → List Payment) → Type 1
Orders f = (P : Payment → Type 0) (xs : List Payment) → All P xs → All P (f xs)

reconcile_payment-keeps :
    (env : Env) (i j : ℕ) (s : Store) (p : Payment)
    → find_by_id j s.payments ≡ some p
    → is_settled p.settlement_status ≡ true
    → find_by_id j (reconcile_payment env i s).1.payments ≡ some p
unfolding reconcile_payment
reconcile_payment-keeps env i j s p e h = elim (Option-cases (find_by_id i s.payments)) [
  | inl unknown ↦ ground arith
  | inr (q, found) ↦ ground (arith, find-key i s.payments {a = q} found, reconcile-other env j q s)
]

resolve-other :
    (env : Env) (i j : ℕ) (r : Resolution) (s : Store)
    → (i == j) ≡ false
    → find_by_id j (resolve env i r s).1.payments ≡ find_by_id j s.payments
unfolding resolve
resolve-other env i j Resolution.confirm s other =
    ground
      (arith, find-update i j (set_status PaymentSettlementStatus.confirmed) s.payments (λ x. refl))
resolve-other env i j Resolution.fail s other =
    ground
      (arith, find-update i j (set_status PaymentSettlementStatus.failed) s.payments (λ x. refl))
resolve-other env i j Resolution.retry s other =
    ground (arith, find-update i j set_retry s.payments (λ x. refl))

settled_elsewhere :
    (status : PaymentSettlementStatus)
    → is_settled status ≡ true
    → (is_in_review status ≡ false) × (is_submitted status ≡ false)
settled_elsewhere PaymentSettlementStatus.confirmed h = (refl, refl)
settled_elsewhere PaymentSettlementStatus.failed h = (refl, refl)
settled_elsewhere PaymentSettlementStatus.submitted h = cc
settled_elsewhere PaymentSettlementStatus.review_required h = cc
settled_elsewhere PaymentSettlementStatus.reconciling h = cc

settled-is_stale :
    (env : Env) (p : Payment) → is_settled p.settlement_status ≡ true → is_stale env p ≡ false
unfolding is_stale
settled-is_stale env p h = rw ((settled_elsewhere p.settlement_status h).1) refl

All-take : (P : Payment → Type 0) (n : ℕ) (xs : List Payment) → All P xs → All P (take n xs)
All-take P zero xs h = tt
All-take P (suc n) [] h = tt
All-take P (suc n) (x ∷ xs) h = (h.0, All-take P n xs h.1)

resolve_payment-keeps :
    (env : Env) (i j : ℕ) (r : Resolution) (s : Store) (p : Payment)
    → find_by_id j s.payments ≡ some p
    → is_settled p.settlement_status ≡ true
    → find_by_id j (resolve_payment_from_review env i r s).1.payments ≡ some p
unfolding resolve_payment_from_review
resolve_payment-keeps env i j r s p e h = elim (Option-cases (find_by_id i s.payments)) [
  | inl unknown ↦ ground arith
  | inr (q, found) ↦ elim (Bool-cases (i == j)) [
    | inr other ↦ ground (arith, resolve-other env i j r s other)
    | inl same ↦
        let eq : i ≡ j = ground arith in
        let both : some q ≡ some p = sym found ∙ ap (λ n. find_by_id n s.payments) eq ∙ e in
        ground (arith, settled_elsewhere p.settlement_status h)
  ]
]

-- A payment that is confirmed or failed keeps its row under every call and job of the reconciliation
-- service, whatever its outcome. Payments' identifiers must be distinct, and the database's order give back
-- rows that it was given.
pub perform_keeps_settled :
    (env : Env) (c : Call) (s : Store) (j : ℕ) (p : Payment)
    → Distinct s.payments
    → Orders env.order_by
    → find_by_id j s.payments ≡ some p
    → is_settled p.settlement_status ≡ true
    → find_by_id j (perform env c s).1.payments ≡ some p
unfolding perform reconcile_pending_payments detect_stale_payments
perform_keeps_settled env Call.queue_pending s j p d o e h =
    let found = take env.reconciliation_batch_size (env.order_by (select is_pending s.payments)) in
    rw (queue-payments env j 0 found s) e
perform_keeps_settled env Call.find_stale s j p d o e h =
    let other = λ (q : Payment). (q.id == j) ≡ false in
    let stale = select (is_stale env) s.payments in
    let rows = select-other j (is_stale env) s.payments p d e (settled-is_stale env p h) in
    let found = take env.reconciliation_batch_size (env.order_by stale) in
    for_each-other env j 0 found s
      (All-take other env.reconciliation_batch_size (env.order_by stale) (o other stale rows))
    ∙ e
perform_keeps_settled env (Call.reconcile_one i) s j p d o e h =
    reconcile_payment-keeps env i j s p e h
perform_keeps_settled env (Call.resolve_review i r) s j p d o e h =
    resolve_payment-keeps env i j r s p e h
