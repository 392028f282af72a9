-- ===== src/Payments/Repeats.antt =====
-- Submissions that come again, and submissions to a frozen split.
use stellar_split.Prelude.{
  ℕ, ◌≤◌, ◌≡◌, refl, sym, ap, ◌∙◌, inl, inr, Bool, true, false, ◌&&◌, Option, none, some, List, [],
  ◌∷◌, arith, ◌==◌, or_default, is_some, count, find_where, find_by_id, save_row, update_row,
  conflict, ok, err, is_ok,
}
use stellar_split.Prelude.{
  ==-refl, Option-cases, Bool-cases, find-save, find_where-save, count-save_fresh,
}
use stellar_split.Entities.{Split, split_keyed}
use stellar_split.Invitations.Entity.{Participant, participant_keyed}
use stellar_split.Payments.Entity.{
  Payment, payment_keyed, ProcessPaymentOptions, PaymentSubmissionResult, Verification,
}
use stellar_split.Payments.Store.{Tables, Store, Env, refuse_if}
use stellar_split.Payments.Converting.{is_participant, is_of_tx, converted_payment}
use stellar_split.Payments.Settling.{new_payment}
use stellar_split.Payments.Processing.{
  find_earlier, has_key, key_of, verified, settle, admit, submit, process,
  process_payment_submission,
}
use stellar_split.Payments.Service.{Call, perform}
use stellar_split.Payments.Accounts.{
  Settled, Left, new_submission, perform_left, mark_notified, no_earlier, carry_out_goes,
}
use stellar_split.Payments.Submissions.{
  Course, course, after_conversion, paid_as, received_store, process_duplicate, submission_fails,
  notify_keeps,
}

-- The payments that the processor recorded of one transaction: they have a key.
abbrev pub is_credit_of : ℕ → Payment → Bool
is_credit_of tx p = is_some p.idempotency_key && (p.tx_hash == tx)

count-update :
    (tx j : ℕ) (xs : List Payment)
    → count (is_credit_of tx) (update_row j mark_notified xs) ≡ count (is_credit_of tx) xs
unfolding update_row
count-update tx j [] = refl
count-update tx j (x ∷ xs) = ground (arith, count-update tx j xs)

no_credit :
    (tx : ℕ) (ps : List Payment)
    → find_where (is_of_tx tx) ps ≡ none
    → count (is_credit_of tx) ps ≡ 0
unfolding find_where
no_credit tx [] e = refl
no_credit tx (p ∷ ps) e = ground (arith, no_credit tx ps)

-- A row of the conversion service is no credit, and is found by no key.
converted_credits :
    (env : Env) (o : ProcessPaymentOptions) (v : Verification) (s : Store) (tx : ℕ)
    → find_by_id env.conversion_id s.tables.payments ≡ none
    → count (is_credit_of tx) (after_conversion env o v s).tables.payments
      ≡ count (is_credit_of tx) s.tables.payments
unfolding converted_payment
converted_credits env o v s tx fresh = elim (received_store env o v s) [
  | inl same ↦ rw same refl
  | inr (paid, same) ↦
      let saved =
        count-save_fresh (is_credit_of tx) (converted_payment env o paid) s.tables.payments fresh in
      rw same (ground (arith, saved))
]

find_key-save :
    (key : ℕ) (a : Payment) (xs : List Payment)
    → a.idempotency_key ≡ none
    → find_where (has_key key) xs ≡ none
    → find_where (has_key key) (save_row a xs) ≡ none
unfolding find_where save_row
find_key-save key a [] keyless e = ground arith
find_key-save key a (x ∷ xs) keyless e = ground (arith, find_key-save key a xs keyless)

converted_key :
    (env : Env) (o : ProcessPaymentOptions) (v : Verification) (s : Store) (key : ℕ)
    → find_where (has_key key) s.tables.payments ≡ none
    → find_where (has_key key) (after_conversion env o v s).tables.payments ≡ none
unfolding converted_payment
converted_key env o v s key e = elim (received_store env o v s) [
  | inl same ↦ rw same e
  | inr (paid, same) ↦
      rw same (find_key-save key (converted_payment env o paid) s.tables.payments refl e)
]

converted_find :
    (env : Env) (o : ProcessPaymentOptions) (v : Verification) (s : Store) (i : ℕ)
    → (env.conversion_id == i) ≡ false
    → find_by_id i s.tables.payments ≡ none
    → find_by_id i (after_conversion env o v s).tables.payments ≡ none
unfolding converted_payment
converted_find env o v s i other e = elim (received_store env o v s) [
  | inl same ↦ rw same e
  | inr (paid, same) ↦
      rw (same, find-save i (converted_payment env o paid) s.tables.payments, other) e
]

submission_unique :
    (env : Env) (o : ProcessPaymentOptions) (s : Store) (t' : Tables) (tx : ℕ)
    → Settled env o s t'
    → find_by_id env.new_id s.tables.payments ≡ none
    → find_by_id env.conversion_id s.tables.payments ≡ none
    → (env.conversion_id == env.new_id) ≡ false
    → count (is_credit_of tx) s.tables.payments ≤ 1
    → count (is_credit_of tx) t'.payments ≤ 1
unfolding new_payment
submission_unique env o s t' tx d fresh fresh' other h =
    let c = d.carried in
    let ps = (after_conversion env o c.answer s).tables.payments in
    let new = new_payment env o (key_of env o) (paid_as env o c.answer s) c.participant in
    let (_, no_tx) = no_earlier (key_of env o) o.tx_hash s.tables.payments d.is_new in
    let unused = converted_find env o c.answer s env.new_id other fresh in
    let saved = count-save_fresh (is_credit_of tx) new ps unused in
    let before = converted_credits env o c.answer s tx fresh' in
    rw d.paid (ground (arith, saved, before, no_credit o.tx_hash s.tables.payments no_tx))

-- No transaction is credited twice: if no two payments with an idempotency key, as the processor records
-- them, have one transaction hash, then none have after any call, whatever its outcome. Payments that the
-- conversion service records beside have no key. The two new identifiers must be unused and different.
pub perform_once :
    (env : Env) (c : Call) (s : Store)
    → find_by_id env.new_id s.tables.payments ≡ none
    → find_by_id env.conversion_id s.tables.payments ≡ none
    → (env.conversion_id == env.new_id) ≡ false
    → ((tx : ℕ) → count (is_credit_of tx) s.tables.payments ≤ 1)
    → (tx : ℕ) → count (is_credit_of tx) (perform env c s).1.tables.payments ≤ 1
perform_once env c s fresh fresh' other h tx = elim (perform_left env c s) [
  | Left.unchanged e ↦ rw e (h tx)
  | Left.paid_for o goes d ↦
      submission_unique env o s (perform env c s).1.tables tx d fresh fresh' other (h tx)
  | Left.left_over o v fails new e ↦ rw (e, converted_credits env o v s tx fresh') (h tx)
  | Left.marked j goes e ↦ rw (e, count-update tx j s.tables.payments) (h tx)
]

duplicate_of_key :
    (env env' : Env) (o : ProcessPaymentOptions) (s : Store) (p : Payment)
    → key_of env' o ≡ key_of env o
    → find_earlier (key_of env o) o.tx_hash s.tables.payments ≡ some p
    → process_payment_submission env' o s ≡ (
      ok (record { payment_id = p.id; is_duplicate = true; idempotency_key = some (key_of env o) }),
      s,
    )
duplicate_of_key env env' o s p same e = rw (← same) (process_duplicate env' o s p (rw same e))

settle_result :
    (env : Env) (o : ProcessPaymentOptions) (s : Store) (key : ℕ) (paid : ℕ × ℕ) (p : Participant)
    (split : Split)
    → is_ok (settle env o key paid p split s).0 ≡ true
    → (settle env o key paid p split s).0
      ≡ ok (
        record { payment_id = env.new_id; is_duplicate = false; idempotency_key = some key },
        some (new_payment env o key paid p),
      )
unfolding settle
settle_result env o s key paid p split goes = ground arith

done_result :
    (env : Env) (o : ProcessPaymentOptions) (s : Store) (r : PaymentSubmissionResult)
    (p : Option Payment)
    → (process env o (key_of env o) s).0 ≡ ok (r, p)
    → (process_payment_submission env o s).0 ≡ ok r
unfolding process_payment_submission
done_result env o s r p e =
    ground (arith, notify_keeps env o s p (process env o (key_of env o) s).1)

submission_result :
    (env : Env) (o : ProcessPaymentOptions) (s : Store)
    → find_earlier (key_of env o) o.tx_hash s.tables.payments ≡ none
    → is_ok (process env o (key_of env o) s).0 ≡ true
    → (process_payment_submission env o s).0
      ≡ ok (record {
        payment_id = env.new_id;
        is_duplicate = false;
        idempotency_key = some (key_of env o);
      })
submission_result env o s new goes = elim (course env o s) [
  | Course.duplicate p e ↦ ground arith
  | Course.refused fails kept ↦ ground arith
  | Course.carried c again by ↦
      let key = key_of env o in
      let paid = paid_as env o c.answer s in
      let s1 = after_conversion env o c.answer s in
      let through = ap (λ x. is_ok x.0) (sym by) ∙ goes in
      let same = by ∙ carry_out_goes env o key paid c.participant c.split s1 through in
      let result =
        ap (λ x. x.0) same
        ∙ settle_result env o s1 key paid c.participant c.split
            (ap (λ x. is_ok x.0) (sym same) ∙ goes) in
      done_result env o s _ _ result
]

-- The payment of a new submission is the one that its key finds afterwards.
found_afterwards :
    (env : Env) (o : ProcessPaymentOptions) (s : Store) (t' : Tables) (d : Settled env o s t')
    → find_earlier (key_of env o) o.tx_hash t'.payments
      ≡ some (
          new_payment env o (key_of env o) (paid_as env o d.carried.answer s) d.carried.participant)
unfolding find_earlier new_payment
found_afterwards env o s t' d =
    let c = d.carried in
    let key = key_of env o in
    let new = new_payment env o key (paid_as env o c.answer s) c.participant in
    let (no_key, _) = no_earlier key o.tx_hash s.tables.payments d.is_new in
    let ps = (after_conversion env o c.answer s).tables.payments in
    let found =
      find_where-save (has_key key) new ps (converted_key env o c.answer s key no_key)
        (==-refl key) in
    rw (d.paid, find_earlier, found) refl

-- A submission that comes again with the same options, at any later time and whatever the services then
-- answer, finds the payment that the first one gave, says so, and changes nothing. The key must be the
-- same, as it is when given or when the hash is the same function.
pub process_payment_twice :
    (env env' : Env) (o : ProcessPaymentOptions) (s : Store) (r : PaymentSubmissionResult)
    → key_of env' o ≡ key_of env o
    → (process_payment_submission env o s).0 ≡ ok r
    → let s' = (process_payment_submission env o s).1 in
      process_payment_submission env' o s' ≡ (
        ok (record {
          payment_id = r.payment_id;
          is_duplicate = true;
          idempotency_key = some (key_of env o);
        }),
        s',
      )
unfolding new_payment
process_payment_twice env env' o s r same_key goes =
    elim (Bool-cases (is_ok (process env o (key_of env o) s).0)) [
      | inr fails ↦ ground (arith, submission_fails env o s fails)
      | inl done ↦ elim (Option-cases (find_earlier (key_of env o) o.tx_hash s.tables.payments)) [
        | inr (p, e) ↦
            let dup = process_duplicate env o s p e in
            let number : p.id ≡ r.payment_id = ground arith in
            rw (dup, ← number) (duplicate_of_key env env' o s p same_key e)
        | inl new ↦
            let s' = (process_payment_submission env o s).1 in
            let d = (new_submission env o s new done).1 in
            let c = d.carried in
            let p = new_payment env o (key_of env o) (paid_as env o c.answer s) c.participant in
            let result = submission_result env o s new done in
            let number : env.new_id ≡ r.payment_id = ground (arith, result) in
            rw (← number)
              (duplicate_of_key env env' o s' p same_key (found_afterwards env o s s'.tables d))
      ]
    ]

-- No payment goes to a frozen split: a new submission for it fails and changes no table, whatever the
-- services answer and whoever pays.
pub frozen_refused :
    (env : Env) (o : ProcessPaymentOptions) (s : Store) (split : Split)
    → find_earlier (key_of env o) o.tx_hash s.tables.payments ≡ none
    → find_by_id o.split_id s.tables.splits ≡ some split
    → split.is_frozen ≡ true
    → let (r, s') = process_payment_submission env o s in (is_ok r ≡ false) × (s'.tables ≡ s.tables)
frozen_refused env o s split new found frozen = elim (course env o s) [
  | Course.duplicate p e ↦ ground arith
  | Course.carried c again by ↦ ground (arith, c.has_split, c.not_frozen)
  | Course.refused fails kept ↦
      let (failed, same) = submission_fails env o s fails in
      (failed, ap (λ x. x.tables) (same ∙ kept))
]

-- The caller does not learn why: of a valid new payment to a frozen split by a participant of it, the
-- exception is the driver's, if rolling back a transaction again throws, and a conflict only if not.
pub frozen_masked :
    (env : Env) (o : ProcessPaymentOptions) (s : Store) (split : Split) (v : Verification)
    (p : Participant)
    → find_earlier (key_of env o) o.tx_hash s.tables.payments ≡ none
    → find_by_id o.split_id s.tables.splits ≡ some split
    → split.is_frozen ≡ true
    → (env.verify o.tx_hash ≡ ok (some v)) × (v.valid ≡ true)
    → find_where (is_participant o) s.tables.participants ≡ some p
    → (process_payment_submission env o s).0 ≡ err (or_default env.second_rollback conflict)
unfolding process_payment_submission process submit admit verified refuse_if
frozen_masked env o s split v p new found frozen valid there = ground arith
