-- ===== src/Payments/Accounts.antt =====
-- What holds of the payments' tables over every call of the payment processor.
use stellar_split.Prelude.{
  ℕ, List, ◌≡◌, refl, sym, ap, ◌∙◌, ◌⊎◌, inl, inr, Bool, true, false, none, some, arith, ◌==◌,
  find_where, find_by_id, update_row, is_ok,
}
use mathlib.Core.Path.{subst}
use stellar_split.Prelude.{Option-cases, Bool-cases}
use stellar_split.Entities.{Split, split_keyed}
use stellar_split.Invitations.Entity.{Participant, participant_keyed}
use stellar_split.Payments.Entity.{Payment, payment_keyed, ProcessPaymentOptions, Verification}
use stellar_split.Payments.Store.{Tables, Store, Env, refuse_if}
use stellar_split.Payments.Converting.{is_of_tx}
use stellar_split.Payments.Settling.{set_total, total_paid}
use stellar_split.Payments.Processing.{
  find_earlier, has_key, key_of, settle, carry_out, process, process_payment_submission, is_failed,
  retry_options, retry_payment, resend_notifications, handle_webhook_replay,
}
use stellar_split.Payments.Service.{Call, perform}
use stellar_split.Payments.Ledger.{paid_tables, settle_done}
use stellar_split.Payments.Submissions.{
  Admitted, Course, course, after_conversion, paid_as, conversion_keeps, process_duplicate,
  submission_fails, submission_goes,
}

abbrev pub mark_notified : Payment → Payment
mark_notified p = record p { notifications_sent = true }

-- The tables that a submission is to leave.
abbrev pub settled_tables :
    (env : Env) (o : ProcessPaymentOptions) (s : Store) → Admitted env o s → Tables
settled_tables env o s c =
    paid_tables env o (after_conversion env o c.answer s) (key_of env o) (paid_as env o c.answer s)
      c.participant

-- The tables after a submission that is carried out.
pub record Settled (env : Env) (o : ProcessPaymentOptions) (s : Store) (t' : Tables) : Type 0 where
  pub carried : Admitted env o s
  pub is_new : find_earlier (key_of env o) o.tx_hash s.tables.payments ≡ none
  pub paid : t'.payments ≡ (settled_tables env o s carried).payments
  pub credited : t'.participants ≡ (settled_tables env o s carried).participants
  pub totalled :
      t'.splits
      ≡ update_row o.split_id
          (set_total (total_paid o.split_id (settled_tables env o s carried)))
          s.tables.splits

carry_out_fails :
    (env : Env) (o : ProcessPaymentOptions) (key : ℕ) (paid : ℕ × ℕ) (p : Participant)
    (split : Split) (s : Store)
    → is_ok (carry_out env o key paid p split s).0 ≡ false
    → (carry_out env o key paid p split s).1.tables ≡ s.tables
unfolding carry_out
carry_out_fails env o key paid p split s fails = ground arith

pub carry_out_goes :
    (env : Env) (o : ProcessPaymentOptions) (key : ℕ) (paid : ℕ × ℕ) (p : Participant)
    (split : Split) (s : Store)
    → is_ok (carry_out env o key paid p split s).0 ≡ true
    → carry_out env o key paid p split s ≡ settle env o key paid p split s
unfolding carry_out refuse_if
carry_out_goes env o key paid p split s goes = ground arith

-- What is left of the tables: what was there; what a submission that is carried out makes of it; what the
-- conversion of one that fails saved; or a payment that is marked as notified.
pub data Left (env : Env) (s : Store) (goes : Bool) (t' : Tables) : Type 0 where
  unchanged : t' ≡ s.tables → Left env s goes t'
  paid_for : (o : ProcessPaymentOptions) → goes ≡ true → Settled env o s t' → Left env s goes t'
  left_over :
      (o : ProcessPaymentOptions) (v : Verification)
      → goes ≡ false
      → find_earlier (key_of env o) o.tx_hash s.tables.payments ≡ none
      → t' ≡ (after_conversion env o v s).tables
      → Left env s goes t'
  marked :
      (i : ℕ)
      → goes ≡ true
      → t' ≡ record s.tables { payments = update_row i mark_notified s.tables.payments }
      → Left env s goes t'

-- A new submission that goes through is carried out.
carried-Settled :
    (env : Env) (o : ProcessPaymentOptions) (s : Store) (c : Admitted env o s)
    → find_earlier (key_of env o) o.tx_hash s.tables.payments ≡ none
    → process env o (key_of env o) s
      ≡ carry_out env o
          (key_of env o)
          (paid_as env o c.answer s)
          c.participant
          c.split
          (after_conversion env o c.answer s)
    → is_ok (process env o (key_of env o) s).0 ≡ true
    → Settled env o s (process env o (key_of env o) s).1.tables
carried-Settled env o s c new by goes =
    let key = key_of env o in
    let paid = paid_as env o c.answer s in
    let s1 = after_conversion env o c.answer s in
    let carried : is_ok (carry_out env o key paid c.participant c.split s1).0 ≡ true =
      ap (λ x. is_ok x.0) (sym by) ∙ goes in
    let same = by ∙ carry_out_goes env o key paid c.participant c.split s1 carried in
    let (participants, splits) = conversion_keeps env o c.answer s in
    let has_split : find_by_id o.split_id s1.tables.splits ≡ some c.split =
      ap (find_by_id o.split_id) splits ∙ c.has_split in
    let (a, b, d) =
      settle_done env o s1 key paid c.participant c.split has_split
        (ap (λ x. is_ok x.0) (sym same) ∙ goes) in
    record {
      carried = c;
      is_new = new;
      paid = ap (λ x. x.1.tables.payments) same ∙ a;
      credited = ap (λ x. x.1.tables.participants) same ∙ b;
      totalled = ap (λ x. x.1.tables.splits) same ∙ d ∙ ap (update_row o.split_id _) splits;
    }

pub new_submission :
    (env : Env) (o : ProcessPaymentOptions) (s : Store)
    → find_earlier (key_of env o) o.tx_hash s.tables.payments ≡ none
    → is_ok (process env o (key_of env o) s).0 ≡ true
    → (is_ok (process_payment_submission env o s).0 ≡ true)
      × Settled env o s (process_payment_submission env o s).1.tables
new_submission env o s new goes =
    let (done, same) = submission_goes env o s goes in
    elim (course env o s) [
      | Course.duplicate p e ↦ ground arith
      | Course.refused fails kept ↦ ground arith
      | Course.carried c again by ↦
          (done, subst (Settled env o s) (sym same) (carried-Settled env o s c new by goes))
    ]

pub submission_left :
    (env : Env) (o : ProcessPaymentOptions) (s : Store)
    → let (r, s') = process_payment_submission env o s in Left env s (is_ok r) s'.tables
submission_left env o s = elim (Bool-cases (is_ok (process env o (key_of env o) s).0)) [
  | inl goes ↦ elim (Option-cases (find_earlier (key_of env o) o.tx_hash s.tables.payments)) [
    | inr (p, e) ↦ Left.unchanged (ap (λ x. x.1.tables) (process_duplicate env o s p e))
    | inl new ↦
        let (done, settled) = new_submission env o s new goes in Left.paid_for o done settled
  ]
  | inr fails ↦
      let (failed, kept) = submission_fails env o s fails in
      elim (course env o s) [
        | Course.duplicate p e ↦
            Left.unchanged (ap (λ x. x.1.tables) (process_duplicate env o s p e))
        | Course.refused again nothing ↦ Left.unchanged (ap (λ x. x.tables) (kept ∙ nothing))
        | Course.carried c new by ↦
            let key = key_of env o in
            let paid = paid_as env o c.answer s in
            let s1 = after_conversion env o c.answer s in
            let undone =
              carry_out_fails env o key paid c.participant c.split s1
                (ap (λ x. is_ok x.0) (sym by) ∙ fails) in
            Left.left_over o c.answer failed new
              (ap (λ x. x.tables) kept ∙ ap (λ x. x.1.tables) by ∙ undone)
      ]
]

pub no_earlier :
    (key tx : ℕ) (ps : List Payment)
    → find_earlier key tx ps ≡ none
    → (find_where (has_key key) ps ≡ none) × (find_where (is_of_tx tx) ps ≡ none)
unfolding find_earlier
no_earlier key tx ps e = elim (Option-cases (find_where (has_key key) ps)) [
  | inl f ↦ (f, rw (find_earlier, f) at e)
  | inr (p, f) ↦ ground arith
]

retry_payment_cases :
    (env : Env) (i tx : ℕ) (s : Store)
    → ((retry_payment env i tx s).1 ≡ s)
      ⊎ ((o : ProcessPaymentOptions) × (retry_payment env i tx s
            ≡ process_payment_submission env o s))
unfolding retry_payment
retry_payment_cases env i tx s = elim (Option-cases (find_by_id i s.tables.payments)) [
  | inl e ↦ inl (rw e refl)
  | inr (p, e) ↦ elim (Bool-cases (is_failed p.status)) [
    | inr other ↦ inl (rw (e, other) refl)
    | inl failed ↦ inr (retry_options env p tx, rw (e, failed) refl)
  ]
]

handle_webhook_replay_cases :
    (env : Env) (tx : ℕ) (s : Store)
    → ((handle_webhook_replay env tx s).1.tables ≡ s.tables)
      ⊎ ((is_ok (handle_webhook_replay env tx s).0 ≡ true)
          × ((i : ℕ) × ((handle_webhook_replay env tx s).1.tables
                ≡ record s.tables { payments = update_row i mark_notified s.tables.payments })))
unfolding handle_webhook_replay resend_notifications
handle_webhook_replay_cases env tx s =
    elim (Option-cases (find_where (λ (p : Payment). p.tx_hash == tx) s.tables.payments)) [
      | inl e ↦ inl (rw e refl)
      | inr (p, e) ↦ elim (Bool-cases p.notifications_sent) [
        | inl sent ↦ inl (rw (e, sent) refl)
        | inr unsent ↦ elim (Bool-cases (env.write 0)) [
          | inr fails ↦ inl (rw (e, unsent, fails) refl)
          | inl goes ↦ inr (rw (e, unsent, goes) refl, (p.id, rw (e, unsent, goes) refl))
        ]
      ]
    ]

-- What any call leaves in the tables.
pub perform_left :
    (env : Env) (c : Call) (s : Store) → Left env s (perform env c s).0 (perform env c s).1.tables
unfolding perform
perform_left env (Call.submit o) s = submission_left env o s
perform_left env (Call.retry i tx) s = elim (retry_payment_cases env i tx s) [
  | inl same ↦ Left.unchanged (ap (λ x. x.tables) same)
  | inr (o, e) ↦ subst (λ x. Left env s (is_ok x.0) x.1.tables) (sym e) (submission_left env o s)
]
perform_left env (Call.replay tx) s = elim (handle_webhook_replay_cases env tx s) [
  | inl same ↦ Left.unchanged same
  | inr (done, (i, e)) ↦ Left.marked i done e
]
