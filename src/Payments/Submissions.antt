-- ===== src/Payments/Submissions.antt =====
-- What a submission can come to.
use stellar_split.Prelude.{
  sym, ap, Action, ◌>>=◌, ℕ, Bool-cases, save_row, ◌≡◌, refl, ◌∙◌, ◌⊎◌, inl, inr, true, false,
  Option, none, some, arith, find_where, find_by_id, Error, Result, ok, err, is_ok,
}
use stellar_split.Prelude.{ok_value, Option-cases}
use mathlib.Core.Path.{subst}
use stellar_split.Entities.{Split, split_keyed}
use stellar_split.Invitations.Entity.{Participant, participant_keyed}
use stellar_split.Payments.Entity.{Payment, payment_keyed, ProcessPaymentOptions, Verification}
use stellar_split.Payments.Store.{Store, Env}
use stellar_split.Payments.Converting.{
  needs_conversion, is_participant, converted_payment, process_multi_currency_payment, received,
  is_of_tx,
}
use stellar_split.Payments.Processing.{
  find_earlier, key_of, verified, admit, carry_out, convert_and_pay, submit, process, notify,
  process_payment_submission,
}

-- What the conversion leaves of the payments.
abbrev pub Converted : Env → ProcessPaymentOptions → Store → Store → Type 0
Converted env o s s' =
    (s' ≡ s)
    ⊎ ((paid : ℕ × ℕ) × (s' ≡ record s {
      tables = record s.tables {
        payments = save_row (converted_payment env o paid) s.tables.payments;
      };
    }))

-- A submission that is carried out: Horizon knows the transaction, the participant and the split are there,
-- the split is not frozen, and no earlier payment has the key or the transaction.
pub record Admitted (env : Env) (o : ProcessPaymentOptions) (s : Store) : Type 0 where
  pub answer : Verification
  pub participant : Participant
  pub split : Split
  pub verified_so : env.verify o.tx_hash ≡ ok (some answer)
  pub is_there : find_where (is_participant o) s.tables.participants ≡ some participant
  pub has_split : find_by_id o.split_id s.tables.splits ≡ some split
  pub not_frozen : split.is_frozen ≡ false
  pub by : admit env o s ≡ (ok (answer, participant, split), s)

abbrev pub after_conversion : Env → ProcessPaymentOptions → Verification → Store → Store
after_conversion env o v s = (received env o v s).1

abbrev pub paid_as : Env → ProcessPaymentOptions → Verification → Store → ℕ × ℕ
paid_as env o v s = (received env o v s).0

multi_currency_store :
    (env : Env) (o : ProcessPaymentOptions) (s : Store)
    → Converted env o s (process_multi_currency_payment env o s).1
unfolding process_multi_currency_payment
multi_currency_store env o s = elim (Option-cases (find_by_id o.split_id s.tables.splits)) [
  | inl a ↦ inl (ground arith)
  | inr (split, a) ↦ elim (Option-cases (find_where (is_participant o) s.tables.participants)) [
    | inl b ↦ inl (ground arith)
    | inr (p, b) ↦ elim (Option-cases env.rate) [
      | inl c ↦ inl (ground arith)
      | inr (paid, c) ↦ elim (Option-cases (find_where (is_of_tx o.tx_hash) s.tables.payments)) [
        | inr (q, d) ↦ inl (ground arith)
        | inl d ↦ elim (Bool-cases (env.write 5)) [
          | inl w ↦ inr (paid, ground arith)
          | inr w ↦ inl (ground arith)
        ]
      ]
    ]
  ]
]

result_store :
    (env : Env) (o : ProcessPaymentOptions) (v : Verification) (s : Store)
    → needs_conversion v ≡ true
    → after_conversion env o v s ≡ (process_multi_currency_payment env o s).1
unfolding received
result_store env o v s converts = ground (arith, converts)

direct_store :
    (env : Env) (o : ProcessPaymentOptions) (v : Verification) (s : Store)
    → needs_conversion v ≡ false
    → after_conversion env o v s ≡ s
unfolding received
direct_store env o v s direct = ground (arith, direct)

pub received_store :
    (env : Env) (o : ProcessPaymentOptions) (v : Verification) (s : Store)
    → Converted env o s (after_conversion env o v s)
unfolding received
received_store env o v s = elim (Bool-cases (needs_conversion v)) [
  | inr direct ↦ inl (direct_store env o v s direct)
  | inl converts ↦
      let same : after_conversion env o v s ≡ (process_multi_currency_payment env o s).1 =
        result_store env o v s converts in
      subst (Converted env o s) (sym same) (multi_currency_store env o s)
]

module _ (env : Env) (o : ProcessPaymentOptions) (s : Store) where
  admit_found :
      (v : Verification) (p : Participant) (split : Split)
      → env.verify o.tx_hash ≡ ok (some v)
      → find_where (is_participant o) s.tables.participants ≡ some p
      → find_by_id o.split_id s.tables.splits ≡ some split
      → is_ok (admit env o s).0 ≡ true
      → (split.is_frozen ≡ false) × (admit env o s ≡ (ok (v, p, split), s))
  unfolding admit verified
  admit_found v p split a b c goes = ground arith

  admit_invalid :
      (env.verify o.tx_hash ≡ ok none) ⊎ ((e : Error) × (env.verify o.tx_hash ≡ err e))
      → is_ok (admit env o s).0 ≡ false
  unfolding admit verified
  admit_invalid h = ground arith

  admit_missing :
      (find_where (is_participant o) s.tables.participants ≡ none)
        ⊎ (find_by_id o.split_id s.tables.splits ≡ none)
      → is_ok (admit env o s).0 ≡ false
  unfolding admit verified
  admit_missing h = ground arith

  admit_keeps : (admit env o s).1 ≡ s
  unfolding admit verified
  admit_keeps = ground arith

answer_cases :
    (r : Result (Option Verification))
    → ((v : Verification) × (r ≡ ok (some v))) ⊎ ((r ≡ ok none) ⊎ ((e : Error) × (r ≡ err e)))
answer_cases (ok none) = inr (inl refl)
answer_cases (ok (some v)) = inl (v, refl)
answer_cases (err e) = inr (inr (e, refl))

admit_cases :
    (env : Env) (o : ProcessPaymentOptions) (s : Store)
    → is_ok (admit env o s).0 ≡ true
    → Admitted env o s
admit_cases env o s goes = elim (answer_cases (env.verify o.tx_hash)) [
  | inr bad ↦ ground (arith, admit_invalid env o s bad)
  | inl (v, a) ↦ elim (Option-cases (find_where (is_participant o) s.tables.participants)) [
    | inl missing ↦ ground (arith, admit_missing env o s (inl missing))
    | inr (p, b) ↦ elim (Option-cases (find_by_id o.split_id s.tables.splits)) [
      | inl missing ↦ ground (arith, admit_missing env o s (inr missing))
      | inr (split, c) ↦
          let (thawed, same) = admit_found env o s v p split a b c goes in
          record {
            answer = v;
            participant = p;
            split = split;
            verified_so = a;
            is_there = b;
            has_split = c;
            not_frozen = thawed;
            by = same;
          }
    ]
  ]
]

-- What a submission comes to: a duplicate, a refusal that leaves all as it was, or a payment that is carried
-- out on what the conversion leaves.
pub data Course (env : Env) (o : ProcessPaymentOptions) (s : Store) : Type 0 where
  duplicate :
      (p : Payment)
      → find_earlier (key_of env o) o.tx_hash s.tables.payments ≡ some p
      → Course env o s
  refused :
      is_ok (process env o (key_of env o) s).0 ≡ false
      → (process env o (key_of env o) s).1 ≡ s
      → Course env o s
  carried :
      (a : Admitted env o s)
      → find_earlier (key_of env o) o.tx_hash s.tables.payments ≡ none
      → process env o (key_of env o) s
        ≡ carry_out env o
            (key_of env o)
            (paid_as env o a.answer s)
            a.participant
            a.split
            (after_conversion env o a.answer s)
      → Course env o s

process_new :
    (env : Env) (o : ProcessPaymentOptions) (s : Store)
    → find_earlier (key_of env o) o.tx_hash s.tables.payments ≡ none
    → process env o (key_of env o) s ≡ submit env o (key_of env o) s
unfolding process
process_new env o s e = rw (process, e) refl

submit_refused :
    (env : Env) (o : ProcessPaymentOptions) (key : ℕ) (s : Store)
    → is_ok (admit env o s).0 ≡ false
    → (is_ok (submit env o key s).0 ≡ false) × ((submit env o key s).1 ≡ s)
unfolding submit
submit_refused env o key s fails = ground (arith, admit_keeps env o s)

bind_ok :
    {S A B : Type 0} (m : Action S A) (f : A → Action S B) (s s' : S) (a : A)
    → m s ≡ (ok a, s')
    → (m >>= f) s ≡ f a s'
bind_ok {S = S} {A = A} m f s s' a e =
    ap (λ (x : Result A × S). elim x.0 [ ok b ↦ f b x.1 | err k ↦ (err k, x.1) ]) e

submit-Admitted :
    (env : Env) (o : ProcessPaymentOptions) (key : ℕ) (s : Store) (a : Admitted env o s)
    → submit env o key s
      ≡ carry_out env o key
          (paid_as env o a.answer s)
          a.participant
          a.split
          (after_conversion env o a.answer s)
unfolding submit convert_and_pay
submit-Admitted env o key s a =
    bind_ok (admit env o) (convert_and_pay env o key) s s (a.answer, a.participant, a.split) a.by

pub course : (env : Env) (o : ProcessPaymentOptions) (s : Store) → Course env o s
course env o s = elim (Option-cases (find_earlier (key_of env o) o.tx_hash s.tables.payments)) [
  | inr (p, e) ↦ Course.duplicate p e
  | inl new ↦ elim (Bool-cases (is_ok (admit env o s).0)) [
    | inr fails ↦
        let (a, b) = submit_refused env o (key_of env o) s fails in
        let same = process_new env o s new in Course.refused (rw same a) (rw same b)
    | inl goes ↦
        let a = admit_cases env o s goes in
        Course.carried a new (process_new env o s new ∙ submit-Admitted env o (key_of env o) s a)
  ]
]

module _ (env : Env) (o : ProcessPaymentOptions) (s : Store) where
  pub process_duplicate :
      (p : Payment)
      → find_earlier (key_of env o) o.tx_hash s.tables.payments ≡ some p
      → process_payment_submission env o s ≡ (
        ok (record {
          payment_id = p.id;
          is_duplicate = true;
          idempotency_key = some (key_of env o);
        }),
        s,
      )
  unfolding process_payment_submission process notify
  process_duplicate p e = ground arith

  pub submission_fails :
      is_ok (process env o (key_of env o) s).0 ≡ false
      → (is_ok (process_payment_submission env o s).0 ≡ false)
        × ((process_payment_submission env o s).1 ≡ (process env o (key_of env o) s).1)
  unfolding process_payment_submission
  submission_fails fails = ground arith

  pub notify_keeps :
      (p : Option Payment) (s : Store)
      → (is_ok (notify p s).0 ≡ true) × ((notify p s).1.tables ≡ s.tables)
  unfolding notify
  notify_keeps none s = (refl, refl)
  notify_keeps (some p) s = (refl, refl)

  pub submission_goes :
      is_ok (process env o (key_of env o) s).0 ≡ true
      → (is_ok (process_payment_submission env o s).0 ≡ true)
        × ((process_payment_submission env o s).1.tables
            ≡ (process env o (key_of env o) s).1.tables)
  unfolding process_payment_submission
  submission_goes goes =
      let (done, e) = ok_value (process env o (key_of env o) s).0 goes in
      ground (arith, notify_keeps done.1 (process env o (key_of env o) s).1)

-- The participants and splits are none of the conversion's business.
pub conversion_keeps :
    (env : Env) (o : ProcessPaymentOptions) (v : Verification) (s : Store)
    → let t = (after_conversion env o v s).tables in
      (t.participants ≡ s.tables.participants) × (t.splits ≡ s.tables.splits)
conversion_keeps env o v s = elim (received_store env o v s) [
  | inl same ↦ rw same (refl, refl)
  | inr (paid, same) ↦ rw same (refl, refl)
]
