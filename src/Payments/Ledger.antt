-- ===== src/Payments/Ledger.antt =====
-- What a payment does to the tables, and the amounts that must agree.
use stellar_split.Prelude.{
  ℕ, ◌+◌, ◌≡◌, refl, true, false, some, List, [], ◌∷◌, arith, ◌==◌, sum, select, find_by_id,
  save_row, update_row, is_ok,
}
use stellar_split.Entities.{Split, split_keyed}
use stellar_split.Invitations.Entity.{Participant, participant_keyed, ParticipantStatus}
use stellar_split.Payments.Entity.{payment_keyed, ProcessPaymentOptions}
use stellar_split.Payments.Store.{Tables, Store, Env}
use stellar_split.Payments.Settling.{
  new_payment, set_paid, set_total, total_paid, paid_by, participant_status, announce,
  update_split_amount_paid, record_reputation,
}
use stellar_split.Payments.Processing.{settle}

-- The total of a split after one participant's amount has changed.
pub total-update :
    (split i paid : ℕ) (status : ParticipantStatus) (ps : List Participant) (p : Participant)
    → find_by_id i ps ≡ some p
    → p.split_id ≡ split
    → sum (paid_by (select (λ q. q.split_id == split) (update_row i (set_paid paid status) ps)))
        + p.amount_paid
      ≡ sum (paid_by (select (λ q. q.split_id == split) ps)) + paid
unfolding find_by_id update_row set_paid
total-update split i paid status [] p e same = cc
total-update split i paid status (x ∷ xs) p e same =
    ground (arith, total-update split i paid status xs p)

-- The total of any other split.
pub total-other :
    (split i paid : ℕ) (status : ParticipantStatus) (ps : List Participant) (p : Participant)
    → find_by_id i ps ≡ some p
    → (p.split_id == split) ≡ false
    → sum (paid_by (select (λ q. q.split_id == split) (update_row i (set_paid paid status) ps)))
      ≡ sum (paid_by (select (λ q. q.split_id == split) ps))
unfolding find_by_id update_row set_paid
total-other split i paid status [] p e other = refl
total-other split i paid status (x ∷ xs) p e other =
    ground (arith, total-other split i paid status xs p)

module _ (env : Env) (o : ProcessPaymentOptions) (s : Store) where
  -- The tables after the payment of a participant.
  abbrev pub paid_tables : ℕ → ℕ × ℕ → Participant → Tables
  paid_tables key paid p =
      let amount_paid = env.decimals.plus p.amount_paid paid.0 in
      let status = participant_status env p.amount_paid paid.0 p.amount_owed in
      record s.tables {
        payments = save_row (new_payment env o key paid p) s.tables.payments;
        participants =
            update_row o.participant_id (set_paid amount_paid status) s.tables.participants;
      }

  update_split_amount_paid_done :
      (p : Split) (s : Store)
      → find_by_id o.split_id s.tables.splits ≡ some p
      → is_ok (update_split_amount_paid env o.split_id s).0 ≡ true
      → (update_split_amount_paid env o.split_id s).1.tables ≡ record s.tables {
        splits = update_row o.split_id (set_total (total_paid o.split_id s.tables)) s.tables.splits;
      }
  unfolding update_split_amount_paid announce
  update_split_amount_paid_done p s e goes = ground arith

  record_reputation_done :
      (p : Participant) (status : ParticipantStatus) (split : Split) (s : Store)
      → ((record_reputation env p status split s).1.tables.payments ≡ s.tables.payments)
        × ((record_reputation env p status split s).1.tables.participants ≡ s.tables.participants)
        × ((record_reputation env p status split s).1.tables.splits ≡ s.tables.splits)
  unfolding record_reputation
  record_reputation_done p status split s = ground arith

  pub settle_done :
      (key : ℕ) (paid : ℕ × ℕ) (p : Participant) (split : Split)
      → find_by_id o.split_id s.tables.splits ≡ some split
      → is_ok (settle env o key paid p split s).0 ≡ true
      → let t = paid_tables key paid p in
        let t' = (settle env o key paid p split s).1.tables in
        (t'.payments ≡ t.payments)
        × (t'.participants ≡ t.participants)
        × (t'.splits ≡ update_row o.split_id (set_total (total_paid o.split_id t)) t.splits)
  unfolding settle
  settle_done key paid p split e goes =
      let status = participant_status env p.amount_paid paid.0 p.amount_owed in
      let s1 : Store = record s { tables = paid_tables key paid p } in
      let s2 : Store = (update_split_amount_paid env o.split_id s1).1 in
      ground
        (arith, update_split_amount_paid_done split s1 e, record_reputation_done p status split s2)
