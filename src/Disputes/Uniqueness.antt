-- ===== src/Disputes/Uniqueness.antt =====
-- How many disputes are active on one split.
use stellar_split.Prelude.{
  ℕ, suc, sym, ap, ◌∙◌, ==→eq, Bool-cases, ◌≡◌, refl, inl, inr, Bool, true, false, Option, none,
  some, arith, ◌==◌, if◌then◌else◌, count, find_where, find_by_id, save_row, is_ok,
}
use stellar_split.Entities.{Split, split_keyed}
use stellar_split.Disputes.StateMachine.{appealed}
use stellar_split.Disputes.Entity.{
  AuditAction, Dispute, dispute_keyed, evidence_keyed, FileDisputeDto,
}
use stellar_split.Disputes.Store.{Store, Env, add_audit_trail}
use stellar_split.Prelude.{
  Option-cases, find-save, find-update, count-find_where-none, count-save_fresh, count-save,
}
use stellar_split.Disputes.StateMachine.{can_transition}
use stellar_split.Disputes.Filing.{new_dispute, file_dispute, is_active_on}
use stellar_split.Disputes.Review.{submit_for_review, mark_submitted}

-- How many disputes of the split are in a status that `fileDispute` calls active.
abbrev pub active_count : ℕ → Store → ℕ
active_count split s = count (is_active_on split) s.disputes

-- The flag of a split; none if there is no such split.
abbrev pub frozen_at : ℕ → Store → Option Bool
frozen_at split s = elim (find_by_id split s.splits) [ none ↦ none | some p ↦ some p.is_frozen ]

-- A dispute that is filed is the one active dispute of its split, the split is then frozen, and the
-- flag of every other split is as it was. The database's new identifier must be unused.
pub file_dispute_unique :
    (env : Env) (dto : FileDisputeDto) (by : ℕ) (s : Store) (j : ℕ)
    → find_by_id env.new_id s.disputes ≡ none
    → is_ok (file_dispute env dto by s).0 ≡ true
    → (active_count dto.split_id (file_dispute env dto by s).1 ≡ 1)
      × (frozen_at j (file_dispute env dto by s).1
          ≡ (if dto.split_id == j then some true else frozen_at j s))
unfolding file_dispute new_dispute add_audit_trail
file_dispute_unique env dto by s j fresh h =
    let d = new_dispute env dto by in
    let freeze : Split → Split = λ p. record p { is_frozen = true } in
    elim (Option-cases env.tx_hash) [
      | inl off ↦ (
        ground (
          arith,
          count-find_where-none (is_active_on dto.split_id) s.disputes,
          count-save_fresh (is_active_on dto.split_id) d s.disputes,
        ),
        ground (arith, find-update dto.split_id j freeze s.splits (λ p. refl)),
      )
      | inr (t, on) ↦
          let d' = add_audit_trail env (AuditAction.onchain_freeze t) by d in
          (
            ground (
              arith,
              count-find_where-none (is_active_on dto.split_id) s.disputes,
              count-save_fresh (is_active_on dto.split_id) d s.disputes,
              find-save d.id d s.disputes,
              count-save (is_active_on dto.split_id) d' (save_row d s.disputes) {old = d},
            ),
            ground (arith, find-update dto.split_id j freeze s.splits (λ p. refl)),
          )
    ]

other_id :
    (i j : ℕ) (s : Store) (d : Dispute)
    → find_by_id j s.disputes ≡ some d
    → find_by_id i s.disputes ≡ none
    → (i == j) ≡ false
other_id i j s d found fresh = elim (Bool-cases (i == j)) [
  | inr other ↦ other
  | inl same ↦
      let gone : find_by_id j s.disputes ≡ none =
        ap (λ n. find_by_id n s.disputes) (sym (==→eq i j same)) ∙ fresh in
      ground arith
]

-- The disputes after the filing, with or without a freeze on the chain.
filed_goes :
    (env : Env) (dto : FileDisputeDto) (by : ℕ) (s : Store) (p : Split)
    → find_by_id dto.split_id s.splits ≡ some p
    → find_where (is_active_on dto.split_id) s.disputes ≡ none
    → (env.write 0 ≡ true) × (env.write 1 ≡ true) × (env.write 2 ≡ true)
    → is_ok (file_dispute env dto by s).0 ≡ true
unfolding file_dispute
filed_goes env dto by s p split none_active writes = elim (Option-cases env.tx_hash) [
  | inl off ↦ ground arith
  | inr (t, on) ↦ ground arith
]

filed_keeps :
    (env : Env) (dto : FileDisputeDto) (by i : ℕ) (s : Store) (d : Dispute)
    → find_by_id i s.disputes ≡ some d
    → find_by_id env.new_id s.disputes ≡ none
    → find_by_id i (file_dispute env dto by s).1.disputes ≡ some d
unfolding file_dispute new_dispute add_audit_trail
filed_keeps env dto by i s d found fresh =
    let new = new_dispute env dto by in
    let other : (env.new_id == i) ≡ false = other_id env.new_id i s d found fresh in
    elim (Option-cases env.tx_hash) [
      | inl off ↦ ground (arith, find-save i new s.disputes)
      | inr (t, on) ↦
          let new' = add_audit_trail env (AuditAction.onchain_freeze t) by new in
          ground (arith, find-save i new s.disputes, find-save i new' (save_row new s.disputes))
    ]

submitted_counts :
    (env : Env) (by split : ℕ) (s : Store) (d : Dispute)
    → find_by_id d.id s.disputes ≡ some d
    → d.split_id ≡ split
    → d.status ≡ appealed
    → env.write 0 ≡ true
    → (is_ok (submit_for_review env d.id by s).0 ≡ true)
      × (active_count split (submit_for_review env d.id by s).1 ≡ suc (active_count split s))
unfolding submit_for_review mark_submitted add_audit_trail can_transition
submitted_counts env by split s d found same status write =
    ground (arith, count-save (is_active_on split) (mark_submitted env by d) s.disputes {old = d})

-- An appeal is no active status for the search of `fileDispute`: while a dispute of a split is appealed,
-- another party can file a second one, and once the appeal is submitted for review two disputes are
-- active on the one split. This holds for every store where the appealed dispute is found, no dispute
-- of the split is active, the new identifier is unused and the writes go through, whatever the chain answers.
pub second_dispute_during_appeal :
    (env env' : Env) (dto : FileDisputeDto) (by by' : ℕ) (s : Store) (d : Dispute) (p : Split)
    → find_by_id d.id s.disputes ≡ some d
    → d.split_id ≡ dto.split_id
    → d.status ≡ appealed
    → find_by_id dto.split_id s.splits ≡ some p
    → find_where (is_active_on dto.split_id) s.disputes ≡ none
    → find_by_id env.new_id s.disputes ≡ none
    → (env.write 0 ≡ true) × (env.write 1 ≡ true) × (env.write 2 ≡ true) × (env'.write 0 ≡ true)
    → let filed = file_dispute env dto by s in
      let submitted = submit_for_review env' d.id by' filed.1 in
      (is_ok filed.0 ≡ true)
      × (is_ok submitted.0 ≡ true)
      × (active_count dto.split_id submitted.1 ≡ 2)
second_dispute_during_appeal env env' dto by by' s d p found same status split none_active fresh
      (w0, w1, w2, w0') =
    let goes = filed_goes env dto by s p split none_active (w0, w1, w2) in
    let one = (file_dispute_unique env dto by s dto.split_id fresh goes).0 in
    let there = filed_keeps env dto by d.id s d found fresh in
    let (through, more) =
      submitted_counts env' by' dto.split_id (file_dispute env dto by s).1 d there same status
        w0' in
    (goes, through, more ∙ ap suc one)
