-- ===== src/Together/Frozen.antt =====
-- The row of a split under the calls of both services.
use stellar_split.Prelude.{
  ap, ◌∙◌, ℕ, List, ◌≡◌, refl, inl, inr, true, false, some, arith, find_by_id, is_ok, ==→eq,
  ==-refl, ◌==◌, update_row, Option-cases, Bool-cases, find-update,
}
use stellar_split.Entities.{Text, Split, split_keyed}
use stellar_split.Disputes.Entity.{dispute_keyed, evidence_keyed, FileDisputeDto, AddEvidenceDto}
use stellar_split.Disputes.Store.{Env, Store}
use stellar_split.Disputes.Filing.{file_dispute}
use stellar_split.Disputes.Evidence.{add_evidence, request_more_evidence}
use stellar_split.Disputes.Review.{move_to_evidence_collection, submit_for_review}
use stellar_split.Disputes.Appeal.{appeal_dispute}
use stellar_split.Disputes.Service.{Call, perform}
use stellar_split.Payments.Store as PS
use stellar_split.Payments.Service as PC
use stellar_split.Payments.Settling.{set_total, total_paid}
use stellar_split.Payments.Submissions.{conversion_keeps}
use stellar_split.Payments.Accounts.{Left, perform_left, settled_tables}
use stellar_split.Together.World.{
  World, payments_view, dispute, pay, ends_dispute, Step, disputing, payment, Reach, here, next,
}

module _ (env : Env) (s : Store) (i : ℕ) (p : Split) (there : find_by_id i s.splits ≡ some p)
    (frozen : p.is_frozen ≡ true) where
  -- Freezing a split that is frozen, or another one.
  freeze_frozen :
      (j : ℕ)
      → find_by_id i (update_row j (λ (q : Split). record q { is_frozen = true }) s.splits) ≡ some p
  freeze_frozen j =
      ground
        (arith, find-update j i (λ (q : Split). record q { is_frozen = true }) s.splits (λ q. refl))

  evidence_keeps : (dto : AddEvidenceDto) (by : ℕ) → (add_evidence env dto by s).1.splits ≡ s.splits
  unfolding add_evidence
  evidence_keeps dto by = elim (Option-cases (find_by_id dto.dispute_id s.disputes)) [
    | inl e ↦ ground arith
    | inr (d, e) ↦ ground arith
  ]

  collect_keeps : (d by : ℕ) → (move_to_evidence_collection env d by s).1.splits ≡ s.splits
  unfolding move_to_evidence_collection
  collect_keeps d by = ground arith

  submit_keeps : (d by : ℕ) → (submit_for_review env d by s).1.splits ≡ s.splits
  unfolding submit_for_review
  submit_keeps d by = ground arith

  request_keeps :
      (d : ℕ) (text : Text) (by : ℕ) → (request_more_evidence env d text by s).1.splits ≡ s.splits
  unfolding request_more_evidence
  request_keeps d text by = ground arith

  file_keeps :
      (dto : FileDisputeDto) (by : ℕ) → find_by_id i (file_dispute env dto by s).1.splits ≡ some p
  unfolding file_dispute
  file_keeps dto by = ground (arith, freeze_frozen dto.split_id)

  appeal_keeps :
      (d : ℕ) (reason : Text) (by : ℕ)
      → find_by_id i (appeal_dispute env d reason by s).1.splits ≡ some p
  unfolding appeal_dispute
  appeal_keeps d reason by = elim (Option-cases (find_by_id d s.disputes)) [
    | inl e ↦ ground arith
    | inr (x, e) ↦ ground (arith, freeze_frozen x.split_id)
  ]

  dispute_keeps :
      (c : Call) → ends_dispute c ≡ false → find_by_id i (perform env c s).1.splits ≡ some p
  unfolding perform
  dispute_keeps (Call.file dto by) k = file_keeps dto by
  dispute_keeps (Call.evidence dto by) k = rw (evidence_keeps dto by) there
  dispute_keeps (Call.collect d by) k = rw (collect_keeps d by) there
  dispute_keeps (Call.submit d by) k = rw (submit_keeps d by) there
  dispute_keeps (Call.resolve dto by) k = cc
  dispute_keeps (Call.reject d reason by) k = cc
  dispute_keeps (Call.appeal d reason by) k = appeal_keeps d reason by
  dispute_keeps (Call.request d text by) k = rw (request_keeps d text by) there

-- A row that is written over, when it is not frozen, is another one.
other_split :
    (f : Split → Split) (i j : ℕ) (splits : List Split) (p q : Split)
    → ((x : Split) → (f x).id ≡ x.id)
    → find_by_id i splits ≡ some p
    → p.is_frozen ≡ true
    → find_by_id j splits ≡ some q
    → q.is_frozen ≡ false
    → find_by_id i (update_row j f splits) ≡ some p
other_split f i j splits p q same there frozen found unfrozen = elim (Bool-cases (j == i)) [
  | inl e ↦ absurd (ground (arith, ==→eq j i e))
  | inr e ↦ ground (arith, find-update j i f splits same)
]

-- A payment that is carried out is for a split that is not frozen.
payment_keeps :
    (env : PS.Env) (c : PC.Call) (s : PS.Store) (i : ℕ) (p : Split)
    → find_by_id i s.tables.splits ≡ some p
    → p.is_frozen ≡ true
    → find_by_id i (PC.perform env c s).1.tables.splits ≡ some p
unfolding set_total
payment_keeps env c s i p there frozen = elim (perform_left env c s) [
  | Left.unchanged e ↦ rw e there
  | Left.paid_for o goes done ↦
      let c = done.carried in
      rw done.totalled (
        other_split (set_total (total_paid o.split_id (settled_tables env o s c))) i o.split_id
          s.tables.splits p c.split (λ x. refl) there frozen c.has_split c.not_frozen)
  | Left.left_over o v fails new e ↦
      ap (λ t. find_by_id i t.splits) e ∙ ap (find_by_id i) (conversion_keeps env o v s).1 ∙ there
  | Left.marked j goes e ↦ rw e there
]

step_keeps :
    (v u : World) (i : ℕ) (p : Split)
    → Step v u
    → find_by_id i v.disputes.splits ≡ some p
    → p.is_frozen ≡ true
    → find_by_id i u.disputes.splits ≡ some p
unfolding pay dispute
step_keeps v _ i p (payment env c) there frozen =
    payment_keeps env c (payments_view v) i p there frozen
step_keeps v _ i p (disputing env c k) there frozen =
    dispute_keeps env v.disputes i p there frozen c k

frozen_kept :
    (v u : World) (i : ℕ) (p : Split)
    → Reach v u
    → find_by_id i v.disputes.splits ≡ some p
    → p.is_frozen ≡ true
    → find_by_id i u.disputes.splits ≡ some p
frozen_kept v _ i p here there frozen = there
frozen_kept v u i p (next {v = m} r st) there frozen =
    step_keeps m u i p st (frozen_kept v m i p r there frozen) frozen

-- The row of a split whose dispute has been filed is the one that was there, frozen.
filed_frozen :
    (env : Env) (dto : FileDisputeDto) (by : ℕ) (s : Store) (p : Split)
    → find_by_id dto.split_id s.splits ≡ some p
    → is_ok (file_dispute env dto by s).0 ≡ true
    → find_by_id dto.split_id (file_dispute env dto by s).1.splits
      ≡ some (record p { is_frozen = true })
unfolding file_dispute
filed_frozen env dto by s p there goes = ground (
  arith,
  ==-refl dto.split_id,
  find-update dto.split_id dto.split_id (λ (q : Split). record q { is_frozen = true }) s.splits
      (λ q. refl),
)

-- When a dispute has been filed, then whatever payments come and whatever else is done with disputes, by
-- anybody, in any order and with any failures, the split keeps its amounts and its status, frozen, up to
-- the first call that resolves or rejects a dispute.
pub filed_stays_frozen :
    (env : Env) (dto : FileDisputeDto) (by : ℕ) (w u : World) (p : Split)
    → find_by_id dto.split_id w.disputes.splits ≡ some p
    → is_ok (file_dispute env dto by w.disputes).0 ≡ true
    → Reach (dispute env (Call.file dto by) w) u
    → find_by_id dto.split_id u.disputes.splits ≡ some (record p { is_frozen = true })
unfolding dispute perform
filed_stays_frozen env dto by w u p there goes reach =
    frozen_kept (dispute env (Call.file dto by) w) u dto.split_id (record p { is_frozen = true })
      reach (filed_frozen env dto by w.disputes p there goes) refl
