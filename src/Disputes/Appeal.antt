-- ===== src/Disputes/Appeal.antt =====
-- `appealDispute` of backend/src/disputes/disputes.service.ts.
use stellar_split.Prelude.{
  ℕ, ◌-◌, ◌/◌, true, not, Option, none, some, ltb, ◌==◌, if◌then◌else◌, take, bad_request,
  forbidden, Action, return, transaction, throw_if, ◌>>=◌, ◌>>◌,
}
use stellar_split.Entities.{Text, split_keyed}
use stellar_split.Disputes.StateMachine.{appealed, validate_transition}
use stellar_split.Disputes.Entity.{AuditAction, Dispute, dispute_keyed, evidence_keyed}
use stellar_split.Disputes.Store.{
  Event, Store, Env, load_dispute, save_dispute, set_frozen, commit, emit, add_audit_trail,
}

abbrev pub ms_per_day : ℕ
ms_per_day = 86_400_000

abbrev pub appeal_window_days : ℕ
appeal_window_days = 30

-- `originalDispute.resolvedAt?.getTime() || Date.now()`: a missing time and time 0 count as now.
abbrev pub resolution_time : Env → Option ℕ → ℕ
resolution_time env none = env.now
resolution_time env (some t) = if t == 0 then env.now else t

-- Whole days. Before the resolution the source's count is negative and this one is 0; the one test on
-- it tells neither from the other.
unfoldable pub days_since_resolution : Env → Dispute → ℕ
days_since_resolution env d = (env.now - resolution_time env d.resolved_at) / ms_per_day

unfoldable pub mark_appealed : Env → Text → ℕ → Dispute → Dispute
mark_appealed env reason by d =
    add_audit_trail env (AuditAction.dispute_appealed (take 100 reason)) by (record d {
      status = appealed;
      appeal_reason = some reason;
      appealed_at = some env.now;
      split_frozen = true;
    })

-- Up to the commit.
unfoldable pub appeal_in_transaction : Env → ℕ → Text → ℕ → Action Store Dispute
unfolding load_dispute save_dispute set_frozen commit validate_transition days_since_resolution
appeal_in_transaction env i reason by = do
  d ← load_dispute i
  validate_transition d.status appealed
  throw_if (not (d.raised_by == by)) forbidden
  throw_if (ltb appeal_window_days (days_since_resolution env d)) bad_request
  d' ← save_dispute env 0 (mark_appealed env reason by d)
  set_frozen env 1 d.split_id true
  commit env 2
  return d'

unfoldable pub appeal_dispute : Env → ℕ → Text → ℕ → Action Store Dispute
unfolding appeal_in_transaction emit
appeal_dispute env i reason by = do
  d ← transaction (appeal_in_transaction env i reason by)
  emit (Event.dispute_appealed d by reason d.id)
  emit (Event.split_frozen d.split_id d.id)
  return d
