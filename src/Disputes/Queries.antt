-- ===== src/Disputes/Queries.antt =====
-- The reads of backend/src/disputes/disputes.service.ts. The order in which the database returns rows
-- is a parameter, `order_by`.
use stellar_split.Prelude.{
  ℕ, ◌-◌, ◌*◌, Bool, true, ◌&&◌, Option, none, some, List, ◌==◌, if◌then◌else◌, length, take, drop,
  select, Action, return, ◌>>=◌,
}
use Prim.Native.Nat.{min, max}
use stellar_split.Entities.{split_keyed}
use stellar_split.Disputes.StateMachine.{DisputeStatus, same_status}
use stellar_split.Disputes.Entity.{
  AuditTrailEntry, Dispute, dispute_keyed, DisputeEvidence, evidence_keyed, trail,
}
use stellar_split.Disputes.Store.{Store, load_dispute}

unfoldable pub get_dispute_by_id : ℕ → Action Store Dispute
unfolding load_dispute
get_dispute_by_id i = load_dispute i

unfoldable pub get_dispute_audit_trail : ℕ → Action Store (List AuditTrailEntry)
unfolding load_dispute
get_dispute_audit_trail i = do d ← load_dispute i; return (trail d)

unfoldable pub get_dispute_evidence :
    (List DisputeEvidence → List DisputeEvidence) → ℕ → Store → List DisputeEvidence
get_dispute_evidence order_by i s = order_by (select (λ e. e.dispute_id == i) s.evidence)

unfoldable pub get_disputes_by_split : (List Dispute → List Dispute) → ℕ → Store → List Dispute
get_disputes_by_split order_by i s = order_by (select (λ d. d.split_id == i) s.disputes)

-- `n || d` on a number.
abbrev or_else : Option ℕ → ℕ → ℕ
or_else none d = d
or_else (some n) d = if n == 0 then d else n

-- A filter that is not given is met by every row.
abbrev meets : {A : Type 0} → (A → Bool) → Option A → Bool
meets p none = true
meets p (some a) = p a

pub record QueryDisputesDto : Type 0 where
  pub split_id : Option ℕ
  pub status : Option DisputeStatus
  pub raised_by : Option ℕ
  pub page : Option ℕ
  pub limit : Option ℕ

-- `Math.max(page || 1, 1)`.
abbrev pub page_of : QueryDisputesDto → ℕ
page_of q = max (or_else q.page 1) 1

-- `Math.min(limit || 20, 100)`.
abbrev pub limit_of : QueryDisputesDto → ℕ
limit_of q = min (or_else q.limit 20) 100

abbrev pub matches_query : QueryDisputesDto → Dispute → Bool
matches_query q d =
    meets (λ i. d.split_id == i) q.split_id
    && meets (same_status d.status) q.status
    && meets (λ a. d.raised_by == a) q.raised_by

-- The rows of the page, and how many rows match in all.
unfoldable pub admin_list_disputes :
    (List Dispute → List Dispute) → QueryDisputesDto → Store → List Dispute × ℕ
admin_list_disputes order_by q s =
    let found = select (matches_query q) s.disputes in
    (take (limit_of q) (drop ((page_of q - 1) * limit_of q) (order_by found)), length found)
