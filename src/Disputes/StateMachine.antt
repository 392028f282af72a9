-- ===== src/Disputes/StateMachine.antt =====
-- backend/src/disputes/dispute.state-machine.ts and the status enumeration.
use stellar_split.Prelude.{
  ℕ, Bool, true, false, List, [], ◌∷◌, ◌==◌, if◌then◌else◌, Action, bad_request, throw_if, not,
}

pub data DisputeStatus : Type 0 where
  open_ evidence_collection under_review resolved rejected appealed : DisputeStatus

abbrev pub status_code : DisputeStatus → ℕ
status_code open_ = 0
status_code evidence_collection = 1
status_code under_review = 2
status_code resolved = 3
status_code rejected = 4
status_code appealed = 5

-- `===` on statuses.
abbrev pub same_status : DisputeStatus → DisputeStatus → Bool
same_status a b = status_code a == status_code b

-- `list.includes(status)`.
abbrev pub includes : List DisputeStatus → DisputeStatus → Bool
includes [] s = false
includes (x ∷ xs) s = if same_status x s then true else includes xs s

abbrev pub valid_transitions : DisputeStatus → List DisputeStatus
valid_transitions open_ = evidence_collection ∷ []
valid_transitions evidence_collection = under_review ∷ []
valid_transitions under_review = resolved ∷ rejected ∷ []
valid_transitions resolved = appealed ∷ []
valid_transitions rejected = appealed ∷ []
valid_transitions appealed = under_review ∷ []

unfoldable pub can_transition : DisputeStatus → DisputeStatus → Bool
can_transition current target =
    if same_status current target then true else includes (valid_transitions current) target

unfoldable pub validate_transition :
    {S : Type 0} → DisputeStatus → DisputeStatus → Action S (Unit {0})
validate_transition current target = throw_if (not (can_transition current target)) bad_request

unfoldable pub get_valid_next_states : DisputeStatus → List DisputeStatus
get_valid_next_states current = valid_transitions current

unfoldable pub is_terminal_state : DisputeStatus → Bool
is_terminal_state status = includes (resolved ∷ rejected ∷ []) status

unfoldable pub allows_evidence_submission : DisputeStatus → Bool
allows_evidence_submission status = includes (open_ ∷ evidence_collection ∷ []) status

unfoldable pub can_be_reviewed : DisputeStatus → Bool
can_be_reviewed status = includes (evidence_collection ∷ under_review ∷ []) status
