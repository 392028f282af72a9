-- ===== src/Disputes/Transitions.antt =====
-- The state machine against the diagram of its transitions.
use stellar_split.Prelude.{◌≡◌, refl, ◌↔◌, ◌⊎◌, inl, inr, true}
use stellar_split.Disputes.StateMachine.{
  DisputeStatus, open_, evidence_collection, under_review, resolved, rejected, appealed,
  can_transition,
}

-- The diagram.
pub data Edge : DisputeStatus → DisputeStatus → Type 0 where
  collect : Edge open_ evidence_collection
  submit : Edge evidence_collection under_review
  resolve : Edge under_review resolved
  reject : Edge under_review rejected
  appeal_resolved : Edge resolved appealed
  appeal_rejected : Edge rejected appealed
  review_again : Edge appealed under_review

-- A walk through the diagram; the state machine also lets a status stay.
pub data Walk : DisputeStatus → DisputeStatus → Type 0 where
  stay : {a : DisputeStatus} → Walk a a
  then : {a b c : DisputeStatus} → Walk a b → Edge b c → Walk a c

can_transition→Edge : (a b : DisputeStatus) → can_transition a b ≡ true → (a ≡ b) ⊎ Edge a b
unfolding can_transition
can_transition→Edge open_ open_ h = inl refl
can_transition→Edge open_ evidence_collection h = inr Edge.collect
can_transition→Edge evidence_collection evidence_collection h = inl refl
can_transition→Edge evidence_collection under_review h = inr Edge.submit
can_transition→Edge under_review under_review h = inl refl
can_transition→Edge under_review resolved h = inr Edge.resolve
can_transition→Edge under_review rejected h = inr Edge.reject
can_transition→Edge resolved resolved h = inl refl
can_transition→Edge resolved appealed h = inr Edge.appeal_resolved
can_transition→Edge rejected rejected h = inl refl
can_transition→Edge rejected appealed h = inr Edge.appeal_rejected
can_transition→Edge appealed appealed h = inl refl
can_transition→Edge appealed under_review h = inr Edge.review_again
can_transition→Edge _ _ h = cc

can_transition_self : (a : DisputeStatus) → can_transition a a ≡ true
unfolding can_transition
can_transition_self open_ = refl
can_transition_self _ = refl

Edge→can_transition : (a b : DisputeStatus) → Edge a b → can_transition a b ≡ true
unfolding can_transition
Edge→can_transition a b Edge.collect = refl
Edge→can_transition a b Edge.submit = refl
Edge→can_transition a b Edge.resolve = refl
Edge→can_transition a b Edge.reject = refl
Edge→can_transition a b Edge.appeal_resolved = refl
Edge→can_transition a b Edge.appeal_rejected = refl
Edge→can_transition a b Edge.review_again = refl

-- The state machine accepts a transition exactly when the status stays or the diagram has the edge.
pub can_transition_iff : (a b : DisputeStatus) → (can_transition a b ≡ true) ↔ ((a ≡ b) ⊎ Edge a b)
can_transition_iff a b = (
  can_transition→Edge a b,
  elim [ inl e ↦ rw e (can_transition_self b) | inr e ↦ Edge→can_transition a b e ],
)
