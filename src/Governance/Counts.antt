-- ===== src/Governance/Counts.antt =====
-- The voting powers on record for each side, and how a recorded vote changes them.
use stellar_split.Prelude.{
  ℕ, ◌+◌, ◌≡◌, refl, ◌≢◌, inl, inr, ◌&&◌, Option, none, some, List, [], ◌∷◌, ◌++◌, arith, ◌==◌,
  if◌then◌else◌, find_by_id, save_row,
}
use stellar_split.Governance.Entity.{
  Proposal, proposal_keyed, VoteType, for_, against, abstain, type_code, Vote, vote_keyed,
  action_keyed, config_keyed,
}
use stellar_split.Prelude.{Option-cases, Bool-cases, find-key, find-save, save_row-fresh}
use stellar_split.Governance.Voting.{count_vote}

-- The voting power on record for one side of a proposal.
abbrev pub power_for : ℕ → VoteType → List Vote → ℕ
power_for i t [] = 0
power_for i t (v ∷ vs) =
    (if (v.proposal_id == i) && (type_code v.vote_type == type_code t) then v.voting_power else 0)
    + power_for i t vs

-- The counts of the proposal, if there is one, are the powers on record.
abbrev pub Tallied : List Vote → Option Proposal → Type 0
Tallied votes none = Unit
Tallied votes (some p) =
    (p.votes_for ≡ power_for p.id for_ votes)
    × (p.votes_against ≡ power_for p.id against votes)
    × (p.votes_abstain ≡ power_for p.id abstain votes)

pub power_for-append :
    (i : ℕ) (t : VoteType) (vs : List Vote) (v : Vote)
    → power_for i t (vs ++ (v ∷ []))
      ≡ power_for i t vs
        + (if (v.proposal_id == i) && (type_code v.vote_type == type_code t)
            then v.voting_power
            else 0)
power_for-append i t [] v = omega arith
power_for-append i t (x ∷ vs) v = omega (arith, power_for-append i t vs v)

module _ (vs : List Vote) (v : Vote) where
  -- The proposal that the new vote is for, with the vote counted.
  pub counted-Tallied :
      (t : VoteType) (p : Proposal)
      → v.proposal_id ≡ p.id
      → v.vote_type ≡ t
      → Tallied vs (some p)
      → Tallied (vs ++ (v ∷ [])) (some (count_vote t v.voting_power p))
  counted-Tallied for_ p same type h = ground (
    arith,
    power_for-append p.id for_ vs v,
    power_for-append p.id against vs v,
    power_for-append p.id abstain vs v,
  )
  counted-Tallied against p same type h = ground (
    arith,
    power_for-append p.id for_ vs v,
    power_for-append p.id against vs v,
    power_for-append p.id abstain vs v,
  )
  counted-Tallied abstain p same type h = ground (
    arith,
    power_for-append p.id for_ vs v,
    power_for-append p.id against vs v,
    power_for-append p.id abstain vs v,
  )

  -- Another proposal.
  pub uncounted-Tallied :
      (q : Proposal)
      → v.proposal_id ≢ q.id
      → Tallied vs (some q)
      → Tallied (vs ++ (v ∷ [])) (some q)
  uncounted-Tallied q other h = ground (
    arith,
    power_for-append q.id for_ vs v,
    power_for-append q.id against vs v,
    power_for-append q.id abstain vs v,
  )

pub id-count_vote : (t : VoteType) (n : ℕ) (p : Proposal) → (count_vote t n p).id ≡ p.id
id-count_vote for_ n p = refl
id-count_vote _ n p = refl

-- The two writes together: the vote is on record and counted, for every proposal.
pub recorded-Tallied :
    (t : VoteType) (p : Proposal) (v : Vote) (vs : List Vote) (ps : List Proposal) (j : ℕ)
    → v.proposal_id ≡ p.id
    → v.vote_type ≡ t
    → find_by_id v.id vs ≡ none
    → Tallied vs (some p)
    → Tallied vs (find_by_id j ps)
    → Tallied (save_row v vs) (find_by_id j (save_row (count_vote t v.voting_power p) ps))
recorded-Tallied t p v vs ps j same type fresh tp tj =
    rw (save_row-fresh v vs fresh, find-save, id-count_vote t v.voting_power p)
      (elim (Bool-cases (p.id == j)) [
        | inl e ↦ rw e (counted-Tallied vs v t p same type tp)
        | inr e ↦ rw e (elim (Option-cases (find_by_id j ps)) [
          | inl none_there ↦ rw none_there tt
          | inr (q, there) ↦ rw there (
              uncounted-Tallied vs v q (ground (arith, find-key j ps {a = q} there))
                (rw there at tj))
        ])
      ])

-- Writing over a proposal, or inserting one, whose counts are right.
pub saved-Tallied :
    (p : Proposal) (vs : List Vote) (ps : List Proposal) (j : ℕ)
    → Tallied vs (some p)
    → Tallied vs (find_by_id j ps)
    → Tallied vs (find_by_id j (save_row p ps))
saved-Tallied p vs ps j tp tj = rw find-save (ground arith)
