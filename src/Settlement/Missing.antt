-- ===== src/Settlement/Missing.antt =====
-- A payment whose transaction the chain does not know.
use stellar_split.Prelude.{
  ℕ, ◌+◌, ◌≡◌, refl, true, false, none, some, List, [], ◌∷◌, arith, length, All, find_by_id, ok,
}
use stellar_split.Invitations.Entity.{participant_keyed}
use stellar_split.Payments.Entity.{reconciling, Payment, payment_keyed}
use stellar_split.Settlement.Store.{Store, Env}
use stellar_split.Settlement.Reconciling.{is_final, mark_reconciling, reconcile_payment}
use stellar_split.Settlement.Reviewing.{is_stale}
use stellar_split.Settlement.Verdicts.{missing_row, first}

-- One reconciliation after another, each with its own time and answers.
abbrev pub reconcile_all : List Env → ℕ → Store → Store
reconcile_all [] i s = s
reconcile_all (env ∷ envs) i s = reconcile_all envs i (reconcile_payment env i s).1

-- Horizon does not know the transaction, and the writes go through.
abbrev pub IsMissing : ℕ → Env → Type 0
IsMissing tx env = (env.verify tx ≡ ok none) × ((n : ℕ) → env.write n ≡ true)

-- A payment that is being reconciled and whose transaction the chain does not know is never given up:
-- after any number of reconciliations, beyond every maximum, it is still reconciling, each attempt is
-- counted, and the search for stale payments never finds it.
pub missing_never_ends :
    (envs : List Env) (s : Store) (p : Payment)
    → All (IsMissing p.tx_hash) envs
    → find_by_id p.id s.payments ≡ some p
    → p.settlement_status ≡ reconciling
    → (p' : Payment) × (find_by_id p.id (reconcile_all envs p.id s).payments ≡ some p')
      × (p'.settlement_status ≡ reconciling)
      × (p'.reconciliation_attempts ≡ p.reconciliation_attempts + length envs)
      × ((env : Env) → is_stale env p' ≡ false)
unfolding is_stale mark_reconciling first
missing_never_ends [] s p h found now = (p, found, now, omega arith, λ env. rw now refl)
missing_never_ends (env ∷ envs) s p ((answer, writes), h) found now =
    let open_now : is_final p.settlement_status ≡ false = rw now refl in
    let q = mark_reconciling env.now (p.reconciliation_attempts + 1) p in
    let row = missing_row env s p found open_now writes answer in
    let (p', a, b, c, d) = missing_never_ends envs (reconcile_payment env p.id s).1 q h row refl in
    (p', a, b, omega (arith, c), d)
