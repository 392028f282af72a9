-- ===== src/Batch/Due.antt =====
-- The operations that a run works off.
use stellar_split.Prelude.{
  ℕ, ◌≡◌, ◌≢◌, refl, inl, inr, Bool, true, false, ◌||◌, some, List, [], ◌∷◌, arith, ◌==◌,
  if◌then◌else◌, All, All-map, select, find_by_id, Bool-cases, Distinct, ==→eq,
}
use stellar_split.Batch.Entity.{BatchOperation, operation_keyed}
use stellar_split.Batch.Processing.{insert_operation, by_index, is_due}
use stellar_split.Batch.Retries.{others_of_none}

abbrev pub is_among : ℕ → List BatchOperation → Bool
is_among i [] = false
is_among i (o ∷ os) = (o.id == i) || is_among i os

insert_keeps :
    (P : BatchOperation → Type 0) (o : BatchOperation) (os : List BatchOperation)
    → P o
    → All P os
    → All P (insert_operation o os)
unfolding insert_operation
insert_keeps P o [] h hs = (h, tt)
insert_keeps P o (x ∷ xs) h hs = ground (arith, insert_keeps P o xs h hs.1)

pub by_index_keeps :
    (P : BatchOperation → Type 0) (os : List BatchOperation) → All P os → All P (by_index os)
unfolding by_index
by_index_keeps P [] hs = tt
by_index_keeps P (o ∷ os) (h, hs) = insert_keeps P o (by_index os) h (by_index_keeps P os hs)

among-insert :
    (i : ℕ) (o : BatchOperation) (os : List BatchOperation)
    → is_among i (insert_operation o os) ≡ ((o.id == i) || is_among i os)
unfolding insert_operation
among-insert i o [] = refl
among-insert i o (x ∷ xs) = ground (arith, among-insert i o xs)

pub among-by_index : (i : ℕ) (os : List BatchOperation) → is_among i (by_index os) ≡ is_among i os
unfolding by_index
among-by_index i [] = refl
among-by_index i (o ∷ os) = rw (among-insert i o (by_index os), among-by_index i os) refl

pub due_among :
    (i j : ℕ) (o : BatchOperation) (os : List BatchOperation)
    → find_by_id i os ≡ some o
    → is_due j o ≡ true
    → is_among i (select (is_due j) os) ≡ true
unfolding find_by_id
due_among i j o [] h due = cc
due_among i j o (x ∷ xs) h due = elim (Bool-cases (x.id == i)) [
  | inl e ↦ ground arith
  | inr e ↦ ground (arith, due_among i j o xs)
]

either_keeps :
    (P : BatchOperation → Type 0) (b : Bool) (o : BatchOperation) (os : List BatchOperation)
    → P o
    → All P os
    → All P (if b then o ∷ os else os)
either_keeps P true o os h hs = (h, hs)
either_keeps P false o os h hs = hs

found_head :
    (i : ℕ) (o x : BatchOperation) (xs : List BatchOperation)
    → find_by_id i (x ∷ xs) ≡ some o
    → (x.id == i) ≡ true
    → x.payload ≡ o.payload
unfolding find_by_id
found_head i o x xs h e = ground arith

found_later :
    (i : ℕ) (o x : BatchOperation) (xs : List BatchOperation)
    → find_by_id i (x ∷ xs) ≡ some o
    → (x.id == i) ≡ false
    → find_by_id i xs ≡ some o
unfolding find_by_id
found_later i o x xs h e = ground arith

pub due_payload :
    (i j : ℕ) (o : BatchOperation) (os : List BatchOperation)
    → Distinct os
    → find_by_id i os ≡ some o
    → All (λ (x : BatchOperation). x.id ≡ i → x.payload ≡ o.payload) (select (is_due j) os)
unfolding find_by_id
due_payload i j o [] d h = tt
due_payload i j o (x ∷ xs) d h = elim (Bool-cases (x.id == i)) [
  | inl e ↦
      either_keeps _ (is_due j x) x (select (is_due j) xs) (λ k. found_head i o x xs h e)
        (All-map (λ (y : BatchOperation). y.id ≢ x.id) _ (select (is_due j) xs)
          (λ y other k. absurd (other (rw (k, ==→eq x.id i e) refl)))
          (others_of_none x.id j xs d.0))
  | inr e ↦
      either_keeps _ (is_due j x) x (select (is_due j) xs) (λ k. ground (arith, k, e))
        (due_payload i j o xs d.1 (found_later i o x xs h e))
]
