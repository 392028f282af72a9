-- ===== src/Debts/Order.antt =====
-- Sorted balances: the first is the least and the last the greatest.
use stellar_split.Prelude.{
  suc, ◌≡◌, refl, inl, inr, true, List, [], ◌∷◌, Bool-cases, length, All, All-map,
}
use stellar_split.Prelude.Ints.{ℤ, pos, pos_part, neg_part, ◌+ℤ◌, ◌≤ℤ◌, ◌<ℤ◌, ltb_ℤ, int_laws}
use stellar_split.Prelude.{Bool, ap, arith}
use stellar_split.Entities.{Text}
use stellar_split.Debts.Entity.{Net}
use stellar_split.Debts.Balancing.{is_open}
use stellar_split.Debts.Greedy.{insert_net, sort_nets, last, before_last}
use stellar_split.Debts.Totals.{when, total}

abbrev pub IsSorted : List Net → Type 0
IsSorted [] = Unit
IsSorted (n ∷ ns) = All (λ (m : Net). n.net ≤ℤ m.net) ns × IsSorted ns

insert_net-All {κ} :
    (P : Net → Type κ) (n : Net) (ns : List Net) → P n → All P ns → All P (insert_net n ns)
unfolding insert_net
insert_net-All P n [] h hs = (h, tt)
insert_net-All P n (m ∷ ms) h hs = ground (arith, insert_net-All P n ms h hs.1)

insert_net-IsSorted : (n : Net) (ns : List Net) → IsSorted ns → IsSorted (insert_net n ns)
unfolding insert_net
insert_net-IsSorted n [] s = (tt, tt)
insert_net-IsSorted n (m ∷ ms) (least, s) = elim (Bool-cases (ltb_ℤ m.net n.net)) [
  | inl less ↦ rw less (
    insert_net-All (λ (k : Net). m.net ≤ℤ k.net) n ms (ground arith) least,
    insert_net-IsSorted n ms s,
  )
  | inr not_less ↦ rw not_less (
    (ground arith, All-map _ (λ (k : Net). n.net ≤ℤ k.net) ms (λ k h. ground arith) least),
    (least, s),
  )
]

pub sort_nets-IsSorted : (ns : List Net) → IsSorted (sort_nets ns)
unfolding sort_nets
sort_nets-IsSorted [] = tt
sort_nets-IsSorted (n ∷ ns) = insert_net-IsSorted n (sort_nets ns) (sort_nets-IsSorted ns)

pub sort_nets-All {κ} : (P : Net → Type κ) (ns : List Net) → All P ns → All P (sort_nets ns)
unfolding sort_nets
sort_nets-All P [] h = tt
sort_nets-All P (n ∷ ns) h = insert_net-All P n (sort_nets ns) h.0 (sort_nets-All P ns h.1)

length-insert_net : (n : Net) (ns : List Net) → length (insert_net n ns) ≡ suc (length ns)
unfolding insert_net
length-insert_net n [] = refl
length-insert_net n (m ∷ ms) = ground (arith, length-insert_net n ms)

pub length-sort_nets : (ns : List Net) → length (sort_nets ns) ≡ length ns
unfolding sort_nets
length-sort_nets [] = refl
length-sort_nets (n ∷ ns) = ground (arith, length-insert_net n (sort_nets ns), length-sort_nets ns)

module _ (p : Text → Bool) where
  total-insert_net : (n : Net) (ns : List Net) → total p (insert_net n ns) ≡ total p (n ∷ ns)
  unfolding insert_net
  total-insert_net n [] = refl
  total-insert_net n (m ∷ ms) = elim (Bool-cases (ltb_ℤ m.net n.net)) [
    | inl less ↦ rw (less, total-insert_net n ms) (omega int_laws)
    | inr not_less ↦ rw not_less refl
  ]

  pub total-sort_nets : (ns : List Net) → total p (sort_nets ns) ≡ total p ns
  unfolding sort_nets
  total-sort_nets [] = refl
  total-sort_nets (n ∷ ns) = rw (total-insert_net n (sort_nets ns), total-sort_nets ns) refl

  pub total-last :
      (n : Net) (ns : List Net)
      → total p (n ∷ ns) ≡ total p (before_last n ns) +ℤ when (p (last n ns).wallet) (last n ns).net
  total-last n [] = omega int_laws
  total-last n (m ∷ ms) = rw (total-last m ms) (omega int_laws)

pub before_last-All {κ} :
    (P : Net → Type κ) (n : Net) (ns : List Net) → All P (n ∷ ns) → All P (before_last n ns)
before_last-All P n [] h = tt
before_last-All P n (m ∷ ms) (h, hs) = (h, before_last-All P m ms hs)

pub last-All {κ} : (P : Net → Type κ) (n : Net) (ns : List Net) → All P (n ∷ ns) → P (last n ns)
last-All P n [] h = h.0
last-All P n (m ∷ ms) h = last-All P m ms h.1

pub length-before_last : (n : Net) (ns : List Net) → length (before_last n ns) ≡ length ns
length-before_last n [] = refl
length-before_last n (m ∷ ms) = ground (arith, length-before_last m ms)

pub last-greatest :
    (n : Net) (ns : List Net)
    → IsSorted (n ∷ ns)
    → All (λ (m : Net). m.net ≤ℤ (last n ns).net) (n ∷ ns)
last-greatest n [] s = (ground arith, tt)
last-greatest n (m ∷ ms) (least, s) =
    (last-All (λ (k : Net). n.net ≤ℤ k.net) m ms least, last-greatest m ms s)

abbrev pub sum_all : List Net → ℤ
sum_all = total (λ _. true)

sum_all-lower : (ns : List Net) → All (λ (n : Net). pos 0 ≤ℤ n.net) ns → pos 0 ≤ℤ sum_all ns
sum_all-lower [] h = omega arith
sum_all-lower (n ∷ ns) h = omega (int_laws, sum_all-lower ns h.1, h.0)

sum_all-upper : (ns : List Net) → All (λ (n : Net). n.net ≤ℤ pos 0) ns → sum_all ns ≤ℤ pos 0
sum_all-upper [] h = omega arith
sum_all-upper (n ∷ ns) h = omega (int_laws, sum_all-upper ns h.1, h.0)

-- Balances that are open and cancel out: the first is a debtor's and the last a creditor's.
pub first_owes :
    (d : Net) (ns : List Net)
    → IsSorted (d ∷ ns)
    → is_open d ≡ true
    → sum_all (d ∷ ns) ≡ pos 0
    → ltb_ℤ d.net (pos 0) ≡ true
first_owes d ns (least, s) is_not_zero zero_sum = elim (Bool-cases (ltb_ℤ d.net (pos 0))) [
  | inl owes ↦ owes
  | inr owes_not ↦
      let rest : pos 0 ≤ℤ sum_all ns =
        sum_all-lower ns (All-map _ _ ns (λ m h. ground arith) least) in
      let first : pos 0 <ℤ d.net = ground arith in
      absurd (omega (int_laws, first, ap pos_part zero_sum, ap neg_part zero_sum, rest))
]

pub last_is_owed :
    (d n : Net) (ns : List Net)
    → IsSorted (n ∷ ns)
    → ltb_ℤ d.net (pos 0) ≡ true
    → sum_all (d ∷ n ∷ ns) ≡ pos 0
    → ltb_ℤ (pos 0) (last n ns).net ≡ true
last_is_owed d n ns s owes zero_sum = elim (Bool-cases (ltb_ℤ (pos 0) (last n ns).net)) [
  | inl owed ↦ owed
  | inr owed_not ↦
      let rest : sum_all (n ∷ ns) ≤ℤ pos 0 =
        sum_all-upper (n ∷ ns)
          (All-map _ _ (n ∷ ns) (λ m h. ground arith) (last-greatest n ns s)) in
      let first : d.net <ℤ pos 0 = ground arith in
      absurd (omega (int_laws, first, ap pos_part zero_sum, ap neg_part zero_sum, rest))
]
