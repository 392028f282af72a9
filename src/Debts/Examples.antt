-- ===== src/Debts/Examples.antt =====
-- Simplified debts of small groups, and the theorems at them.
use stellar_split.Prelude.{
  ◌≤◌, ◌≡◌, refl, true, false, none, some, List, [], ◌∷◌, arith, length, All, find_by_id,
}
use stellar_split.Prelude.Ints.{ℤ, pos, ◌+ℤ◌, ◌-ℤ◌}
use stellar_split.Entities.{Text, codes, same_text, active}
use stellar_split.Invitations.Entity.{pending}
use stellar_split.Debts.Entity.{RawDebt}
use stellar_split.Debts.Balancing.{get_balance, set_balance, add_debt, balances, open_nets}
use stellar_split.Debts.Greedy.{insert_net, sort_nets, round, settle, simplify_asset}
use stellar_split.Debts.Graph.{add_by_asset, group_by_asset, simplify_groups, simplify}
use stellar_split.Debts.Links.{
  digits, to_fixed_7, split_on, utf8, encode_uri_component, generate_stellar_payment_link,
}
use stellar_split.Debts.Store.{Participant, Store, Env}
use stellar_split.Debts.Caching.{
  insert_id, sort_ids, simplified_debt_keyed, recalculate, calculate, delete_where, save_simplified,
}
use stellar_split.Debts.Totals.{edge_net}
use stellar_split.Debts.Rounds.{IsPayment}
use stellar_split.Debts.Assets.{edges_in, simplify_settles}
use stellar_split.Debts.Ending.{simplify_asset_ends}
use stellar_split.Debts.Cached.{calculate_cached}

abbrev debt : Text → Text → ℤ → RawDebt
debt a b x = record { from = a; to = b; amount = x; asset = codes "XLM" }

-- One owes two others, another owes a third: three debts of two groups that have nothing in common.
abbrev two_groups : List RawDebt
two_groups =
    debt (codes "A") (codes "P") (pos 300)
    ∷ debt (codes "A") (codes "Q") (pos 200)
    ∷ debt (codes "B") (codes "R") (pos 400)
    ∷ []

-- The greedy choice makes more transactions of them than there were.
more_edges_test : length (simplify two_groups).simplified_debts ≡ 4
unfolding simplify simplify_groups group_by_asset add_by_asset simplify_asset settle round sort_nets
    insert_net open_nets balances add_debt get_balance set_balance ◌+ℤ◌ ◌-ℤ◌
more_edges_test = refl

no_savings_test : (simplify two_groups).savings_percentage ≡ 0
unfolding simplify simplify_groups group_by_asset add_by_asset simplify_asset settle round sort_nets
    insert_net open_nets balances add_debt get_balance set_balance ◌+ℤ◌ ◌-ℤ◌
no_savings_test = refl

simplify_settles_example :
    edge_net (same_text (codes "R")) (edges_in (codes "XLM") (simplify two_groups).simplified_debts)
    ≡ pos 400
unfolding ◌+ℤ◌ ◌-ℤ◌
simplify_settles_example = simplify_settles (codes "XLM") (same_text (codes "R")) two_groups

simplify_asset_ends_example :
    let edges = simplify_asset (codes "XLM") two_groups in
    (settle 1000 (codes "XLM") (open_nets two_groups) ≡ edges)
    × (length edges ≤ 4)
    × All (IsPayment (codes "XLM")) edges
unfolding open_nets balances add_debt get_balance set_balance ◌+ℤ◌ ◌-ℤ◌
simplify_asset_ends_example = simplify_asset_ends (codes "XLM") two_groups 1000 (omega arith)

native_link_test :
    generate_stellar_payment_link (record {
      from = codes "A";
      to = codes "P";
      amount = pos 1_205;
      asset = codes "XLM";
      payment_link = none;
    })
    ≡ codes "stellar:P?amount=12.0500000&memo=StellarSplit&memo_type=text"
unfolding generate_stellar_payment_link to_fixed_7 digits
native_link_test = refl

issued_link_test :
    generate_stellar_payment_link (record {
      from = codes "A";
      to = codes "P";
      amount = pos 7;
      asset = codes "USDC:GA5Z";
      payment_link = none;
    })
    ≡ codes
        "stellar:P?amount=0.0700000&asset_code=USDC&asset_issuer=GA5Z&memo=StellarSplit&memo_type=text"
unfolding generate_stellar_payment_link to_fixed_7 digits split_on
issued_link_test = refl

web_link_test :
    generate_stellar_payment_link (record {
      from = codes "A";
      to = codes "P";
      amount = pos 100;
      asset = codes "A B";
      payment_link = none;
    })
    ≡ codes "https://stellarpay.io/pay?destination=P&amount=1.0000000&asset=A%20B"
unfolding generate_stellar_payment_link to_fixed_7 digits split_on encode_uri_component utf8
web_link_test = refl

abbrev member : Participant
member = record {
  wallet_address = some (codes "A");
  amount_owed = 500;
  amount_paid = 100;
  status = pending;
  is_deleted = false;
  split = record {
    status = active;
    is_frozen = false;
    is_deleted = false;
    creator_wallet_address = some (codes "P");
    preferred_currency = none;
  };
}

abbrev store : Store
store = record { participants = member ∷ []; simplified_debts = [] }

abbrev env : Env
env = record { now = 1000; new_id = 1; write = λ n. true }

abbrev later : Env
later = record env { now = 9_000_000; new_id = 2 }

abbrev wallets : List Text
wallets = codes "A" ∷ codes "P" ∷ []

-- The debt has been paid in the meantime.
calculate_cached_example :
    let (r, s') = recalculate env wallets none store in
    (calculate later (codes "P" ∷ codes "A" ∷ []) none (record s' { participants = [] }))
    ≡ (r, record s' { participants = [] })
unfolding recalculate delete_where save_simplified sort_ids insert_id find_by_id
calculate_cached_example =
    calculate_cached env later wallets (codes "P" ∷ codes "A" ∷ []) none store _ _ [] refl refl refl
      (omega arith)
