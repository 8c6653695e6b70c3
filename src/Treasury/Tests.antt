-- ===== src/Treasury/Tests.antt =====
-- Runs of the treasury module on a small world, and the theorems there.
use settlementos.Base.{
  ◌≡◌, refl, ◌≢◌, subst, ℕ, ◌+◌, ◌-◌, ◌≤◌, ◌<◌, Bool, true, false, ◌*◌, ◌/◌, ◌&&◌, Bool-cases, List,
  [], ◌∷◌, Option, none, some, Result, ok, err, inl, inr, arith, map, if◌then◌else◌,
}
use settlementos.Base
use settlementos.Base.Texts.{String, codes, str_eq, eq_iff}
use settlementos.Base.Programs.{pure, throw, bind}
use settlementos.Decimal.{split, value}
use settlementos.Money.{parse_scaled_units}
use settlementos.Treasury.State.{
  fails, works, active_positions, find_position, mark_recalled, reserved_rows, treasury_error,
  not_eligible, insufficient_free_balance, unknown_network, unsupported_asset,
}
use settlementos.Treasury.Fund.{
  subscribe, subscribe_reverts, redeem, redeem_reverts, uint256_max, asset_for, shares_for,
  index_scale,
}
use settlementos.Treasury.Calls.{
  call, mmf_address, network_contracts, token_on, token_balance, current_index, shares_of,
  mmf_operator_write, ensure_treasury_allowance, create_position,
}
use settlementos.Treasury.Balance.{
  fund_for, fund_asset_for, parse_asset_units, parse_positive_asset_units, sum_reserved,
  free_treasury_balance, value_of_shares, current_index_of, total_value, parked_balance, free_of,
}
use settlementos.Treasury.Park.{
  park, find_entity, is_eligible, assert_eligible, subscribe_position, park_free,
}
use settlementos.Treasury.Recall.{
  recall, recall_found, redeem_position, recall_until, recall_shortfall, recall_for_payment,
}
use settlementos.Treasury.Requests.{Request, parks, recalls, recalls_for, accrues, serve_all}
use settlementos.Treasury.Passing.{reserved_of}
use settlementos.Treasury.Reserved.{Covered, parking_spares_reserved}
use settlementos.Treasury.Shares.{parked_shares}
use settlementos.Treasury.Backed.{Backed}
use settlementos.Treasury.Accounts.{positions_backed}
use settlementos.Treasury.Worth.{parked_balance-le}
use settlementos.Treasury.Once.{recalled_once}
use settlementos.Treasury.Index.{value_never_falls, redeems_growth}
use settlementos.Treasury.Freed.{Stops}
use settlementos.Treasury.Covers.{recall_covers}
use settlementos.Treasury.Resolving.{Keyed, needed_of}
use settlementos.Treasury.Worlds.{
  local_network, deployed, grown_fund, small_world, park_args, pay_args, first_recall, short_world,
}

-- Only what is not reserved can be parked.
parks_free :
    (park deployed (park_args "70" none) small_world).0
    ≡ ok (record {
      position_id = 2;
      shares = 63_636_363;
      asset_amount = 70_000_000;
      index_at_entry = 1_100_000_000_000_000_000;
      tx_hash = 3;
    })
unfolding park fund_asset_for fund_for mmf_address network_contracts token_on call bind pure throw
    parse_positive_asset_units parse_asset_units parse_scaled_units split value
    free_treasury_balance token_balance reserved_rows sum_reserved park_free
    ensure_treasury_allowance subscribe_position current_index shares_of mmf_operator_write
    subscribe subscribe_reverts uint256_max create_position
parks_free = refl

-- A unit more is refused, and so is an entity that has not opted in.
refuses_reserved :
    (park deployed (park_args "70.000001" none) small_world).0
    ≡ err (treasury_error insufficient_free_balance)
unfolding park fund_asset_for fund_for mmf_address network_contracts token_on call bind pure throw
    parse_positive_asset_units parse_asset_units parse_scaled_units split value
    free_treasury_balance token_balance reserved_rows sum_reserved park_free
    ensure_treasury_allowance subscribe_position current_index shares_of mmf_operator_write
    subscribe subscribe_reverts uint256_max create_position
refuses_reserved = refl

refuses_entity :
    (park deployed (park_args "5" (some "acme")) small_world).0 ≡ err (treasury_error not_eligible)
unfolding park call bind pure throw assert_eligible find_entity is_eligible
refuses_entity = refl

-- 110 are needed and 70 are free: the older position pays 44.
recalls_oldest :
    (recall_for_payment deployed (pay_args "110") small_world).0
    ≡ ok (record { recalls = first_recall ∷ []; asset_amount = 44_000_000 })
unfolding recall_for_payment recall_shortfall recall_until recall recall_found redeem_position
    redeem redeem_reverts uint256_max fund_asset_for fund_for mmf_address network_contracts token_on
    call bind pure throw parse_positive_asset_units parse_asset_units parse_scaled_units split value
    free_treasury_balance token_balance reserved_rows sum_reserved current_index current_index_of
    mmf_operator_write parked_balance total_value value_of_shares active_positions find_position
    mark_recalled
recalls_oldest = refl

-- With more reserved than there is, the recall returns although the amount is not free afterwards.
returns_short :
    (recall_for_payment deployed (pay_args "44") short_world).0
    ≡ ok (record { recalls = first_recall ∷ []; asset_amount = 44_000_000 })
unfolding recall_for_payment recall_shortfall recall_until recall recall_found redeem_position
    redeem redeem_reverts uint256_max fund_asset_for fund_for mmf_address network_contracts token_on
    call bind pure throw parse_positive_asset_units parse_asset_units parse_scaled_units split value
    free_treasury_balance token_balance reserved_rows sum_reserved current_index current_index_of
    mmf_operator_write parked_balance total_value value_of_shares active_positions find_position
    mark_recalled
returns_short = refl

still_short :
    free_of
      ((recall_for_payment deployed (pay_args "44") short_world).1.balances "base-local" "mockUSDC")
      30_000_000
    ≡ 34_000_000
unfolding recall_for_payment recall_shortfall recall_until recall recall_found redeem_position
    redeem redeem_reverts uint256_max fund_asset_for fund_for mmf_address network_contracts token_on
    call bind pure throw parse_positive_asset_units parse_asset_units parse_scaled_units split value
    free_treasury_balance token_balance reserved_rows sum_reserved current_index current_index_of
    mmf_operator_write parked_balance total_value value_of_shares active_positions find_position
    mark_recalled
still_short = refl

-- A redemption whose row was not marked is made again by the next recall, with the shares of the other
-- positions.
redeemed_twice :
    (recall deployed 0
      (recall deployed 0 (record small_world {
        replies = works ∷ works ∷ works ∷ works ∷ works ∷ works ∷ fails ∷ [];
      })).1).0
    ≡ ok (record first_recall { tx_hash = 3 })
unfolding recall_for_payment recall_shortfall recall_until recall recall_found redeem_position
    redeem redeem_reverts uint256_max fund_asset_for fund_for mmf_address network_contracts token_on
    call bind pure throw parse_positive_asset_units parse_asset_units parse_scaled_units split value
    free_treasury_balance token_balance reserved_rows sum_reserved current_index current_index_of
    mmf_operator_write parked_balance total_value value_of_shares active_positions find_position
    mark_recalled
redeemed_twice = refl

reserved_there :
    (b : Bool) (r : ℕ)
    → sum_reserved 6 (if b then small_world.reservations else []) 0 ≡ ok r
    → r ≤ 100_000_000
unfolding sum_reserved parse_asset_units parse_scaled_units split value
reserved_there true r e = let e' : 30_000_000 ≡ r = cc in omega (arith, e')
reserved_there false r e = let e' : 0 ≡ r = cc in omega (arith, e')

no_network :
    (n : String)
    → str_eq n "base-local" ≡ false
    → network_contracts deployed n ≡ err unknown_network
unfolding network_contracts
no_network n h = rw (network_contracts, h) refl

no_token :
    (a : String)
    → str_eq a "mockUSDC" ≡ false
    → token_on local_network a ≡ err (treasury_error unsupported_asset)
unfolding token_on
no_token a h = rw (token_on, h) refl

covered_here :
    (a : String) (r : ℕ)
    → reserved_of deployed "base-local" a small_world.reservations ≡ ok r
    → r ≤ 100_000_000
unfolding network_contracts reserved_rows
covered_here a r e = elim (Bool-cases (str_eq a "mockUSDC")) [
  | inl k ↦ reserved_there true r (
      unfold token_on in
      subst (λ x. reserved_of deployed "base-local" x small_world.reservations ≡ ok r)
        ((eq_iff a "mockUSDC").0 k) e)
  | inr k ↦
      let e' : Base.◌>>=◌ (token_on local_network a)
            (λ t. sum_reserved t.decimals (reserved_rows "base-local" a small_world.reservations) 0)
          ≡ ok r =
        e in
      cc (rw (no_token a k) at e')
]

small_world-Covered : Covered deployed small_world
small_world-Covered n a r e = elim (Bool-cases (str_eq n "base-local")) [
  | inl h ↦ covered_here a r (
      subst (λ x. reserved_of deployed x a small_world.reservations ≡ ok r)
        ((eq_iff n "base-local").0 h) e)
  | inr h ↦ cc (rw (no_network n h) at e)
]

small_world-Backed : Backed small_world
unfolding parked_shares
small_world-Backed =
    (refl, λ n. elim (Bool-cases (str_eq n "base-local")) [ inl h ↦ rw h refl | inr h ↦ rw h refl ])

abbrev requests : List Request
requests =
    parks (park_args "50" none)
    ∷ accrues "base-local" (inl 350)
    ∷ recalls 0
    ∷ recalls_for (pay_args "110")
    ∷ []

parking_spares_reserved_example : Covered deployed (serve_all deployed requests small_world)
parking_spares_reserved_example =
    parking_spares_reserved deployed requests small_world small_world-Covered

positions_backed_example : Backed (serve_all deployed requests small_world)
positions_backed_example = positions_backed deployed requests small_world small_world-Backed

value_never_falls_example :
    value_of_shares 40_000_000 1_100_000_000_000_000_000
    ≤ value_of_shares 40_000_000
        ((serve_all deployed requests small_world).funds "base-local").current_index
value_never_falls_example = value_never_falls deployed requests small_world "base-local" 40_000_000

redeems_growth_example :
    (asset_for (shares_for 70_000_000 grown_fund) grown_fund * 1_100_000_000_000_000_000
      ≤ 70_000_000 * 1_100_000_000_000_000_000)
    × (70_000_000 * 1_100_000_000_000_000_000
        ≤ (asset_for (shares_for 70_000_000 grown_fund) grown_fund + 1) * 1_100_000_000_000_000_000
          + 1_100_000_000_000_000_000 * 1_100_000_000_000_000_000 / index_scale)
redeems_growth_example = redeems_growth 70_000_000 grown_fund grown_fund (omega arith)

-- Both positions together are worth 110.
parked_here : (parked_balance deployed "base-local" "mockUSDC" small_world).0 ≡ ok 110_000_000
unfolding parked_balance mmf_address call bind pure throw fund_for current_index current_index_of
    active_positions total_value value_of_shares
parked_here = refl

parked_balance-le_example : 110_000_000 ≤ value_of_shares 100_000_000 1_100_000_000_000_000_000
parked_balance-le_example =
    parked_balance-le deployed "base-local" "mockUSDC" small_world 110_000_000 small_world-Backed
      parked_here

recalls_first : (recall deployed 0 small_world).0 ≡ ok first_recall
unfolding recall_for_payment recall_shortfall recall_until recall recall_found redeem_position
    redeem redeem_reverts uint256_max fund_asset_for fund_for mmf_address network_contracts token_on
    call bind pure throw parse_positive_asset_units parse_asset_units parse_scaled_units split value
    free_treasury_balance token_balance reserved_rows sum_reserved current_index current_index_of
    mmf_operator_write parked_balance total_value value_of_shares active_positions find_position
    mark_recalled
recalls_first = refl

recalled_once_example :
    (recall deployed 0
      (serve_all deployed (parks (park_args "50" none) ∷ []) (recall deployed 0 small_world).1)).0
    ≢ ok first_recall
recalled_once_example =
    recalled_once deployed 0 small_world first_recall (parks (park_args "50" none) ∷ [])
      first_recall recalls_first

needs_110 : needed_of deployed "base-local" "mockUSDC" (codes "110") ≡ ok 110_000_000
unfolding network_contracts token_on parse_positive_asset_units parse_asset_units parse_scaled_units
    split value
needs_110 = refl

reserves_30 : reserved_of deployed "base-local" "mockUSDC" small_world.reservations ≡ ok 30_000_000
unfolding network_contracts token_on parse_asset_units parse_scaled_units split value reserved_rows
    sum_reserved
reserves_30 = refl

small_world-Keyed : Keyed small_world.positions small_world.positions
unfolding find_position
small_world-Keyed = (refl, (refl, tt))

recall_covers_example :
    (140_000_000
      ≤ (recall_for_payment deployed (pay_args "110") small_world).1.balances "base-local"
          "mockUSDC")
    × Stops 40_000_000
        (active_positions "base-local" "mockUSDC" small_world.positions)
        0
        (first_recall ∷ [])
        44_000_000
recall_covers_example =
    recall_covers deployed (pay_args "110") small_world
      (record { recalls = first_recall ∷ []; asset_amount = 44_000_000 }) 110_000_000 30_000_000
      small_world-Keyed needs_110 reserves_30 (omega arith) recalls_oldest
