-- ===== src/Treasury/Park.antt =====
-- Parking liquidity in the fund, and the daily accrual.
use settlementos.Base.{
  ℕ, ◌-◌, Bool, true, false, ◌&&◌, ◌||◌, not, List, [], ◌∷◌, ltb, if◌then◌else◌, ◌⊎◌, Option, none,
  some,
}
use settlementos.Base.Texts.{String, str_eq}
use settlementos.Base.Programs.{pure, lift, throw_when, ◌>>=◌, ◌>>◌}
use settlementos.Decimal.{Text}
use settlementos.Treasury.State.{
  Deployments, Entity, Position, treasury_error, not_eligible, insufficient_free_balance,
  treasury_parked, treasury_accrued,
}
use settlementos.Treasury.Fund.{subscribe, accrue}
use settlementos.Treasury.Calls.{
  M, read, current_index, shares_of, mmf_operator_write, on_ledger, on_fund,
  ensure_treasury_allowance, create_position, audit,
}
use settlementos.Treasury.Balance.{
  fund_for, fund_asset_for, parse_positive_asset_units, TreasuryBalance, free_treasury_balance,
  daily_index, current_index_of,
}

unfoldable pub find_entity : String → List Entity → Option Entity
find_entity id [] = none
find_entity id (e ∷ es) =
    if str_eq e.id id || str_eq e.external_id id then some e else find_entity id es

-- Cleared and opted in.
unfoldable pub is_eligible : Option Entity → Bool
is_eligible none = false
is_eligible (some e) = e.mmf_eligible && e.mmf_opt_in

unfoldable pub assert_eligible : String → M (Unit {0})
assert_eligible id = do
  entity ← read (λ w. find_entity id w.entities)
  throw_when (not (is_eligible entity)) (treasury_error not_eligible)

-- `if (entityId)`: neither a missing id nor the empty one is checked.
abbrev pub check_entity : Option String → M (Unit {0})
check_entity none = pure tt
check_entity (some id) = if str_eq id "" then pure tt else assert_eligible id

pub record ParkArgs : Type 0 where
  pub network_id : String
  pub asset : String
  pub amount : Text
  pub entity_id : Option String

pub record ParkResult : Type 0 where
  pub position_id : ℕ
  pub shares : ℕ
  pub asset_amount : ℕ
  pub index_at_entry : ℕ
  pub tx_hash : ℕ

abbrev pub parked_row : String → String → ℕ → ℕ → ℕ → ℕ → Position
parked_row network asset shares amount index hash = record {
  id = 0;
  network = network;
  asset = asset;
  shares = shares;
  asset_amount_in = amount;
  index_at_entry = index;
  is_active = true;
  tx_hash_park = hash;
  tx_hash_recall = none;
}

-- The part of `park` that moves money: subscribe at the live index, and record the position.
unfoldable pub subscribe_position : String → String → ℕ → M ParkResult
subscribe_position network asset amount = do
  index ← current_index network
  before ← shares_of network
  hash ← mmf_operator_write (on_ledger network asset (subscribe amount))
  after ← shares_of network
  let shares = after - before
  id ←
      create_position (parked_row network asset shares amount index hash)
        (λ id. treasury_parked id amount shares)
  pure (record {
    position_id = id;
    shares = shares;
    asset_amount = amount;
    index_at_entry = index;
    tx_hash = hash;
  })

-- What is reserved for a payment stays.
unfoldable pub park_free : String → String → ℕ → TreasuryBalance → M ParkResult
park_free network asset amount b = do
  throw_when (ltb b.free amount) (treasury_error insufficient_free_balance)
  ensure_treasury_allowance network asset amount
  subscribe_position network asset amount

unfoldable pub park : Deployments → ParkArgs → M ParkResult
park d args = do
  check_entity args.entity_id
  asset ← fund_asset_for d args.network_id args.asset
  amount ← lift (parse_positive_asset_units args.amount asset.decimals)
  b ← free_treasury_balance d args.network_id asset.symbol
  park_free args.network_id asset.symbol amount b

pub record AccrueResult : Type 0 where
  pub old_index : ℕ
  pub new_index : ℕ
  pub tx_hash : ℕ

-- One day of simulated yield.
unfoldable pub accrue_daily : Deployments → String → ℕ ⊎ ℕ → M AccrueResult
accrue_daily d network rate = do
  fund ← lift (fund_for d network)
  old ← current_index_of d network
  new ← lift (daily_index old rate)
  hash ← mmf_operator_write (on_fund network (accrue new))
  audit (treasury_accrued network old new)
  pure (record { old_index = old; new_index = new; tx_hash = hash })
