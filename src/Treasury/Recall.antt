-- ===== src/Treasury/Recall.antt =====
-- Recalling parked positions: one by its id, and as many as a payment needs.
use settlementos.Base.{
  ℕ, ◌+◌, ◌-◌, not, List, [], ◌∷◌, ◌++◌, map, ltb, leb, if◌then◌else◌, Option, none, some,
}
use settlementos.Base.Texts.{String}
use settlementos.Base.Programs.{pure, throw, lift, throw_when, ◌>>=◌, ◌>>◌}
use settlementos.Decimal.{Text}
use settlementos.Treasury.State.{
  World, Deployments, Position, treasury_error, position_not_found, position_not_active,
  insufficient_free_balance, treasury_recalled, treasury_auto_recalled, find_position,
  mark_recalled, active_positions,
}
use settlementos.Treasury.Fund.{redeem}
use settlementos.Treasury.Calls.{
  M, read, commit, current_index, token_balance, mmf_operator_write, on_ledger, audit,
}
use settlementos.Treasury.Balance.{
  fund_asset_for, parse_positive_asset_units, free_treasury_balance, parked_balance,
}

pub record RecallResult : Type 0 where
  pub position_id : ℕ
  pub shares : ℕ
  pub asset_amount : ℕ
  pub index_at_exit : ℕ
  pub tx_hash : ℕ

-- The flip of the status with its event, in one transaction.
abbrev pub recalled : Position → ℕ → ℕ → World → World
recalled p amount hash w = record w {
  positions = mark_recalled p.id hash w.positions;
  log = w.log ++ treasury_recalled p.id p.shares amount ∷ [];
}

-- The part of `recall` that moves money.
unfoldable pub redeem_position : Position → M RecallResult
redeem_position p = do
  index ← current_index p.network
  before ← token_balance p.network p.asset
  hash ← mmf_operator_write (on_ledger p.network p.asset (redeem p.shares))
  after ← token_balance p.network p.asset
  let amount = after - before
  commit (recalled p amount hash)
  pure (record {
    position_id = p.id;
    shares = p.shares;
    asset_amount = amount;
    index_at_exit = index;
    tx_hash = hash;
  })

unfoldable pub recall_found : Deployments → Option Position → M RecallResult
recall_found d none = throw (treasury_error position_not_found)
recall_found d (some p) = do
  throw_when (not p.is_active) (treasury_error position_not_active)
  asset ← fund_asset_for d p.network p.asset
  redeem_position p

unfoldable pub recall : Deployments → ℕ → M RecallResult
recall d id = do position ← read (λ w. find_position id w.positions); recall_found d position

pub record RecallForPaymentArgs : Type 0 where
  pub network_id : String
  pub asset : String
  pub amount : Text
  pub payment_id : String

pub record RecallForPaymentResult : Type 0 where
  pub recalls : List RecallResult
  pub asset_amount : ℕ

-- The loop: the oldest position first, until what was freed covers the shortfall.
unfoldable pub recall_until : Deployments → ℕ → List Position → ℕ → M (List RecallResult × ℕ)
recall_until d shortfall [] freed = pure ([], freed)
recall_until d shortfall (p ∷ ps) freed = if leb shortfall freed then pure ([], freed) else (do
  r ← recall d p.id
  rest ← recall_until d shortfall ps (freed + r.asset_amount)
  pure (r ∷ rest.0, rest.1))

unfoldable pub recall_shortfall :
    Deployments → RecallForPaymentArgs → String → ℕ → M RecallForPaymentResult
recall_shortfall d args asset shortfall = do
  parked ← parked_balance d args.network_id asset
  throw_when (ltb parked shortfall) (treasury_error insufficient_free_balance)
  positions ← read (λ w. active_positions args.network_id asset w.positions)
  result ← recall_until d shortfall positions 0
  throw_when (ltb result.1 shortfall) (treasury_error insufficient_free_balance)
  audit
      (treasury_auto_recalled args.payment_id (map (λ (r : RecallResult). r.position_id) result.0))
  pure (record { recalls = result.0; asset_amount = result.1 })

-- Nothing is recalled where the free balance covers the amount.
abbrev pub recall_missing :
    Deployments → RecallForPaymentArgs → String → ℕ → ℕ → M RecallForPaymentResult
recall_missing d args asset needed free =
    if leb needed free
    then pure (record { recalls = []; asset_amount = 0 })
    else recall_shortfall d args asset (needed - free)

unfoldable pub recall_for_payment : Deployments → RecallForPaymentArgs → M RecallForPaymentResult
recall_for_payment d args = do
  asset ← fund_asset_for d args.network_id args.asset
  needed ← lift (parse_positive_asset_units args.amount asset.decimals)
  b ← free_treasury_balance d args.network_id asset.symbol
  recall_missing d args asset.symbol needed b.free
