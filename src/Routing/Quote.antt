-- ===== src/Routing/Quote.antt =====
-- The liquidity check and the quote, over the treasury's calls.
use settlementos.Base.{
  ℕ, ◌+◌, Bool, true, false, leb, if◌then◌else◌, Option, none, some, Result, ok, err,
}
use settlementos.Base.Texts.{String}
use Prim.Native.String
use settlementos.Base.Programs.{Program, pure, throw, lift, with_error, try_catch, ◌>>=◌}
use settlementos.Decimal.{Text}
use settlementos.Money.{MoneyError, text, parse_scaled_units, parse_amount, format_minor_units}
use settlementos.Fx.{FxError, FxQuote, quote_fx, format_rate}
use settlementos.Networks.Registry.{AssetInfo, NetworkInfo, asset_for_currency, from_base_units}
use settlementos.Treasury.State.{World, Deployments, Token, Error, treasury_error, invalid_amount}
use settlementos.Treasury.Balance.{TreasuryBalance, free_treasury_balance, parked_balance}

abbrev pub bridge_fee_bps : ℕ
bridge_fee_bps = 5

-- What these functions throw.
pub data RouteError : Type 0 where
  from_treasury : Error → RouteError
  from_fx : FxError → RouteError
  from_money : MoneyError → RouteError
  unknown_route_network token_not_deployed no_settlement_asset : RouteError

abbrev pub M {ℓ} : Type ℓ → Type ℓ
M A = Program World RouteError A

pub record LiquiditySnapshot : Type 0 where
  pub onchain_units : ℕ
  pub reserved_units : ℕ
  pub available_units : ℕ
  pub decimals : ℕ
  pub onchain : Text
  pub reserved : Text
  pub available : Text

unfoldable pub token_of : Deployments → String → String → Result RouteError Token
token_of d asset network = elim (d network) [
  | none ↦ err unknown_route_network
  | some n ↦ elim (n.tokens asset) [ none ↦ err token_not_deployed | some t ↦ ok t ]
]

abbrev pub snapshot : ℕ → TreasuryBalance → LiquiditySnapshot
snapshot decimals b = record {
  onchain_units = b.balance;
  reserved_units = b.reserved;
  available_units = b.free;
  decimals = decimals;
  onchain = from_base_units b.balance decimals;
  reserved = from_base_units b.reserved decimals;
  available = from_base_units b.free decimals;
}

unfoldable pub available_liquidity : Deployments → String → String → M LiquiditySnapshot
available_liquidity d asset network = do
  token ← lift (token_of d asset network)
  b ← with_error from_treasury (free_treasury_balance d network asset)
  pure (snapshot token.decimals b)

unfoldable pub destination_units : Text → ℕ → Result RouteError ℕ
destination_units amount decimals = elim (parse_scaled_units (text amount) decimals) [
  | ok units ↦ ok units
  | err e ↦ err (from_money e)
]

pub record LiquidityCheck : Type 0 where
  pub is_ok : Bool
  pub recall_required : Bool

abbrev pub verdict : Bool → Bool → LiquidityCheck
verdict is_ok recall = record { is_ok = is_ok; recall_required = recall }

abbrev pub with_parked : ℕ → ℕ → ℕ → LiquidityCheck
with_parked available needed parked =
    if leb needed (available + parked) then verdict true true else verdict false false

abbrev pub check_free : Deployments → String → String → ℕ → ℕ → M LiquidityCheck
check_free d asset network available needed =
    if leb needed available then pure (verdict true false) else (do
      parked ← with_error from_treasury (parked_balance d network asset)
      pure (with_parked available needed parked))

unfoldable pub measure : Deployments → String → String → Text → M LiquidityCheck
measure d asset network needed = do
  liq ← available_liquidity d asset network
  units ← lift (destination_units needed liq.decimals)
  check_free d asset network liq.available_units units

-- An amount that cannot be read is thrown; any other failure offers the route.
abbrev pub unreadable : RouteError → Bool
unreadable (from_money e) = true
unreadable (from_treasury (treasury_error invalid_amount)) = true
unreadable _ = false

abbrev pub offer_unless_unreadable : RouteError → M LiquidityCheck
offer_unless_unreadable e = if unreadable e then throw e else pure (verdict true false)

unfoldable pub liquidity_check : Deployments → Bool → String → String → Text → M LiquidityCheck
liquidity_check d ready asset network needed =
    if ready
    then try_catch (measure d asset network needed) offer_unless_unreadable
    else pure (verdict true false)

-- The columns of a payment that a quote reads.
pub record QuotedPayment : Type 0 where
  pub id : String
  pub amount : Text
  pub source_currency : String
  pub destination_currency : String
  pub source_network : String
  pub destination_network : String

pub record RouteOption : Type 0 where
  pub route_id : String
  pub strategy : String
  pub source_network : String
  pub destination_network : String
  pub source_asset : String
  pub destination_asset : String
  pub estimated_gas_usd : String
  pub estimated_time_seconds : ℕ
  pub estimated_fx_rate : Text
  pub mid_market_rate : Text
  pub spread_bps : ℕ
  pub slippage_bps : ℕ
  pub platform_fee_bps : ℕ
  pub bridge_bps : ℕ
  pub platform_fee : Text
  pub estimated_destination_amount : Text
  pub liquidity_available : Bool
  pub recall_required : Bool
  pub compliance_required : Bool
  pub recommended : Bool

-- `common`, and what all routes of a quote share.
pub record Common : Type 0 where
  pub payment : QuotedPayment
  pub source_asset : AssetInfo
  pub dest_asset : AssetInfo
  pub fx : FxQuote
  pub amount_minor : ℕ
  pub mid_market_rate : Text
  pub platform_fee : Text

abbrev pub fx_result {ℓ} : {A : Type ℓ} → Result FxError A → Result RouteError A
fx_result (ok a) = ok a
fx_result (err e) = err (from_fx e)

abbrev pub money_result {ℓ} : {A : Type ℓ} → Result MoneyError A → Result RouteError A
money_result (ok a) = ok a
money_result (err e) = err (from_money e)

abbrev pub asset_result : Option AssetInfo → Result RouteError AssetInfo
asset_result none = err no_settlement_asset
asset_result (some a) = ok a

abbrev pub known_network : Option NetworkInfo → Result RouteError NetworkInfo
known_network none = err unknown_route_network
known_network (some n) = ok n

unfoldable pub common_of : QuotedPayment → M Common
common_of p = do
  amount ← lift (money_result (parse_amount (text p.amount) p.source_currency))
  source ← lift (asset_result (asset_for_currency p.source_currency))
  dest ← lift (asset_result (asset_for_currency p.destination_currency))
  fx ← lift (fx_result (quote_fx amount p.source_currency p.destination_currency))
  mid ← lift (fx_result (format_rate fx.mid 6))
  fee ← lift (money_result (format_minor_units fx.platform_fee p.source_currency))
  pure (record {
    payment = p;
    source_asset = source;
    dest_asset = dest;
    fx = fx;
    amount_minor = amount;
    mid_market_rate = mid;
    platform_fee = fee;
  })

abbrev pub route_id_of : QuotedPayment → String → String
route_id_of p suffix = String.◌++◌ "route_" (String.◌++◌ p.id suffix)
