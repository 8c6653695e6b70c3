-- ===== src/Fx.antt =====
-- lib/fx.ts: the simulated FX engine, over minor units and rates scaled by 10 ^ 18. The basis
-- points that a rate is worsened by stay below 10,000 wherever the program calls `apply_bps`.
pub mod Rounding
pub mod Quotes
mod Tests
use settlementos.Base.{
  ℕ, ◌+◌, ◌-◌, ◌*◌, ◌/◌, ◌^◌, Bool, List, [], ◌∷◌, ◌++◌, ◌==◌, ltb, leb, if◌then◌else◌, Option,
  none, some, Result, ok, err, ◌>>=◌, ◌>>◌, throw_if,
}
use settlementos.Base.Texts.{String, str_eq, codes}
use settlementos.Decimal.{Text, split, value}
use settlementos.Money.{
  MoneyError, text, currency_decimals, parse_scaled_units, format_scaled_units,
}
use Prim.Native.String

-- What these functions throw.
pub data FxError : Type 0 where
  money : MoneyError → FxError
  unsupported_corridor too_many_decimals : FxError

-- A MoneyError passes through as it is.
abbrev pub from_money {ℓ} : {A : Type ℓ} → Result MoneyError A → Result FxError A
from_money (ok a) = ok a
from_money (err e) = err (money e)

abbrev pub rate_decimals : ℕ
rate_decimals = 18

abbrev pub rate_scale : ℕ
rate_scale = 10 ^ 18

abbrev pub bps_scale : ℕ
bps_scale = 10_000

abbrev pub fx_spread_bps : ℕ
fx_spread_bps = 20

abbrev pub platform_fee_bps : ℕ
platform_fee_bps = 10

unfoldable pub corridor_code : String → String → String
corridor_code source dest = String.◌++◌ source (String.◌++◌ "-" dest)

-- MID_RATE_DECIMALS, each key split at its dash.
abbrev pub mid_rate_decimals : List (String × String × String)
mid_rate_decimals = ("USD", "JPY", "157.2") ∷ ("USD", "SGD", "1.35") ∷ ("SGD", "JPY", "116.44") ∷ []

-- 1 / rate at the scale of a rate, to the nearest.
unfoldable pub inverse_rate : ℕ → ℕ
inverse_rate scaled = (rate_scale * rate_scale + scaled / 2) / scaled

-- MID_RATES: each rate of the table with its inverse.
rate_entries : List (String × String × String) → Result FxError (List (String × ℕ))
unfolding corridor_code inverse_rate
rate_entries [] = ok []
rate_entries ((source, dest, rate) ∷ rest) = do
  scaled ← from_money (parse_scaled_units (text (codes rate)) rate_decimals)
  entries ← rate_entries rest
  ok (
      (corridor_code source dest, scaled)
      ∷ (corridor_code dest source, inverse_rate scaled)
      ∷ entries)

unfoldable pub mid_rates : Result FxError (List (String × ℕ))
unfolding rate_entries parse_scaled_units split value
mid_rates = rate_entries mid_rate_decimals

rate_of : String → List (String × ℕ) → Option ℕ
rate_of code [] = none
rate_of code ((c, r) ∷ rates) = if str_eq code c then some r else rate_of code rates

-- `if (!rate) throw`: neither a missing rate nor zero is a rate.
supported : Option ℕ → Result FxError ℕ
supported none = err unsupported_corridor
supported (some r) = if r == 0 then err unsupported_corridor else ok r

unfoldable pub mid_rate : String → String → Result FxError ℕ
unfolding mid_rates rate_of supported corridor_code
mid_rate source dest =
    if str_eq source dest
    then ok rate_scale
    else do rates ← mid_rates; supported (rate_of (corridor_code source dest) rates)

-- A rate for display, rounded down to `decimals`.
unfoldable pub format_rate : ℕ → ℕ → Result FxError Text
format_rate rate decimals = do
  throw_if (ltb rate_decimals decimals) too_many_decimals
  ok (format_scaled_units (rate / 10 ^ (rate_decimals - decimals)) decimals)

-- Worsen a rate by `bps`.
unfoldable pub apply_bps : ℕ → ℕ → ℕ
apply_bps rate bps = rate * (bps_scale - bps) / bps_scale

unfoldable pub convert : ℕ → ℕ → String → String → Result FxError ℕ
convert amount rate source dest = do
  source_decimals ← from_money (currency_decimals source)
  dest_decimals ← from_money (currency_decimals dest)
  ok (amount * rate * 10 ^ dest_decimals / (rate_scale * 10 ^ source_decimals))

-- SLIPPAGE_TIERS: boundaries in US cents.
abbrev pub slippage_tiers : List (ℕ × ℕ)
slippage_tiers = (10_000_00, 1) ∷ (100_000_00, 3) ∷ (500_000_00, 8) ∷ []

tier_bps : ℕ → List (ℕ × ℕ) → ℕ
tier_bps usd [] = 15
tier_bps usd ((ceiling, bps) ∷ tiers) = if leb usd ceiling then bps else tier_bps usd tiers

unfoldable pub slippage_bps : ℕ → ℕ
unfolding tier_bps
slippage_bps usd = tier_bps usd slippage_tiers

unfoldable pub usd_equivalent : ℕ → String → Result FxError ℕ
usd_equivalent amount source =
    if str_eq source "USD"
    then ok amount
    else do rate ← mid_rate source "USD"; convert amount rate source "USD"

pub record FxQuote : Type 0 where
  pub mid : ℕ
  pub effective_rate : ℕ
  pub spread_bps : ℕ
  pub slippage : ℕ
  pub fee_bps : ℕ
  pub destination_amount : ℕ
  pub platform_fee : ℕ

unfoldable pub quote_fx : ℕ → String → String → Result FxError FxQuote
quote_fx amount source dest = do
  mid ← mid_rate source dest
  usd ← usd_equivalent amount source
  let slip = slippage_bps usd
  let effective = apply_bps mid (fx_spread_bps + slip)
  let fee = amount * platform_fee_bps / bps_scale
  destination ← convert (amount - fee) effective source dest
  ok (record {
    mid = mid;
    effective_rate = effective;
    spread_bps = fx_spread_bps;
    slippage = slip;
    fee_bps = platform_fee_bps;
    destination_amount = destination;
    platform_fee = fee;
  })
