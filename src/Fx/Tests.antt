-- ===== src/Fx/Tests.antt =====
-- Quotes and conversions at concrete amounts, and the theorems there.
use settlementos.Base.{ℕ, ◌+◌, ◌*◌, ◌^◌, ◌-◌, ◌≤◌, ◌<◌, ◌≡◌, refl, ok, err, arith}
use settlementos.Base.Texts.{codes}
use settlementos.Money.{currency_decimals, format_scaled_units}
use settlementos.Decimal.{to_text}
use settlementos.Fx.{
  FxQuote, unsupported_corridor, mid_rate, inverse_rate, format_rate, convert, apply_bps, quote_fx,
  usd_equivalent, slippage_bps, rate_scale,
}
use settlementos.Fx.Rounding.{convert_floor, convert_split, convert_back}
use settlementos.Fx.Quotes.{quote_fx_bounds}

abbrev usd_jpy : ℕ
usd_jpy = 157_200_000_000_000_000_000

mid_usd_jpy : mid_rate "USD" "JPY" ≡ ok usd_jpy
unfolding mid_rate
mid_usd_jpy = refl

mid_jpy_usd : mid_rate "JPY" "USD" ≡ ok 6_361_323_155_216_285
unfolding mid_rate
mid_jpy_usd = refl

mid_unknown : mid_rate "USD" "EUR" ≡ err unsupported_corridor
unfolding mid_rate
mid_unknown = refl

rate_text : format_rate usd_jpy 6 ≡ ok (codes "157.200000")
unfolding format_rate format_scaled_units to_text
rate_text = refl

-- 25,000.00 USD to yen.
abbrev sample : FxQuote
sample = record {
  mid = usd_jpy;
  effective_rate = 156_838_440_000_000_000_000;
  spread_bps = 20;
  slippage = 3;
  fee_bps = 10;
  destination_amount = 3_917_040;
  platform_fee = 2_500;
}

quote_sample : quote_fx 2_500_000 "USD" "JPY" ≡ ok sample
unfolding quote_fx mid_rate usd_equivalent slippage_bps apply_bps convert currency_decimals
quote_sample = refl

converted_sample : convert 2_500_000 usd_jpy "USD" "JPY" ≡ ok 3_930_000
unfolding convert currency_decimals
converted_sample = refl

converted_half : convert 1_250_000 usd_jpy "USD" "JPY" ≡ ok 1_965_000
unfolding convert currency_decimals
converted_half = refl

converted_back : convert 3_930_000 (inverse_rate usd_jpy) "JPY" "USD" ≡ ok 2_500_000
unfolding convert currency_decimals inverse_rate
converted_back = refl

quote_fx_bounds_example :
    (2_500 * 1_000 ≤ 2_500_000)
    × (156_838_440_000_000_000_000 * 10_000 ≤ usd_jpy * (10_000 - (20 + 3)))
    × (usd_jpy * (10_000 - (20 + 3)) < (156_838_440_000_000_000_000 + 1) * 10_000)
    × (156_838_440_000_000_000_000 ≤ usd_jpy)
    × (1 ≤ 3)
    × (3 ≤ 15)
    × (3_917_040 ≤ 3_930_000)
quote_fx_bounds_example =
    quote_fx_bounds 2_500_000 "USD" "JPY" sample 3_930_000 quote_sample converted_sample

convert_floor_example :
    (s d : ℕ) × (currency_decimals "USD" ≡ ok s)
    × (currency_decimals "JPY" ≡ ok d)
    × (3_930_000 * (rate_scale * 10 ^ s) ≤ 2_500_000 * usd_jpy * 10 ^ d)
    × (2_500_000 * usd_jpy * 10 ^ d < (3_930_000 + 1) * (rate_scale * 10 ^ s))
convert_floor_example = convert_floor 2_500_000 usd_jpy "USD" "JPY" 3_930_000 converted_sample

convert_split_example : 1_965_000 + 1_965_000 ≤ 3_930_000
convert_split_example =
    convert_split 1_250_000 1_250_000 usd_jpy "USD" "JPY" 1_965_000 1_965_000 3_930_000
      converted_half converted_half converted_sample

convert_back_example : 2_500_000 ≤ 2_500_000
convert_back_example =
    convert_back 2_500_000 usd_jpy "USD" "JPY" 3_930_000 2_500_000 (omega arith) (omega arith)
      converted_sample converted_back
