-- ===== src/Money/Tests.antt =====
-- Amounts at concrete inputs, and the theorems there.
use settlementos.Base.{◌*◌, ◌^◌, ◌<◌, ◌≡◌, refl, ok, err, arith}
use settlementos.Base.Texts.{codes}
use settlementos.Decimal.{split, value, to_text}
use settlementos.Money.{
  text, other, invalid_format, excess_precision, too_large, not_positive, unsupported_currency,
  currency_decimals, parse_scaled_units, parse_amount, format_scaled_units, format_minor_units,
  canonical_amount,
}
use settlementos.Money.Grammar.{parse_scaled_units-lt}
use settlementos.Money.Roundtrip.{parse-format_scaled_units, canonical_amount_stable}

rejects_yen_decimals : parse_amount (text (codes "25000.001")) "JPY" ≡ err excess_precision
unfolding parse_amount currency_decimals parse_scaled_units split
rejects_yen_decimals = refl

rejects_exponent : parse_amount (text (codes "1e6")) "USD" ≡ err invalid_format
unfolding parse_amount currency_decimals parse_scaled_units split
rejects_exponent = refl

rejects_zero : parse_amount (text (codes "0.00")) "USD" ≡ err not_positive
unfolding parse_amount currency_decimals parse_scaled_units split value
rejects_zero = refl

rejects_long : parse_amount (text (codes "1234567890123456")) "USD" ≡ err too_large
unfolding parse_amount currency_decimals parse_scaled_units split
rejects_long = refl

rejects_currency : parse_amount other "EUR" ≡ err unsupported_currency
unfolding parse_amount currency_decimals
rejects_currency = refl

parsed : parse_scaled_units (text (codes "25000.5")) 2 ≡ ok 2_500_050
unfolding parse_scaled_units split value
parsed = refl

canonical_of_short : canonical_amount (text (codes "25000.5")) "USD" ≡ ok (codes "25000.50")
unfolding canonical_amount parse_amount currency_decimals parse_scaled_units split value
    format_minor_units format_scaled_units to_text
canonical_of_short = refl

parse_scaled_units-lt_example : 2_500_050 < 10 ^ 15 * 10 ^ 2
parse_scaled_units-lt_example = parse_scaled_units-lt (codes "25000.5") 2 2_500_050 parsed

parse-format_scaled_units_example : parse_scaled_units (text (format_scaled_units 7 2)) 2 ≡ ok 7
parse-format_scaled_units_example = parse-format_scaled_units 7 2 (omega arith)

canonical_amount_stable_example :
    (parse_amount (text (codes "25000.50")) "USD" ≡ parse_amount (text (codes "25000.5")) "USD")
    × (canonical_amount (text (codes "25000.50")) "USD" ≡ ok (codes "25000.50"))
canonical_amount_stable_example =
    canonical_amount_stable (text (codes "25000.5")) "USD" (codes "25000.50") canonical_of_short
