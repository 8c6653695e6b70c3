-- ===== src/Money.antt =====
-- lib/money.ts: fixed-precision money at the API boundary. An error is its code, without the text
-- of its message.
pub mod Grammar
pub mod Roundtrip
mod Tests
use settlementos.Base.{
  ℕ, ◌+◌, ◌*◌, ◌^◌, Bool, true, false, ◌&&◌, not, List, [], ◌∷◌, ◌++◌, ◌==◌, ltb, leb,
  if◌then◌else◌, length, all, Result, ok, err, ◌>>=◌, ◌>>◌, throw_if,
}
use settlementos.Base.Texts.{String, str_eq}
use settlementos.Decimal.{
  Text, is_digit, to_bigint, to_text, split, part_or_empty, pad_start, pad_end, drop_last,
  take_last,
}

-- MoneyErrorCode.
pub data MoneyError : Type 0 where
  invalid_format excess_precision too_large not_positive unsupported_currency : MoneyError

-- A value of type `unknown`: a string, or anything else.
pub data Unknown : Type 0 where
  text : Text → Unknown
  other : Unknown

abbrev pub max_integer_digits : ℕ
max_integer_digits = 15

-- CURRENCY_DECIMALS, and the function that throws on any other key.
unfoldable pub currency_decimals : String → Result MoneyError ℕ
currency_decimals currency =
    if str_eq currency "USD"
    then ok 2
    else if str_eq currency "JPY"
    then ok 0
    else if str_eq currency "SGD"
    then ok 2
    else err unsupported_currency

-- `[0-9]+`.
abbrev pub is_digits : Text → Bool
is_digits [] = false
is_digits (c ∷ s) = all is_digit (c ∷ s)

-- The parts of a text between points, as CANONICAL_DECIMAL wants them: one or two runs of digits.
abbrev pub canonical_parts : List Text → Bool
canonical_parts (w ∷ []) = is_digits w
canonical_parts (w ∷ f ∷ []) = is_digits w && is_digits f
canonical_parts _ = false

-- CANONICAL_DECIMAL.test: `^[0-9]+(\.[0-9]+)?$`.
unfoldable pub canonical_decimal : Text → Bool
canonical_decimal value = canonical_parts (split b'.' value)

-- `x || "0"`.
abbrev pub or_zero : Text → Text
or_zero [] = b'0' ∷ []
or_zero (c ∷ s) = c ∷ s

unfoldable pub parse_scaled_units : Unknown → ℕ → Result MoneyError ℕ
unfolding canonical_decimal
parse_scaled_units other decimals = err invalid_format
parse_scaled_units (text value) decimals = do
  throw_if (not (canonical_decimal value)) invalid_format
  let whole = part_or_empty 0 (split b'.' value)
  let frac = part_or_empty 1 (split b'.' value)
  throw_if (ltb max_integer_digits (length whole)) too_large
  throw_if (ltb decimals (length frac)) excess_precision
  ok (to_bigint whole * 10 ^ decimals + to_bigint (or_zero (pad_end decimals b'0' frac)))

unfoldable pub parse_amount : Unknown → String → Result MoneyError ℕ
parse_amount amount currency = do
  decimals ← currency_decimals currency
  units ← parse_scaled_units amount decimals
  throw_if (leb units 0) not_positive
  ok units

unfoldable pub format_scaled_units : ℕ → ℕ → Text
format_scaled_units units decimals =
    if decimals == 0
    then to_text units
    else let digits = pad_start (decimals + 1) b'0' (to_text units) in
      drop_last decimals digits ++ b'.' ∷ take_last decimals digits

unfoldable pub format_minor_units : ℕ → String → Result MoneyError Text
format_minor_units units currency = do
  decimals ← currency_decimals currency
  ok (format_scaled_units units decimals)

unfoldable pub canonical_amount : Unknown → String → Result MoneyError Text
canonical_amount amount currency = do
  units ← parse_amount amount currency
  format_minor_units units currency
