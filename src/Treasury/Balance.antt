-- ===== src/Treasury/Balance.antt =====
-- Amounts, the free balance, the index and the values that are derived from it.
use settlementos.Base.{
  ℕ, ◌+◌, ◌-◌, ◌*◌, ◌/◌, ◌==◌, ◌⊎◌, inl, inr, Bool, true, false, ◌&&◌, ◌||◌, not, List, [], ◌∷◌,
  ltb, leb, if◌then◌else◌, Option, none, some, Result, ok, err,
}
use settlementos.Base.Texts.{String, str_eq}
use settlementos.Base.Programs.{pure, lift, throw_when, ◌>>=◌, ◌>>◌}
use settlementos.Decimal.{Text}
use settlementos.Money.{Unknown, text, parse_scaled_units}
use settlementos.Treasury.State.{
  Deployments, Position, Reservation, Error, treasury_error, unsupported_asset, no_fund,
  invalid_amount, invalid_rate, active_positions, reserved_rows,
}
use settlementos.Treasury.Fund.{index_scale}
use settlementos.Treasury.Calls.{
  M, fail_with, read, mmf_address, network_contracts, token_on, token_balance, current_index,
}

pub record FundAsset : Type 0 where
  pub fund : Text
  pub token : Text
  pub symbol : String
  pub decimals : ℕ

unfoldable pub fund_for : Deployments → String → Result Error Text
fund_for d network = elim (mmf_address d network) [ none ↦ fail_with no_fund | some f ↦ ok f ]

-- `assetSymbol in ASSETS`.
abbrev pub is_asset : String → Bool
is_asset s = str_eq s "mockUSDC" || str_eq s "mockJPY" || str_eq s "mockSGD"

-- `toLowerCase` of an address, and the equality of texts.
abbrev pub lower : Text → Text
lower [] = []
lower (c ∷ s) = (if leb b'A' c && leb c b'Z' then c + 32 else c) ∷ lower s

abbrev pub same_text : Text → Text → Bool
same_text [] [] = true
same_text (c ∷ s) (d ∷ t) = c == d && same_text s t
same_text _ _ = false

-- The fund of the network, once it is known to be backed by the asset.
unfoldable pub fund_asset_for : Deployments → String → String → M FundAsset
fund_asset_for d network asset = do
  fund ← lift (fund_for d network)
  throw_when (not (is_asset asset)) (treasury_error unsupported_asset)
  contracts ← lift (network_contracts d network)
  token ← lift (token_on contracts asset)
  backed ← read (λ w. same_text (lower contracts.backing) (lower token.address))
  throw_when (not backed) (treasury_error unsupported_asset)
  pure (record { fund = fund; token = token.address; symbol = asset; decimals = token.decimals })

-- The gate of lib/money.ts, with its error typed again.
unfoldable pub parse_asset_units : Unknown → ℕ → Result Error ℕ
parse_asset_units amount decimals = elim (parse_scaled_units amount decimals) [
  | ok units ↦ ok units
  | err e ↦ fail_with invalid_amount
]

unfoldable pub parse_positive_asset_units : Text → ℕ → Result Error ℕ
parse_positive_asset_units amount decimals = elim (parse_asset_units (text amount) decimals) [
  | ok units ↦ if leb units 0 then fail_with invalid_amount else ok units
  | err e ↦ err e
]

pub record TreasuryBalance : Type 0 where
  pub balance : ℕ
  pub reserved : ℕ
  pub free : ℕ

-- The sum of the reserved amounts, each parsed strictly.
unfoldable pub sum_reserved : ℕ → List Reservation → ℕ → Result Error ℕ
sum_reserved decimals [] sum = ok sum
sum_reserved decimals (r ∷ rs) sum = elim (parse_asset_units (text r.amount) decimals) [
  | ok units ↦ sum_reserved decimals rs (sum + units)
  | err e ↦ err e
]

abbrev pub free_of : ℕ → ℕ → ℕ
free_of balance reserved = if ltb reserved balance then balance - reserved else 0

unfoldable pub free_treasury_balance : Deployments → String → String → M TreasuryBalance
free_treasury_balance d network asset = do
  contracts ← lift (network_contracts d network)
  token ← lift (token_on contracts asset)
  balance ← token_balance network asset
  rows ← read (λ w. reserved_rows network asset w.reservations)
  reserved ← lift (sum_reserved token.decimals rows 0)
  pure (record { balance = balance; reserved = reserved; free = free_of balance reserved })

abbrev pub mmf_annual_rate_bps : ℕ
mmf_annual_rate_bps = 350

-- A rate is a bigint: `inl` is one that is not negative, `inr` the size of a negative one.
unfoldable pub daily_index : ℕ → ℕ ⊎ ℕ → Result Error ℕ
daily_index index (inl rate) = ok (index + index * rate / (10_000 * 365))
daily_index index (inr _) = fail_with invalid_rate

unfoldable pub value_of_shares : ℕ → ℕ → ℕ
value_of_shares shares index = shares * index / index_scale

pub record PositionDerivedValue : Type 0 where
  pub value : Option ℕ
  pub accrued_yield : Option ℕ

unfoldable pub position_derived_value : ℕ → ℕ → Option ℕ → PositionDerivedValue
position_derived_value shares principal none = record { value = none; accrued_yield = none }
position_derived_value shares principal (some index) = record {
  value = some (value_of_shares shares index);
  accrued_yield = some (free_of (value_of_shares shares index) principal);
}

unfoldable pub current_index_of : Deployments → String → M ℕ
current_index_of d network = do fund ← lift (fund_for d network); current_index network

-- The sum of the values of the positions.
unfoldable pub total_value : ℕ → List Position → ℕ → ℕ
total_value index [] sum = sum
total_value index (p ∷ ps) sum = total_value index ps (sum + value_of_shares p.shares index)

abbrev pub parked_value : Deployments → String → List Position → M ℕ
parked_value d network [] = pure 0
parked_value d network (p ∷ ps) = do
  index ← current_index_of d network
  pure (total_value index (p ∷ ps) 0)

abbrev pub parked_of : Deployments → String → String → Option Text → M ℕ
parked_of d network asset none = pure 0
parked_of d network asset (some fund) = do
  positions ← read (λ w. active_positions network asset w.positions)
  parked_value d network positions

-- What is parked but can be recalled; nothing where no fund is deployed.
unfoldable pub parked_balance : Deployments → String → String → M ℕ
parked_balance d network asset = parked_of d network asset (mmf_address d network)
