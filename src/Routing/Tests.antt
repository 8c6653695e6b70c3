-- ===== src/Routing/Tests.antt =====
-- Runs of the liquidity check and of a quote, at concrete inputs.
use settlementos.Base.{◌≡◌, refl, true, false, List, [], ◌∷◌, ok}
use settlementos.Base.Texts.{codes}
use settlementos.Base.Programs.{pure, throw, bind}
use settlementos.Fx.{
  FxQuote, quote_fx, mid_rate, usd_equivalent, convert, format_rate, apply_bps, slippage_bps,
}
use settlementos.Money.{
  parse_scaled_units, parse_amount, currency_decimals, format_minor_units, format_scaled_units,
  canonical_decimal,
}
use settlementos.Decimal.{split, value, to_text}
use settlementos.Networks.Registry.{asset_for_currency, network_info, find_network}
use settlementos.Treasury.Calls.{mmf_address}
use settlementos.Treasury.Balance.{sum_reserved, parse_asset_units, total_value, value_of_shares}
use settlementos.Treasury.State.{reserved_rows, active_positions}
use settlementos.Treasury.Worlds.{deployed, small_world, usdc, local_network}
use settlementos.Routing.Quote.{
  QuotedPayment, RouteOption, Common, common_of, verdict, liquidity_check,
}
use settlementos.Routing.Check.{liquidity_check_lem}
use settlementos.Routing.Offers.{quote_routes, cross_routes, bridge_route, srcchain_route}
use settlementos.Routing.Promises.{CrossOffer, quote_routes-CrossOffer}

liquidity_check_lem_example :
    liquidity_check deployed true "mockUSDC" "base-local" (codes "150.00") small_world
    ≡ (ok (verdict true true), small_world)
unfolding sum_reserved reserved_rows parse_asset_units parse_scaled_units split value mmf_address
    total_value active_positions value_of_shares
liquidity_check_lem_example =
    liquidity_check_lem deployed "mockUSDC" "base-local" (codes "150.00") small_world local_network
      usdc refl refl

abbrev sample : QuotedPayment
sample = record {
  id = "pay_1";
  amount = codes "25000.00";
  source_currency = "USD";
  destination_currency = "JPY";
  source_network = "base-local";
  destination_network = "polygon-local";
}

abbrev sample_fx : FxQuote
sample_fx = record {
  mid = 157_200_000_000_000_000_000;
  effective_rate = 156_838_440_000_000_000_000;
  spread_bps = 20;
  slippage = 3;
  fee_bps = 10;
  destination_amount = 3_917_040;
  platform_fee = 2_500;
}

abbrev sample_common : Common
sample_common = record {
  payment = sample;
  source_asset = record { symbol = "mockUSDC"; currency = "USD"; decimals = 6 };
  dest_asset = record { symbol = "mockJPY"; currency = "JPY"; decimals = 0 };
  fx = sample_fx;
  amount_minor = 2_500_000;
  mid_market_rate = codes "157.200000";
  platform_fee = codes "25.00";
}

abbrev sample_routes : List RouteOption
sample_routes =
    bridge_route sample_common (codes "156.759840") (codes "3915077") (verdict true false)
    ∷ srcchain_route sample_common (codes "156.838440") (codes "3917040") (verdict true false)
    ∷ []

quoted_sample : quote_routes deployed false sample small_world ≡ (ok sample_routes, small_world)
unfolding quote_routes bind common_of parse_amount currency_decimals parse_scaled_units split value
    pure asset_for_currency quote_fx mid_rate usd_equivalent convert format_rate format_minor_units
    cross_routes network_info throw liquidity_check to_text apply_bps slippage_bps
    format_scaled_units find_network canonical_decimal
quoted_sample = refl

quote_routes-CrossOffer_example : CrossOffer sample sample_routes
quote_routes-CrossOffer_example =
    quote_routes-CrossOffer deployed false sample small_world small_world sample_routes refl
      quoted_sample
