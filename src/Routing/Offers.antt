-- ===== src/Routing/Offers.antt =====
-- The routes that a payment is offered, with the amounts that they promise.
use settlementos.Base.{ℕ, ◌+◌, ◌-◌, Bool, true, false, List, [], ◌∷◌, if◌then◌else◌}
use settlementos.Base.Texts.{str_eq}
use settlementos.Base.Programs.{pure, lift, ◌>>=◌}
use settlementos.Decimal.{Text}
use settlementos.Money.{format_minor_units}
use settlementos.Fx.{FxQuote, apply_bps, convert, format_rate, fx_spread_bps}
use settlementos.Networks.Registry.{network_info}
use settlementos.Treasury.State.{Deployments}
use settlementos.Routing.Quote.{
  M, QuotedPayment, RouteOption, Common, LiquidityCheck, bridge_fee_bps, common_of, fx_result,
  money_result, known_network, liquidity_check, route_id_of,
}

abbrev pub instant_route : Common → Text → Text → LiquidityCheck → RouteOption
instant_route c effective amount liq = record {
  route_id = route_id_of c.payment "_instant";
  strategy = "INSTANT_ESCROW_SETTLEMENT";
  source_network = c.payment.source_network;
  destination_network = c.payment.destination_network;
  source_asset = c.source_asset.symbol;
  destination_asset = c.dest_asset.symbol;
  estimated_gas_usd = "0.11";
  estimated_time_seconds = 15;
  estimated_fx_rate = effective;
  mid_market_rate = c.mid_market_rate;
  spread_bps = c.fx.spread_bps;
  slippage_bps = c.fx.slippage;
  platform_fee_bps = c.fx.fee_bps;
  bridge_bps = 0;
  platform_fee = c.platform_fee;
  estimated_destination_amount = amount;
  liquidity_available = liq.is_ok;
  recall_required = liq.recall_required;
  compliance_required = true;
  recommended = true;
}

abbrev pub batched_route : Common → Text → Text → LiquidityCheck → RouteOption
batched_route c effective amount liq = record (instant_route c effective amount liq) {
  route_id = route_id_of c.payment "_batched";
  strategy = "BATCHED_NETTING_WINDOW";
  estimated_gas_usd = "0.03";
  estimated_time_seconds = 14_400;
  recommended = false;
}

abbrev pub bridge_route : Common → Text → Text → LiquidityCheck → RouteOption
bridge_route c effective amount liq = record (instant_route c effective amount liq) {
  route_id = route_id_of c.payment "_bridge";
  strategy = "BRIDGE_AND_SETTLE";
  estimated_gas_usd = "0.26";
  estimated_time_seconds = 90;
  bridge_bps = bridge_fee_bps;
}

abbrev pub srcchain_route : Common → Text → Text → LiquidityCheck → RouteOption
srcchain_route c effective amount liq = record (instant_route c effective amount liq) {
  route_id = route_id_of c.payment "_srcchain";
  strategy = "SOURCE_CHAIN_LEDGER_SETTLEMENT";
  destination_network = c.payment.source_network;
  recommended = false;
}

-- The routes on one network.
unfoldable pub local_routes : Deployments → Bool → QuotedPayment → Common → M (List RouteOption)
local_routes d ready p c = do
  effective ← lift (fx_result (format_rate c.fx.effective_rate 6))
  amount ← lift (money_result (format_minor_units c.fx.destination_amount p.destination_currency))
  liq ← liquidity_check d ready c.dest_asset.symbol p.destination_network amount
  net ← lift (known_network (network_info p.source_network))
  pure (instant_route c effective amount liq ∷ batched_route c effective amount liq ∷ [])

abbrev pub bridged_rate : FxQuote → ℕ
bridged_rate fx = apply_bps fx.mid (fx_spread_bps + fx.slippage + bridge_fee_bps)

-- The routes between two networks. The two checks only read, and run one after the other here.
unfoldable pub cross_routes : Deployments → Bool → QuotedPayment → Common → M (List RouteOption)
cross_routes d ready p c = do
  source_net ← lift (known_network (network_info p.source_network))
  dest_net ← lift (known_network (network_info p.destination_network))
  units ← lift (
      fx_result (
        convert (c.amount_minor - c.fx.platform_fee) (bridged_rate c.fx) p.source_currency
          p.destination_currency))
  bridged ← lift (money_result (format_minor_units units p.destination_currency))
  fallback ← lift (money_result (format_minor_units c.fx.destination_amount p.destination_currency))
  bridged_liq ← liquidity_check d ready c.dest_asset.symbol p.destination_network bridged
  fallback_liq ← liquidity_check d ready c.dest_asset.symbol p.source_network fallback
  bridged_effective ← lift (fx_result (format_rate (bridged_rate c.fx) 6))
  effective ← lift (fx_result (format_rate c.fx.effective_rate 6))
  pure (
      bridge_route c bridged_effective bridged bridged_liq
      ∷ srcchain_route c effective fallback fallback_liq
      ∷ [])

-- The quote of a payment that was found.
unfoldable pub quote_routes : Deployments → Bool → QuotedPayment → M (List RouteOption)
quote_routes d ready p = do
  c ← common_of p
  (if str_eq p.source_network p.destination_network
      then local_routes d ready p c
      else cross_routes d ready p c)
