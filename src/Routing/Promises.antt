-- ===== src/Routing/Promises.antt =====
-- What the routes between two networks promise to pay.
use settlementos.Base.{
  ℕ, ◌+◌, ◌≤◌, ◌≡◌, refl, ap, subst, arith, Bool, true, false, List, [], ◌∷◌, Result, ok, err,
}
use settlementos.Base.Texts.{String, str_eq}
use settlementos.Base.Programs.{
  Ensures, Holds, pure, lift, throw, bind, ◌>>=◌, bind-Ensures, pure-Ensures,
}
use settlementos.Money.{format_minor_units}
use settlementos.Fx.{FxError, FxQuote, fx_spread_bps}
use settlementos.Fx.Rounding.{apply_bps_antitone, convert_mono}
use settlementos.Fx.Quotes.{IsQuote, quote_fx_inv}
use settlementos.Money.{MoneyError}
use settlementos.Treasury.State.{World, Deployments}
use settlementos.Routing.Quote.{
  M, RouteError, QuotedPayment, RouteOption, Common, bridge_fee_bps, common_of, fx_result,
  money_result,
}
use settlementos.Routing.Offers.{
  bridged_rate, bridge_route, srcchain_route, cross_routes, quote_routes,
}

abbrev Always : World → Type 0
Always w = Unit {0}

fx_result-eq-ok {ℓ} : {A : Type ℓ} (r : Result FxError A) (a : A) → fx_result r ≡ ok a → r ≡ ok a
fx_result-eq-ok (ok b) a h = cc
fx_result-eq-ok (err e) a h = cc

money_result-eq-ok {ℓ} :
    {A : Type ℓ} (r : Result MoneyError A) (a : A) → money_result r ≡ ok a → r ≡ ok a
money_result-eq-ok (ok b) a h = cc
money_result-eq-ok (err e) a h = cc

abbrev Returns {ℓ} : {A : Type ℓ} → M A → (A → Type 0) → Type 0
Returns m Q = Ensures Always m (λ a w. Q a) Always

-- A part whose value is known where it returns, and one of which nothing is kept.
known {ℓ κ} :
    {A : Type ℓ} {B : Type κ} {Q : B → Type 0} (r : Result RouteError A) {f : A → M B}
    → ((a : A) → r ≡ ok a → Returns (f a) Q)
    → Returns (lift r >>= f) Q
unfolding bind pure throw
known (ok a) h = record { run = λ w p. (h a refl).run w p }
known (err e) h = record { run = λ w p. tt }

Holds-anything {ℓ} :
    {A : Type ℓ} (o : Result RouteError A × World) → Holds (λ a w. Unit {0}) Always o
Holds-anything (ok a, w) = tt
Holds-anything (err e, w) = tt

anything {ℓ κ} :
    {A : Type ℓ} {B : Type κ} {Q : B → Type 0} (m : M A) {f : A → M B}
    → ((a : A) → Returns (f a) Q)
    → Returns (m >>= f) Q
anything m h = bind-Ensures (record { run = λ w p. Holds-anything (m w) }) h

gives {ℓ} : {A : Type ℓ} {Q : A → Type 0} (a : A) → Q a → Returns (pure a) Q
gives a q = pure-Ensures a (λ w p. q)

-- The quote behind the shared parts of the routes.
common_of-Returns :
    (p : QuotedPayment)
    → Returns (common_of p) (λ c.
      (c.payment ≡ p) × IsQuote c.amount_minor p.source_currency p.destination_currency c.fx)
unfolding common_of
common_of-Returns p = known _ (λ amount e. known _ (λ source e'. known _ (λ dest e''.
    known _ (λ fx h. known _ (λ mid k. known _ (λ fee k'. gives _ (
      refl,
      quote_fx_inv amount p.source_currency p.destination_currency fx (fx_result-eq-ok _ fx h),
    )))))))

-- Two routes, with the units that they promise.
pub record CrossOffer (p : QuotedPayment) (routes : List RouteOption) : Type 0 where
  pub bridge : RouteOption
  pub srcchain : RouteOption
  pub both : routes ≡ bridge ∷ srcchain ∷ []
  pub bridged : ℕ
  pub settled : ℕ
  pub bridged_text :
      format_minor_units bridged p.destination_currency ≡ ok bridge.estimated_destination_amount
  pub settled_text :
      format_minor_units settled p.destination_currency ≡ ok srcchain.estimated_destination_amount
  pub less : bridged ≤ settled
  pub preferred : (bridge.recommended ≡ true) × (srcchain.recommended ≡ false)
  pub landing :
      (bridge.destination_network ≡ p.destination_network)
      × (srcchain.destination_network ≡ p.source_network)

bridged_rate_le :
    (a : ℕ) (source dest : String) (fx : FxQuote)
    → IsQuote a source dest fx
    → bridged_rate fx ≤ fx.effective_rate
bridged_rate_le a source dest fx q = rw q.effective (
    (apply_bps_antitone fx.mid (fx_spread_bps + fx.slippage)
      (fx_spread_bps + fx.slippage + bridge_fee_bps) (omega arith)).0)

cross_routes-Returns :
    (d : Deployments) (ready : Bool) (p : QuotedPayment) (c : Common)
    → c.payment ≡ p
    → IsQuote c.amount_minor p.source_currency p.destination_currency c.fx
    → Returns (cross_routes d ready p c) (CrossOffer p)
unfolding cross_routes
cross_routes-Returns d ready p c same q = known _ (λ source_net e. known _ (λ dest_net e'.
    known _ (λ units paid. known _ (λ bridged h. known _ (λ fallback h'. anything _ (λ bridged_liq.
      anything _ (λ fallback_liq. known _ (λ bridged_effective k. known _ (λ effective k'.
        gives _ (record {
          bridge = bridge_route c bridged_effective bridged bridged_liq;
          srcchain = srcchain_route c effective fallback fallback_liq;
          both = refl;
          bridged = units;
          settled = c.fx.destination_amount;
          bridged_text = money_result-eq-ok _ bridged h;
          settled_text = money_result-eq-ok _ fallback h';
          less =
              convert_mono _ _ _ _ p.source_currency p.destination_currency units
                c.fx.destination_amount (omega arith) (bridged_rate_le _ _ _ c.fx q)
                (fx_result-eq-ok _ units paid) q.destination;
          preferred = (refl, refl);
          landing = (
            ap (λ (r : QuotedPayment). r.destination_network) same,
            ap (λ (r : QuotedPayment). r.source_network) same,
          );
        }))))))))))

quote_routes-Returns :
    (d : Deployments) (ready : Bool) (p : QuotedPayment)
    → str_eq p.source_network p.destination_network ≡ false
    → Returns (quote_routes d ready p) (CrossOffer p)
unfolding quote_routes
quote_routes-Returns d ready p apart =
    bind-Ensures (common_of-Returns p)
      (λ c. record { run = λ w h. rw apart ((cross_routes-Returns d ready p c h.0 h.1).run w tt) })

returned {ℓ} :
    {A : Type ℓ} (Q : A → Type 0) (o : Result RouteError A × World) (a : A) (v : World)
    → o ≡ (ok a, v)
    → Holds (λ a w. Q a) Always o
    → Q a
returned Q o a v e h = subst (λ (x : Result RouteError _ × World). Holds (λ a w. Q a) Always x) e h

-- However the treasury's calls end, a quote between two networks that returns has two routes: the
-- bridge to the destination, which is recommended, and the settlement on the source's network,
-- which is not and never promises less than the bridge.
pub quote_routes-CrossOffer :
    (d : Deployments) (ready : Bool) (p : QuotedPayment) (w v : World) (routes : List RouteOption)
    → str_eq p.source_network p.destination_network ≡ false
    → quote_routes d ready p w ≡ (ok routes, v)
    → CrossOffer p routes
quote_routes-CrossOffer d ready p w v routes apart h =
    returned (CrossOffer p) (quote_routes d ready p w) routes v h
      ((quote_routes-Returns d ready p apart).run w tt)
