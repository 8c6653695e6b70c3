-- ===== src/Fx/Quotes.antt =====
-- A quote never promises more than the mid-market rate pays.
use settlementos.Base.{ℕ, ◌+◌, ◌-◌, ◌*◌, ◌/◌, ◌≤◌, ◌<◌, ◌≡◌, refl, arith, ok, >>=-eq-ok}
use settlementos.Base.Texts.{String}
use settlementos.Fx.{
  FxQuote, mid_rate, usd_equivalent, convert, apply_bps, slippage_bps, quote_fx, fx_spread_bps,
}
use settlementos.Fx.Rounding.{convert_mono, apply_bps_antitone}

-- The slippage estimate grows with the notional, from 1 to 15 basis points.
pub slippage_bps_mono :
    (m n : ℕ)
    → m ≤ n
    → (1 ≤ slippage_bps m) × (slippage_bps m ≤ slippage_bps n) × (slippage_bps n ≤ 15)
unfolding slippage_bps
slippage_bps_mono m n h = ground arith

-- The parts of a quote that returned.
pub record IsQuote (amount : ℕ) (source dest : String) (q : FxQuote) : Type 0 where
  pub usd : ℕ
  pub usd_known : usd_equivalent amount source ≡ ok usd
  pub mid_known : mid_rate source dest ≡ ok q.mid
  pub slippage : q.slippage ≡ slippage_bps usd
  pub effective : q.effective_rate ≡ apply_bps q.mid (fx_spread_bps + q.slippage)
  pub fee : q.platform_fee ≡ amount * 10 / 10_000
  pub destination :
      convert (amount - q.platform_fee) q.effective_rate source dest ≡ ok q.destination_amount

pub quote_fx_inv :
    (amount : ℕ) (source dest : String) (q : FxQuote)
    → quote_fx amount source dest ≡ ok q
    → IsQuote amount source dest q
unfolding quote_fx
quote_fx_inv amount source dest q h =
    let (mid, known, rest) = >>=-eq-ok (mid_rate source dest) _ h in
    let (usd, usd_known, rest') = >>=-eq-ok (usd_equivalent amount source) _ rest in
    let (x, paid, last) = >>=-eq-ok (convert _ _ source dest) _ rest' in
    let e : q ≡ record {
      mid = mid;
      effective_rate = apply_bps mid (fx_spread_bps + slippage_bps usd);
      spread_bps = fx_spread_bps;
      slippage = slippage_bps usd;
      fee_bps = 10;
      destination_amount = x;
      platform_fee = amount * 10 / 10_000;
    } =
      cc in
    rw e (record {
      usd = usd;
      usd_known = usd_known;
      mid_known = known;
      slippage = refl;
      effective = refl;
      fee = refl;
      destination = paid;
    })

-- Worsening a rate takes off exactly the basis points, rounded down.
apply_bps_floor :
    (r b : ℕ)
    → (apply_bps r b * 10_000 ≤ r * (10_000 - b))
      × (r * (10_000 - b) < (apply_bps r b + 1) * 10_000)
unfolding apply_bps
apply_bps_floor r b = let n : ℕ = r * (10_000 - b) in (omega arith, omega arith)

-- A quote charges at most a thousandth, takes exactly the spread of 20 basis points and the
-- slippage off the mid rate, rounded down, has a slippage of 1 to 15 basis points, and promises no
-- more than converting the whole amount at the mid rate pays.
pub quote_fx_bounds :
    (amount : ℕ) (source dest : String) (q : FxQuote) (x : ℕ)
    → quote_fx amount source dest ≡ ok q
    → convert amount q.mid source dest ≡ ok x
    → (q.platform_fee * 1_000 ≤ amount)
      × (q.effective_rate * 10_000 ≤ q.mid * (10_000 - (20 + q.slippage)))
      × (q.mid * (10_000 - (20 + q.slippage)) < (q.effective_rate + 1) * 10_000)
      × (q.effective_rate ≤ q.mid)
      × (1 ≤ q.slippage)
      × (q.slippage ≤ 15)
      × (q.destination_amount ≤ x)
quote_fx_bounds amount source dest q x h hx =
    let i = quote_fx_inv amount source dest q h in
    let worse : q.effective_rate ≤ q.mid =
      let bps : ℕ = fx_spread_bps + q.slippage in
      rw i.effective ((apply_bps_antitone q.mid bps bps (omega arith)).1) in
    let spread = apply_bps_floor q.mid (fx_spread_bps + q.slippage) in
    let slip = slippage_bps_mono i.usd i.usd (omega arith) in
    (
      omega (arith, i.fee),
      rw i.effective spread.0,
      rw i.effective spread.1,
      worse,
      omega (arith, i.slippage, slip),
      omega (arith, i.slippage, slip),
      convert_mono (amount - q.platform_fee) amount q.effective_rate q.mid source dest
          q.destination_amount x (omega arith) worse i.destination hx,
    )
