-- ===== src/Treasury/Index.antt =====
-- The index of a fund, which never falls, and what a position pays.
use settlementos.Base.{◌≡◌, subst, ℕ, ◌+◌, ◌*◌, ◌/◌, ◌≤◌, ◌<◌, inl, List, arith, ok}
use settlementos.Base.Texts.{String}
use native.Mathlib.Nat.{div-mul-le_self, lt-div-mul-add}
use settlementos.Decimal.{mul_mono_left}
use settlementos.Treasury.State.{World, Deployments, Fund, put}
use settlementos.Treasury.Fund.{index_scale, shares_for, asset_for}
use settlementos.Treasury.Balance.{value_of_shares, daily_index, mmf_annual_rate_bps}
use settlementos.Treasury.Rules.{put-cases}
use settlementos.Treasury.Requests.{Request, serve_all}
use settlementos.Treasury.Stable.{Stable, stable_served}

-- The index of each fund is at least what `base` says.
abbrev Above : (String → ℕ) → World → Type 0
Above base w = (n : String) → base n ≤ (w.funds n).current_index

put-Above :
    (base : String → ℕ) (w : World) (network : String) (f : Fund)
    → (w.funds network).current_index ≤ f.current_index
    → Above base w
    → (n : String) → base n ≤ (put network f w.funds n).current_index
put-Above base w network f h a n =
    put-cases (λ (g : Fund). base n ≤ g.current_index) network n f w.funds
      (λ e.
        let at : base n ≤ (w.funds network).current_index =
          subst (λ x. base n ≤ (w.funds x).current_index) e (a n) in
        omega (arith, h, at))
      (λ e. a n)

Above-Stable : (base : String → ℕ) → Stable (Above base)
Above-Stable base = record {
  blind = λ w y rs z a. a;
  logged = λ w log a. a;
  created = λ w row log a. a;
  marked = λ w id hash log a. a;
  approved = λ w network asset a. a;
  on_subscribe = λ w network asset k a. put-Above base w network _ (omega arith) a;
  on_redeem = λ w network asset k a. put-Above base w network _ (omega arith) a;
  on_accrue = λ w network k h a. put-Above base w network _ h a;
}

div_mono : (a b : ℕ) → a ≤ b → a / index_scale ≤ b / index_scale
div_mono a b h = omega (arith, h)

mul_mono : (s i j : ℕ) → i ≤ j → s * i ≤ s * j
mul_mono s i j h = grind arith

pub value_of_shares_mono : (s i j : ℕ) → i ≤ j → value_of_shares s i ≤ value_of_shares s j
unfolding value_of_shares
value_of_shares_mono s i j h = div_mono (s * i) (s * j) (mul_mono s i j h)

-- No request lowers what any number of shares of a network's fund is worth, whatever comes in and
-- however the calls end.
pub value_never_falls :
    (d : Deployments) (rs : List Request) (w : World) (network : String) (shares : ℕ)
    → value_of_shares shares (w.funds network).current_index
      ≤ value_of_shares shares ((serve_all d rs w).funds network).current_index
value_never_falls d rs w network shares = value_of_shares_mono shares _ _ (
    stable_served (Above (λ n. (w.funds n).current_index)) (Above-Stable _) d rs w
      (λ n. omega arith) network)

-- A day of the default rate at least keeps the index and adds at most a ten-thousandth.
pub daily_index-bounds :
    (index : ℕ) (day : ℕ)
    → daily_index index (inl mmf_annual_rate_bps) ≡ ok day
    → (index ≤ day) × (day ≤ index + index / 10_000)
unfolding daily_index
daily_index-bounds index day h =
    let e : index + index * 350 / 3_650_000 ≡ day = cc in (omega (arith, e), omega (arith, e))

-- The bounds, on the numbers: `s` shares at the index `i` pay `v` at the index `j`.
growth_le : (a i j s v : ℕ) → s * i ≤ a * index_scale → v * index_scale ≤ s * j → v * i ≤ a * j
growth_le a i j s v h k = omega (
  arith,
  mul_mono_left (v * index_scale) (s * j) i k,
  mul_mono_left (s * i) (a * index_scale) j h,
)

growth_lt :
    (a i j s v : ℕ)
    → a * index_scale < (s + 1) * i
    → s * j < (v + 1) * index_scale
    → a * j ≤ (v + 1) * i + i * j / index_scale
growth_lt a i j s v h k = omega (
  arith,
  mul_mono_left (a * index_scale + 1) ((s + 1) * i) j (omega (arith, h)),
  mul_mono_left (s * j + 1) ((v + 1) * index_scale) i (omega (arith, k)),
)

-- The shares that an amount buys pay, whenever they are redeemed, at most the amount grown by the
-- index, and fall short of that by no more than the value of one share and one unit at entry.
pub redeems_growth :
    (amount : ℕ) (entry now : Fund)
    → 0 < entry.current_index
    → (asset_for (shares_for amount entry) now * entry.current_index ≤ amount * now.current_index)
      × (amount * now.current_index
          ≤ (asset_for (shares_for amount entry) now + 1) * entry.current_index
            + entry.current_index * now.current_index / index_scale)
redeems_growth amount entry now pos =
    let i = entry.current_index in
    let j = now.current_index in
    let s = shares_for amount entry in
    let v = asset_for s now in
    (
      growth_le amount i j s v (div-mul-le_self (amount * index_scale) i)
          (div-mul-le_self (s * j) index_scale),
      growth_lt amount i j s v (omega (arith, lt-div-mul-add {a = amount * index_scale} pos))
          (omega arith),
    )
