-- ===== src/Fx/Rounding.antt =====
-- Every rounding is down: converting, worsening a rate, and converting there and back.
use settlementos.Base.{
  ℕ, ◌+◌, ◌-◌, ◌*◌, ◌/◌, ◌^◌, ◌≤◌, ◌<◌, ◌≡◌, ap, ◌∙◌, arith, ok, err, >>=-eq-ok, Result,
}
use settlementos.Base.Texts.{String}
use settlementos.Money.{currency_decimals}
use settlementos.Fx.{from_money, rate_scale, inverse_rate, apply_bps, convert}
use native.Mathlib.Nat.{
  div-mul-le_self, lt-div-mul-add, le-div_iff_mul-le, mul-le-mul, mul-le-mul_right, mul-le-mul_left,
  one-le-pow, le_of_mul-le-mul_right, lt_of_mul-lt-mul_right, le_trans,
}

abbrev pub scale : ℕ → ℕ
scale decimals = rate_scale * 10 ^ decimals

pub scale_pos : (d : ℕ) → 0 < scale d
scale_pos d = omega (arith, one-le-pow d 10 (omega arith))

-- The precisions of a conversion that returned, and its result.
pub record IsConversion (a r : ℕ) (source dest : String) (x : ℕ) : Type 0 where
  pub from : ℕ
  pub to : ℕ
  pub from_known : currency_decimals source ≡ ok from
  pub to_known : currency_decimals dest ≡ ok to
  pub amount : x ≡ a * r * 10 ^ to / scale from

from_money-eq-ok {ℓ} : {A : Type ℓ} (m : Result _ A) (a : A) → from_money m ≡ ok a → m ≡ ok a
from_money-eq-ok (ok b) a h = cc
from_money-eq-ok (err e) a h = cc

pub convert_inv :
    (a r : ℕ) (source dest : String) (x : ℕ)
    → convert a r source dest ≡ ok x
    → IsConversion a r source dest x
unfolding convert
convert_inv a r source dest x h =
    let (sd, known, rest) = >>=-eq-ok (from_money (currency_decimals source)) _ h in
    let (dd, known', last) = >>=-eq-ok (from_money (currency_decimals dest)) _ rest in
    record {
      from = sd;
      to = dd;
      from_known = from_money-eq-ok (currency_decimals source) sd known;
      to_known = from_money-eq-ok (currency_decimals dest) dd known';
      amount = ground arith;
    }

-- A conversion that returns pays the exact product rounded down to a minor unit.
pub convert_floor :
    (a r : ℕ) (source dest : String) (x : ℕ)
    → convert a r source dest ≡ ok x
    → (s d : ℕ) × (currency_decimals source ≡ ok s)
      × (currency_decimals dest ≡ ok d)
      × (x * (rate_scale * 10 ^ s) ≤ a * r * 10 ^ d)
      × (a * r * 10 ^ d < (x + 1) * (rate_scale * 10 ^ s))
convert_floor a r source dest x h =
    let c = convert_inv a r source dest x h in
    let n : ℕ = a * r * 10 ^ c.to in
    let same : x * scale c.from ≡ n / scale c.from * scale c.from =
      ap (λ (k : ℕ). k * scale c.from) c.amount in
    (
      c.from,
      c.to,
      c.from_known,
      c.to_known,
      omega (arith, same, div-mul-le_self n (scale c.from)),
      omega (arith, same, lt-div-mul-add {a = n} (scale_pos c.from)),
    )

-- Worsening a rate never raises it, and worsening it by more never gives a better one.
pub apply_bps_antitone : (r b c : ℕ) → b ≤ c → (apply_bps r c ≤ apply_bps r b) × (apply_bps r b ≤ r)
unfolding apply_bps
apply_bps_antitone r b c h =
    let less : r * (10_000 - c) ≤ r * (10_000 - b) = mul-le-mul_left r (omega arith) in
    let most : r * (10_000 - b) ≤ r * 10_000 = mul-le-mul_left r (omega arith) in
    (omega (arith, less), omega (arith, most))

same_decimals :
    (c : String) (m n : ℕ) → currency_decimals c ≡ ok m → currency_decimals c ≡ ok n → m ≡ n
same_decimals c m n p q = cc

div_mono : (m n k : ℕ) → 0 < k → m ≤ n → m / k ≤ n / k
div_mono m n k pos h = (le-div_iff_mul-le pos).1 (le_trans (div-mul-le_self m k) h)

-- A larger amount, or a better rate, never converts to less.
pub convert_mono :
    (a b r q : ℕ) (source dest : String) (x y : ℕ)
    → a ≤ b
    → r ≤ q
    → convert a r source dest ≡ ok x
    → convert b q source dest ≡ ok y
    → x ≤ y
convert_mono a b r q source dest x y ab rq hx hy =
    let c = convert_inv a r source dest x hx in
    let e = convert_inv b q source dest y hy in
    let from = same_decimals source c.from e.from c.from_known e.from_known in
    let to = same_decimals dest c.to e.to c.to_known e.to_known in
    let product : a * r * 10 ^ c.to ≤ b * q * 10 ^ c.to =
      mul-le-mul_right (10 ^ c.to) (mul-le-mul ab rq) in
    let less =
      div_mono (a * r * 10 ^ c.to) (b * q * 10 ^ c.to) (scale c.from) (scale_pos c.from) product in
    let same : b * q * 10 ^ c.to / scale c.from ≡ b * q * 10 ^ e.to / scale e.from =
      ap (λ (n : ℕ). b * q * 10 ^ n / scale c.from) to
      ∙ ap (λ (n : ℕ). b * q * 10 ^ e.to / scale n) from in
    omega (arith, c.amount, e.amount, less, same)

-- Splitting an amount in two and converting each part never pays more than converting it whole.
pub convert_split :
    (a b r : ℕ) (source dest : String) (x y z : ℕ)
    → convert a r source dest ≡ ok x
    → convert b r source dest ≡ ok y
    → convert (a + b) r source dest ≡ ok z
    → x + y ≤ z
convert_split a b r source dest x y z hx hy hz =
    let c = convert_inv a r source dest x hx in
    let e = convert_inv b r source dest y hy in
    let f = convert_inv (a + b) r source dest z hz in
    let k : ℕ = scale f.from in
    let pa : ℕ = a * r * 10 ^ f.to in
    let pb : ℕ = b * r * 10 ^ f.to in
    let xs : x ≡ pa / k =
      c.amount
      ∙ ap (λ (n : ℕ). a * r * 10 ^ n / scale c.from)
          (same_decimals dest c.to f.to c.to_known f.to_known)
      ∙ ap (λ (n : ℕ). pa / scale n)
          (same_decimals source c.from f.from c.from_known f.from_known) in
    let ys : y ≡ pb / k =
      e.amount
      ∙ ap (λ (n : ℕ). b * r * 10 ^ n / scale e.from)
          (same_decimals dest e.to f.to e.to_known f.to_known)
      ∙ ap (λ (n : ℕ). pb / scale n)
          (same_decimals source e.from f.from e.from_known f.from_known) in
    let whole : (x + y) * k ≤ (a + b) * r * 10 ^ f.to = omega (
      arith,
      div-mul-le_self pa k,
      div-mul-le_self pb k,
      ap (λ (n : ℕ). n * k) xs,
      ap (λ (n : ℕ). n * k) ys,
    ) in
    omega (arith, f.amount, (le-div_iff_mul-le (scale_pos f.from)).1 whole)

-- An inverted rate exceeds the exact inverse by half a unit at most.
pub inverse_rate_bound : (r : ℕ) → inverse_rate r * r ≤ rate_scale * rate_scale + r / 2
unfolding inverse_rate
inverse_rate_bound r = div-mul-le_self (rate_scale * rate_scale + r / 2) r

module _ (s sd dd a r inv x z : ℕ) where
  back_scaled :
      x * (s * sd) ≤ a * r * dd
      → z * (s * dd) ≤ x * inv * sd
      → inv * r ≤ s * s + r / 2
      → z * (s * s) * (dd * r) ≤ (a * (s * s) + a * (r / 2)) * (dd * r)
  back_scaled there back inverse =
      let one : z * (s * dd) * (r * s) ≤ x * inv * sd * (r * s) = mul-le-mul_right (r * s) back in
      let two : x * (s * sd) * (inv * r) ≤ a * r * dd * (s * s + r / 2) =
        mul-le-mul there inverse in
      omega (arith, one, two)

  there_and_back :
      x * (s * sd) ≤ a * r * dd
      → z * (s * dd) ≤ x * inv * sd
      → inv * r ≤ s * s + r / 2
      → a * r < 2 * (s * s)
      → 0 < dd
      → 0 < r
      → z ≤ a
  there_and_back there back inverse small pd pr =
      let pos : 0 < dd * r = mul-le-mul pd pr in
      let kept : z * (s * s) ≤ a * (s * s) + a * (r / 2) =
        le_of_mul-le-mul_right (back_scaled there back inverse) pos in
      let half : a * (r / 2) * 2 ≤ a * r = omega (arith, mul-le-mul_left a (div-mul-le_self r 2)) in
      let less : z * (s * s) < (a + 1) * (s * s) = omega (arith, kept, half, small) in
      omega (arith, lt_of_mul-lt-mul_right (s * s) less)

-- Converting at a positive rate and back at its inverse never gains a minor unit, as long as the
-- amount times the rate stays below 2 * 10 ^ 36.
pub convert_back :
    (a r : ℕ) (source dest : String) (x z : ℕ)
    → 0 < r
    → a * r < 2 * (rate_scale * rate_scale)
    → convert a r source dest ≡ ok x
    → convert x (inverse_rate r) dest source ≡ ok z
    → z ≤ a
convert_back a r source dest x z pr small hx hz =
    let (s, d, ks, kd, there, _) = convert_floor a r source dest x hx in
    let (d', s', kd', ks', back, _) = convert_floor x (inverse_rate r) dest source z hz in
    let same : (10 ^ d' ≡ 10 ^ d) × (10 ^ s' ≡ 10 ^ s) = (
      ap (λ (n : ℕ). 10 ^ n) (same_decimals dest d' d kd' kd),
      ap (λ (n : ℕ). 10 ^ n) (same_decimals source s' s ks' ks),
    ) in
    let back' : z * (rate_scale * 10 ^ d) ≤ x * inverse_rate r * 10 ^ s =
      rw (← same.0, ← same.1) back in
    there_and_back rate_scale (10 ^ s) (10 ^ d) a r (inverse_rate r) x z there back'
      (inverse_rate_bound r) small (one-le-pow d 10 (omega arith)) pr
