-- ===== src/Money/Roundtrip.antt =====
-- Formatting and parsing are inverse to one another on what the grammar accepts.
use settlementos.Base.{
  ℕ, zero, suc, ◌+◌, ◌-◌, ◌*◌, ◌^◌, ◌≤◌, ◌<◌, ◌≡◌, ap, sym, ◌∙◌, true, false, ◌∷◌, ◌++◌, arith, leb,
  length, all, Result, ok, >>=-eq-ok, ◌≢◌, length-append, replicate, take-append-drop, length-take,
  take, drop, length-drop,
}
use native.Mathlib.Nat.{zero-add}
use settlementos.Base.Texts.{String}
use settlementos.Decimal.{
  Text, is_digit, value, value_shift, value-append, to_text, value-to_text, all-to_text,
  length-to_text, length-to_text_pos, pad_start, drop_last, take_last, pow_suc, all-take, all-drop,
  length-replicate, all-append, all-replicate_zero, value-pad_start,
}
use settlementos.Money.{
  MoneyError, Unknown, text, other, currency_decimals, parse_scaled_units, parse_amount,
  format_scaled_units, format_minor_units, canonical_amount,
}
use settlementos.Money.Grammar.{parse_two_parts, parse_one_part, parse_scaled_units-lt}

abbrev padded : ℕ → ℕ → Text
padded u d = pad_start (d + 1) b'0' (to_text u)

padded_digits : (u d : ℕ) → all is_digit (padded u d) ≡ true
padded_digits u d =
    all-append (replicate (d + 1 - length (to_text u)) b'0') (to_text u)
      (all-replicate_zero (d + 1 - length (to_text u))) (all-to_text u)

padded_long : (u d : ℕ) → d + 1 ≤ length (padded u d)
padded_long u d = omega (
  arith,
  length-append (replicate (d + 1 - length (to_text u)) b'0') (to_text u),
  length-replicate {A = ℕ} (d + 1 - length (to_text u)) b'0',
)

ten_pow-add : (m n : ℕ) → 10 ^ m * 10 ^ n ≡ 10 ^ (m + n)
ten_pow-add zero n = rw zero-add (omega arith)
ten_pow-add (suc m) n =
    let shifted : 10 ^ (suc m + n) ≡ 10 ^ suc (m + n) = ap (λ (k : ℕ). 10 ^ k) (omega arith) in
    omega (arith, pow_suc (m + n), shifted, ten_pow-add m n, ap (λ (k : ℕ). k * 10 ^ n) (pow_suc m))

padded_short : (u d : ℕ) → u < 10 ^ 15 * 10 ^ d → length (padded u d) ≤ 15 + d
padded_short u d h =
    let shifted : 10 ^ (15 + d) ≡ 10 ^ suc (14 + d) = ap (λ (k : ℕ). 10 ^ k) (omega arith) in
    let bound : u < 10 ^ suc (14 + d) = omega (arith, h, ten_pow-add 15 d, shifted) in
    omega (
      arith,
      length-append (replicate (d + 1 - length (to_text u)) b'0') (to_text u),
      length-replicate {A = ℕ} (d + 1 - length (to_text u)) b'0',
      length-to_text u (14 + d) bound,
    )

-- What the two slices of the padded digits are worth together.
pub slices_worth :
    (u d : ℕ) → value 0 (drop_last d (padded u d)) * 10 ^ d + value 0 (take_last d (padded u d)) ≡ u
slices_worth u d =
    let p : Text = padded u d in
    let n : ℕ = length p - d in
    let whole : value 0 (take n p ++ drop n p) ≡ u =
      ap (value 0) (take-append-drop n p) ∙ value-pad_start (d + 1) (to_text u) ∙ value-to_text u in
    let long : 10 ^ length (drop n p) ≡ 10 ^ d =
      ap (λ (k : ℕ). 10 ^ k) (omega (arith, length-drop n p, padded_long u d)) in
    omega (
      arith,
      whole,
      value-append 0 (take n p) (drop n p),
      value_shift (value 0 (take n p)) (drop n p),
      ap (λ (k : ℕ). value 0 (take n p) * k) long,
    )

format_suc :
    (u d : ℕ)
    → format_scaled_units u (suc d)
      ≡ drop_last (suc d) (padded u (suc d)) ++ b'.' ∷ take_last (suc d) (padded u (suc d))
unfolding format_scaled_units
format_suc u d = ground arith

-- Formatting and then parsing at the same precision gives back every amount below 10 ^ 15 whole
-- units.
pub parse-format_scaled_units :
    (u d : ℕ) → u < 10 ^ 15 * 10 ^ d → parse_scaled_units (text (format_scaled_units u d)) d ≡ ok u
unfolding format_scaled_units
parse-format_scaled_units u zero h =
    let short : u < 10 ^ suc 14 = omega (arith, h) in
    parse_one_part (to_text u) zero (all-to_text u) (length-to_text_pos u)
      (length-to_text u 14 short)
    ∙ ap {B = Result MoneyError ℕ} ok (omega (arith, value-to_text u))
parse-format_scaled_units u (suc d) h =
    let p : Text = padded u (suc d) in
    let n : ℕ = length p - suc d in
    let w = length-take n p in
    let f = length-drop n p in
    let long = padded_long u (suc d) in
    let short = padded_short u (suc d) h in
    let none_left : suc d - length (drop n p) ≡ 0 = omega (arith, f, long) in
    let exact : 10 ^ (suc d - length (drop n p)) ≡ 1 = ap (λ (k : ℕ). 10 ^ k) none_left in
    let total : value 0 (take n p) * 10 ^ suc d
          + value 0 (drop n p) * 10 ^ (suc d - length (drop n p))
        ≡ u =
      omega (arith, slices_worth u (suc d), ap (λ (k : ℕ). value 0 (drop n p) * k) exact) in
    ap (λ (t : Text). parse_scaled_units (text t) (suc d)) (format_suc u d)
    ∙ parse_two_parts (take n p) (drop n p) (suc d) (all-take n p (padded_digits u (suc d)))
        (all-drop n p (padded_digits u (suc d))) (omega (arith, w, long)) (omega (arith, w, short))
        (omega (arith, f, long)) (omega (arith, f, long))
    ∙ ap {B = Result MoneyError ℕ} ok total

-- A text that is accepted is worth as much once it is in canonical form.
pub parse-format-parse :
    (v : Text) (d u : ℕ)
    → parse_scaled_units (text v) d ≡ ok u
    → parse_scaled_units (text (format_scaled_units u d)) d ≡ ok u
parse-format-parse v d u h = parse-format_scaled_units u d (parse_scaled_units-lt v d u h)

-- An accepted amount of a known currency, with its precision.
pub parse_amount_parts :
    (a : Unknown) (currency : String) (u : ℕ)
    → parse_amount a currency ≡ ok u
    → (d : ℕ) × (currency_decimals currency ≡ ok d)
      × (parse_scaled_units a d ≡ ok u)
      × (leb u 0 ≡ false)
unfolding parse_amount
parse_amount_parts a currency u h =
    let (d, known, rest) = >>=-eq-ok (currency_decimals currency) _ h in
    let (u', parsed, tested) = >>=-eq-ok (parse_scaled_units a d) _ rest in
    let same : u' ≡ u = ground arith in (d, known, rw (← same) parsed, rw (← same) (ground arith))

parse_amount_of_parts :
    (a : Unknown) (currency : String) (u d : ℕ)
    → currency_decimals currency ≡ ok d
    → parse_scaled_units a d ≡ ok u
    → leb u 0 ≡ false
    → parse_amount a currency ≡ ok u
unfolding parse_amount
parse_amount_of_parts a currency u d e p k = rw (e, p, k)

parse_scaled_units-other : (d u : ℕ) → parse_scaled_units other d ≢ ok u
unfolding parse_scaled_units
parse_scaled_units-other d u h = cc

parse-format_unknown :
    (a : Unknown) (d u : ℕ)
    → parse_scaled_units a d ≡ ok u
    → parse_scaled_units (text (format_scaled_units u d)) d ≡ ok u
parse-format_unknown (text v) d u h = parse-format-parse v d u h
parse-format_unknown other d u h = absurd (parse_scaled_units-other d u h)

-- The stored form of a client's amount is worth what the client sent, and is its own stored form.
pub canonical_amount_stable :
    (a : Unknown) (currency : String) (t : Text)
    → canonical_amount a currency ≡ ok t
    → (parse_amount (text t) currency ≡ parse_amount a currency)
      × (canonical_amount (text t) currency ≡ ok t)
unfolding canonical_amount format_minor_units
canonical_amount_stable a currency t h =
    let (u, parsed, rest) = >>=-eq-ok (parse_amount a currency) _ h in
    let (d, known, accepted, positive) = parse_amount_parts a currency u parsed in
    let written : format_scaled_units u d ≡ t = ground (arith, known) in
    let again : parse_amount (text t) currency ≡ ok u =
      rw (← written) (
        parse_amount_of_parts _ currency u d known (parse-format_unknown a d u accepted)
          positive) in
    (again ∙ sym parsed, rw (again, known, written))
