-- ===== src/Money/Grammar.antt =====
-- What the grammar accepts, and what an accepted text is worth.
use settlementos.Base.{
  ℕ, ◌+◌, ◌-◌, ◌*◌, ◌^◌, ◌≤◌, ◌<◌, ◌≡◌, refl, ap, ◌∙◌, true, List, [], ◌∷◌, ◌++◌, arith, length,
  all, ok, length-append, replicate,
}
use native.Mathlib.Nat.{pow-le-pow_right}
use settlementos.Decimal.{
  Text, is_digit, value, value-lt, split, part_or_empty, pad_end, split_digits, split-append_sep,
  all-append, all-replicate_zero, length-replicate, value-pad_end, mul_mono_left,
}
use settlementos.Money.{text, is_digits, canonical_parts, or_zero, parse_scaled_units}

pub is_digits_iff : (s : Text) → all is_digit s ≡ true → 0 < length s → is_digits s ≡ true
is_digits_iff [] h k = elim k [ ]
is_digits_iff (c ∷ s) h k = h

is_digits-all : (s : Text) → is_digits s ≡ true → (all is_digit s ≡ true) × (0 < length s)
is_digits-all [] h = cc
is_digits-all (c ∷ s) h = (h, omega arith)

value-or_zero : (s : Text) → value 0 (or_zero s) ≡ value 0 s
unfolding value
value-or_zero [] = refl
value-or_zero (c ∷ s) = refl

-- The two parts of a text that the grammar accepts.
pub record IsAccepted (v : Text) (d u : ℕ) : Type 0 where
  pub whole_digits : all is_digit (part_or_empty 0 (split b'.' v)) ≡ true
  pub frac_digits : all is_digit (part_or_empty 1 (split b'.' v)) ≡ true
  pub whole_pos : 0 < length (part_or_empty 0 (split b'.' v))
  pub whole_short : length (part_or_empty 0 (split b'.' v)) ≤ 15
  pub frac_short : length (part_or_empty 1 (split b'.' v)) ≤ d
  pub worth :
      u
      ≡ value 0 (part_or_empty 0 (split b'.' v)) * 10 ^ d
        + value 0 (pad_end d b'0' (part_or_empty 1 (split b'.' v)))

parts_digits :
    (ps : List Text)
    → canonical_parts ps ≡ true
    → (all is_digit (part_or_empty 0 ps) ≡ true)
      × (all is_digit (part_or_empty 1 ps) ≡ true)
      × (0 < length (part_or_empty 0 ps))
parts_digits [] h = cc
parts_digits (w ∷ []) h = ((is_digits-all w h).0, refl, (is_digits-all w h).1)
parts_digits (w ∷ f ∷ []) h =
    let whole = is_digits-all w (ground arith) in
    let frac = is_digits-all f (ground arith) in (whole.0, frac.0, whole.1)
parts_digits (w ∷ f ∷ g ∷ ps) h = cc

pub parse_scaled_units-IsAccepted :
    (v : Text) (d u : ℕ) → parse_scaled_units (text v) d ≡ ok u → IsAccepted v d u
unfolding parse_scaled_units
parse_scaled_units-IsAccepted v d u h =
    let canonical : canonical_parts (split b'.' v) ≡ true = ground arith in
    let digits = parts_digits (split b'.' v) canonical in
    let same = value-or_zero (pad_end d b'0' (part_or_empty 1 (split b'.' v))) in
    record {
      whole_digits = digits.0;
      frac_digits = digits.1;
      whole_pos = digits.2;
      whole_short = ground arith;
      frac_short = ground arith;
      worth = ground (arith, same);
    }

pub all-pad_end :
    (d : ℕ) (f : Text) → all is_digit f ≡ true → all is_digit (pad_end d b'0' f) ≡ true
all-pad_end d f h =
    all-append f (replicate (d - length f) b'0') h (all-replicate_zero (d - length f))

pub length-pad_end : (d : ℕ) (f : Text) → length f ≤ d → length (pad_end d b'0' f) ≡ d
length-pad_end d f h = omega (
  arith,
  length-append f (replicate (d - length f) b'0'),
  length-replicate {A = ℕ} (d - length f) b'0',
)

ten_pow_le : (m n : ℕ) → m ≤ n → 10 ^ m ≤ 10 ^ n
ten_pow_le m n h = pow-le-pow_right (omega arith) h

-- An accepted text is worth less than 10 ^ 15 whole units.
pub parse_scaled_units-lt :
    (v : Text) (d u : ℕ) → parse_scaled_units (text v) d ≡ ok u → u < 10 ^ 15 * 10 ^ d
parse_scaled_units-lt v d u h =
    let a = parse_scaled_units-IsAccepted v d u h in
    let w : Text = part_or_empty 0 (split b'.' v) in
    let g : Text = part_or_empty 1 (split b'.' v) in
    let f : Text = pad_end d b'0' g in
    let whole : value 0 w < 10 ^ length w = value-lt w a.whole_digits in
    let short : 10 ^ length w ≤ 10 ^ 15 = ten_pow_le (length w) 15 a.whole_short in
    let frac : value 0 f < 10 ^ length f = value-lt f (all-pad_end d g a.frac_digits) in
    let wide : 10 ^ length f ≡ 10 ^ d = ap (λ (n : ℕ). 10 ^ n) (length-pad_end d g a.frac_short) in
    omega (
      arith,
      a.worth,
      frac,
      wide,
      mul_mono_left (value 0 w + 1) (10 ^ 15) (10 ^ d) (omega (arith, whole, short)),
    )

-- Two runs of digits that fit are accepted, at their value.
pub parse_two_parts :
    (w f : Text) (d : ℕ)
    → all is_digit w ≡ true
    → all is_digit f ≡ true
    → 0 < length w
    → length w ≤ 15
    → 0 < length f
    → length f ≤ d
    → parse_scaled_units (text (w ++ b'.' ∷ f)) d
      ≡ ok (value 0 w * 10 ^ d + value 0 f * 10 ^ (d - length f))
unfolding parse_scaled_units
parse_two_parts w f d hw hf pw sw pf sf =
    rw
      (
        split-append_sep w f hw,
        split_digits f hf,
        is_digits_iff w hw pw,
        is_digits_iff f hf pf,
        value-or_zero (pad_end d b'0' f),
        value-pad_end d f,
      )
      (ground arith)

-- So is one run of digits.
pub parse_one_part :
    (w : Text) (d : ℕ)
    → all is_digit w ≡ true
    → 0 < length w
    → length w ≤ 15
    → parse_scaled_units (text w) d ≡ ok (value 0 w * 10 ^ d)
unfolding parse_scaled_units
parse_one_part w d hw pw sw =
    let zeros : value 0 (pad_end d b'0' []) ≡ 0 =
      value-pad_end d [] ∙ (unfold value in omega arith) in
    rw (split_digits w hw, is_digits_iff w hw pw, value-or_zero (pad_end d b'0' []), zeros)
      (ground arith)
