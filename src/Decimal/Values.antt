-- ===== src/Decimal/Values.antt =====
-- Reading digits, and the value of a text of digits.
use settlementos.Base.{
  ℕ, zero, suc, ◌+◌, ◌-◌, ◌*◌, ◌^◌, ◌≤◌, ◌<◌, ◌≡◌, refl, ap, Bool, true, ◌&&◌, List, [], ◌∷◌, ◌++◌,
  arith, leb, length, replicate, all,
}
use native.Mathlib.Nat.{pow-suc}

abbrev pub Text : Type 0
Text = List ℕ

abbrev pub is_digit : ℕ → Bool
is_digit c = leb b'0' c && leb c b'9'

-- Horner's rule over the digits, from `acc`.
unfoldable pub value : ℕ → Text → ℕ
value acc [] = acc
value acc (c ∷ s) = value (acc * 10 + (c - b'0')) s

-- `BigInt(digits)`.
abbrev pub to_bigint : Text → ℕ
to_bigint s = value 0 s

pub value-append : (a : ℕ) (s t : Text) → value a (s ++ t) ≡ value (value a s) t
unfolding value
value-append a [] t = refl
value-append a (c ∷ s) t = value-append (a * 10 + (c - b'0')) s t

pub pow_suc : (n : ℕ) → 10 ^ suc n ≡ 10 * 10 ^ n
pow_suc n = rw (pow-suc 10 n) (omega arith)

value-cons_zero : (c : ℕ) (s : Text) → value 0 (c ∷ s) ≡ value (c - b'0') s
unfolding value
value-cons_zero c s = ap (λ (n : ℕ). value n s) (omega arith)

value-cons : (a c : ℕ) (s : Text) → value a (c ∷ s) ≡ value (a * 10 + (c - b'0')) s
unfolding value
value-cons a c s = refl

pub value_shift : (a : ℕ) (s : Text) → value a s ≡ a * 10 ^ length s + value 0 s
value_shift a [] = unfold value in omega arith
value_shift a (c ∷ s) = omega (
  arith,
  value-cons a c s,
  value-cons_zero c s,
  value_shift (a * 10 + (c - b'0')) s,
  value_shift (c - b'0') s,
  ap (λ (n : ℕ). a * n) (pow_suc (length s)),
)

pub mul_mono_left : (d e n : ℕ) → d ≤ e → d * n ≤ e * n
mul_mono_left d e n h = grind arith

-- A text of digits is worth less than the power of ten of its length.
pub value-lt : (s : Text) → all is_digit s ≡ true → value 0 s < 10 ^ length s
value-lt [] h = unfold value in omega arith
value-lt (c ∷ s) h =
    let rest : value 0 s < 10 ^ length s = value-lt s (ground arith) in
    let digit : c - b'0' ≤ 9 = ground arith in
    omega (
      arith,
      rest,
      mul_mono_left (c - b'0') 9 (10 ^ length s) digit,
      value-cons_zero c s,
      value_shift (c - b'0') s,
      pow_suc (length s),
    )

pub value-replicate : (a n : ℕ) → value a (replicate n b'0') ≡ a * 10 ^ n
value-replicate a zero = unfold value in omega arith
value-replicate a (suc n) = omega (
  arith,
  value-cons a b'0' (replicate n b'0'),
  value-replicate (a * 10 + 0) n,
  ap (λ (m : ℕ). a * m) (pow_suc n),
)
