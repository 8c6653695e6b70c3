-- ===== src/Decimal/Printing.antt =====
-- `bigint.toString()`, with its inverse, its digits and its length.
use settlementos.Base.{
  ℕ, zero, suc, ◌+◌, ◌/◌, ◌%◌, ◌^◌, ◌≤◌, ◌<◌, ◌≡◌, refl, sym, ap, ◌∙◌, true, [], ◌∷◌, arith, ltb,
  if◌then◌else◌, length, all, Bool-cases, inl, inr,
}
use settlementos.Decimal.Values.{Text, is_digit, value, pow_suc}

-- The digits of `n`, before those already written; a digit is written in each round.
show_from : ℕ → ℕ → Text → Text
show_from zero n acc = acc
show_from (suc fuel) n acc =
    let digits = (b'0' + n % 10) ∷ acc in
    let rest = show_from fuel (n / 10) digits in if ltb n 10 then digits else rest

unfoldable pub to_text : ℕ → Text
unfolding show_from
to_text n = show_from (suc n) n []

value-show_from :
    (fuel n : ℕ) (acc : Text) → n < fuel → value 0 (show_from fuel n acc) ≡ value n acc
unfolding show_from
value-show_from zero n acc h = elim h [ ]
value-show_from (suc fuel) n acc h = elim (Bool-cases (ltb n 10)) [
  | inl small ↦ rw small (unfold value in ap (λ (m : ℕ). value m acc) (ground arith))
  | inr large ↦ rw large (
      value-show_from fuel (n / 10) ((b'0' + n % 10) ∷ acc) (ground arith)
      ∙ (unfold value in ap (λ (m : ℕ). value m acc) (omega arith)))
]

-- Reading what was printed gives the number back.
pub value-to_text : (n : ℕ) → value 0 (to_text n) ≡ n
unfolding to_text
value-to_text n = unfold value in value-show_from (suc n) n [] (omega arith)

all-show_from :
    (fuel n : ℕ) (acc : Text) → all is_digit acc ≡ true → all is_digit (show_from fuel n acc) ≡ true
unfolding show_from
all-show_from zero n acc h = h
all-show_from (suc fuel) n acc h =
    let digits : all is_digit ((b'0' + n % 10) ∷ acc) ≡ true = ground arith in
    ground (arith, digits, all-show_from fuel (n / 10) ((b'0' + n % 10) ∷ acc))

pub all-to_text : (n : ℕ) → all is_digit (to_text n) ≡ true
unfolding to_text
all-to_text n = all-show_from (suc n) n [] refl

length-show_from :
    (fuel n k : ℕ) (acc : Text)
    → n < 10 ^ suc k
    → length (show_from fuel n acc) ≤ suc k + length acc
unfolding show_from
length-show_from zero n k acc h = omega arith
length-show_from (suc fuel) n zero acc h = ground arith
length-show_from (suc fuel) n (suc k) acc h =
    ground (arith, pow_suc (suc k), length-show_from fuel (n / 10) k ((b'0' + n % 10) ∷ acc))

-- A number below 10 ^ (k + 1) takes at most k + 1 digits.
pub length-to_text : (n k : ℕ) → n < 10 ^ suc k → length (to_text n) ≤ suc k
unfolding to_text
length-to_text n k h = omega (arith, length-show_from (suc n) n k [] h)

length-show_from_pos : (fuel n : ℕ) (acc : Text) → length acc < length (show_from (suc fuel) n acc)
unfolding show_from
length-show_from_pos zero n acc = ground arith
length-show_from_pos (suc fuel) n acc =
    ground (arith, length-show_from_pos fuel (n / 10) ((b'0' + n % 10) ∷ acc))

pub length-to_text_pos : (n : ℕ) → 0 < length (to_text n)
unfolding to_text
length-to_text_pos n = length-show_from_pos n n []

pub to_text_inj : (m n : ℕ) → to_text m ≡ to_text n → m ≡ n
to_text_inj m n e = sym (value-to_text m) ∙ ap (value 0) e ∙ value-to_text n
