-- ===== src/Decimal/Splitting.antt =====
-- `split(".")`, `padStart`, `padEnd` and `slice` with a negative index.
use settlementos.Base.{
  ℕ, zero, suc, ◌-◌, ◌*◌, ◌^◌, ◌≤◌, ◌≡◌, refl, ap, ◌∙◌, true, List, [], ◌∷◌, ◌++◌, arith, ◌==◌,
  if◌then◌else◌, length, take, drop, replicate, all, length-append,
}
use settlementos.Decimal.Values.{Text, is_digit, value, value-append, value-replicate}

abbrev pub cons_head : ℕ → List Text → List Text
cons_head c [] = (c ∷ []) ∷ []
cons_head c (p ∷ ps) = (c ∷ p) ∷ ps

-- `text.split(separator)` for a separator of one character.
unfoldable pub split : ℕ → Text → List Text
split sep [] = [] ∷ []
split sep (c ∷ s) = if c == sep then [] ∷ split sep s else cons_head c (split sep s)

-- `parts[i]`, or the empty text where there is none.
abbrev pub part_or_empty : ℕ → List Text → Text
part_or_empty i [] = []
part_or_empty zero (p ∷ ps) = p
part_or_empty (suc i) (p ∷ ps) = part_or_empty i ps

abbrev pub pad_start : ℕ → ℕ → Text → Text
pad_start n c s = replicate (n - length s) c ++ s

abbrev pub pad_end : ℕ → ℕ → Text → Text
pad_end n c s = s ++ replicate (n - length s) c

-- `s.slice(0, -n)` and `s.slice(-n)`, for a positive `n`.
abbrev pub drop_last : ℕ → Text → Text
drop_last n s = take (length s - n) s

abbrev pub take_last : ℕ → Text → Text
take_last n s = drop (length s - n) s

pub split_digits : (s : Text) → all is_digit s ≡ true → split b'.' s ≡ s ∷ []
unfolding split
split_digits [] h = refl
split_digits (c ∷ s) h = ground (arith, split_digits s)

pub split-append_sep :
    (w f : Text) → all is_digit w ≡ true → split b'.' (w ++ b'.' ∷ f) ≡ w ∷ split b'.' f
unfolding split
split-append_sep [] f h = refl
split-append_sep (c ∷ w) f h = ground (arith, split-append_sep w f)

pub all-replicate_zero : (n : ℕ) → all is_digit (replicate n b'0') ≡ true
all-replicate_zero zero = refl
all-replicate_zero (suc n) = all-replicate_zero n

pub all-append :
    (s t : Text) → all is_digit s ≡ true → all is_digit t ≡ true → all is_digit (s ++ t) ≡ true
all-append [] t h k = k
all-append (c ∷ s) t h k = ground (arith, all-append s t)

pub all-take : (n : ℕ) (s : Text) → all is_digit s ≡ true → all is_digit (take n s) ≡ true
all-take zero s h = refl
all-take (suc n) [] h = refl
all-take (suc n) (c ∷ s) h = ground (arith, all-take n s)

pub all-drop : (n : ℕ) (s : Text) → all is_digit s ≡ true → all is_digit (drop n s) ≡ true
all-drop zero s h = h
all-drop (suc n) [] h = refl
all-drop (suc n) (c ∷ s) h = all-drop n s (ground arith)

pub length-replicate {ℓ} : {A : Type ℓ} (n : ℕ) (a : A) → length (replicate n a) ≡ n
length-replicate zero a = refl
length-replicate (suc n) a = ap suc (length-replicate n a)

pub length-pad_start : (n c : ℕ) (s : Text) → length s ≤ n → length (pad_start n c s) ≡ n
length-pad_start n c s h =
    omega (arith, length-append (replicate (n - length s) c) s, length-replicate (n - length s) c)

-- Zeros in front change no value.
pub value-pad_start : (n : ℕ) (s : Text) → value 0 (pad_start n b'0' s) ≡ value 0 s
value-pad_start n s =
    value-append 0 (replicate (n - length s) b'0') s
    ∙ ap (λ (a : ℕ). value a s) (omega (arith, value-replicate 0 (n - length s)))

-- Zeros behind scale a value.
pub value-pad_end :
    (n : ℕ) (s : Text) → value 0 (pad_end n b'0' s) ≡ value 0 s * 10 ^ (n - length s)
value-pad_end n s =
    value-append 0 s (replicate (n - length s) b'0') ∙ value-replicate (value 0 s) (n - length s)
