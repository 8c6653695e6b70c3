-- ===== src/Base/Programs.antt =====
-- Code that reads and changes a state and may throw, with one rule for each way to build it: what
-- it ensures of the state and its value where it returns, and of the state where it throws.
use mathlib.Core.Path.{◌≡◌, refl}
use mathlib.Core.Bool.{Bool, true, false}
use settlementos.Base.{Result, ok, err}

abbrev pub Program {ℓ} : Type 0 → Type 0 → Type ℓ → Type ℓ
Program S E A = S → Result E A × S

module _ {S E : Type 0} where
  unfoldable pub pure {ℓ} : {A : Type ℓ} → A → Program S E A
  pure a s = (ok a, s)

  unfoldable pub throw {ℓ} : {A : Type ℓ} → E → Program S E A
  throw e s = (err e, s)

  abbrev pub continue {ℓ κ} :
      {A : Type ℓ} {B : Type κ} → Result E A × S → (A → Program S E B) → Result E B × S
  continue (ok a, s) next = next a s
  continue (err e, s) next = (err e, s)

  unfoldable pub bind {ℓ κ} :
      {A : Type ℓ} {B : Type κ} → Program S E A → (A → Program S E B) → Program S E B
  bind m next s = continue (m s) next

  abbrev pub recovered {ℓ} : {A : Type ℓ} → Result E A × S → (E → Program S E A) → Result E A × S
  recovered (ok a, s) handler = (ok a, s)
  recovered (err e, s) handler = handler e s

  -- `try { body } catch (e) { handler }`.
  unfoldable pub try_catch {ℓ} : {A : Type ℓ} → Program S E A → (E → Program S E A) → Program S E A
  try_catch body handler s = recovered (body s) handler

  -- The errors of a part, as errors of the whole.
  abbrev pub retyped {ℓ} : {F : Type 0} {A : Type ℓ} → (F → E) → Result F A × S → Result E A × S
  retyped f (ok a, s) = (ok a, s)
  retyped f (err e, s) = (err (f e), s)

  unfoldable pub with_error {ℓ} :
      {F : Type 0} {A : Type ℓ} → (F → E) → Program S F A → Program S E A
  with_error f m s = retyped f (m s)

  abbrev pub lift {ℓ} : {A : Type ℓ} → Result E A → Program S E A
  lift (ok a) = pure a
  lift (err e) = throw e

  -- `if (bad) throw e`.
  abbrev pub throw_when : Bool → E → Program S E (Unit {0})
  throw_when true e = throw e
  throw_when false e = pure tt

  abbrev pub Holds {ℓ} : {A : Type ℓ} → (A → S → Type 0) → (S → Type 0) → Result E A × S → Type 0
  Holds returned thrown (ok a, s) = returned a s
  Holds returned thrown (err e, s) = thrown s

infixl 5 ◌>>=◌ ◌>>◌
abbrev pub ◌>>=◌ {ℓ κ} :
    {S E : Type 0} {A : Type ℓ} {B : Type κ} → Program S E A → (A → Program S E B) → Program S E B
m >>= next = bind m next

abbrev pub ◌>>◌ {ℓ κ} :
    {S E : Type 0} {A : Type ℓ} {B : Type κ} → Program S E A → Program S E B → Program S E B
first >> second = bind first (λ _. second)

pub record Ensures {ℓ} {S E : Type 0} {A : Type ℓ} (before : S → Type 0) (m : Program S E A)
    (returned : A → S → Type 0) (thrown : S → Type 0) : Type 0 where
  pub run : (s : S) → before s → Holds returned thrown (m s)

module _ {S E : Type 0} where
  Holds-continue {ℓ κ} :
      {A : Type ℓ} {B : Type κ} {Q : A → S → Type 0} {Q' : B → S → Type 0} {R : S → Type 0}
      {f : A → Program S E B} (o : Result E A × S)
      → Holds Q R o
      → ((a : A) → Ensures (Q a) (f a) Q' R)
      → Holds Q' R (continue o f)
  Holds-continue (ok a, s) q h = (h a).run s q
  Holds-continue (err e, s) q h = q

  pub bind-Ensures {ℓ κ} :
      {A : Type ℓ} {B : Type κ} {P : S → Type 0} {Q : A → S → Type 0} {Q' : B → S → Type 0}
      {R : S → Type 0} {m : Program S E A} {f : A → Program S E B}
      → Ensures P m Q R
      → ((a : A) → Ensures (Q a) (f a) Q' R)
      → Ensures P (bind m f) Q' R
  unfolding bind
  bind-Ensures {m} e h = record { run = λ s p. Holds-continue (m s) (e.run s p) h }

  Holds-relax {ℓ} :
      {A : Type ℓ} {Q Q' : A → S → Type 0} {R R' : S → Type 0} (o : Result E A × S)
      → Holds Q' R' o
      → ((a : A) (s : S) → Q' a s → Q a s)
      → ((s : S) → R' s → R s)
      → Holds Q R o
  Holds-relax (ok a, s) q h k = h a s q
  Holds-relax (err e, s) q h k = k s q

module _ {ℓ} {S E : Type 0} {A : Type ℓ} {P : S → Type 0} {Q : A → S → Type 0}
    {R : S → Type 0} where
  pub pure-Ensures : (a : A) → ((s : S) → P s → Q a s) → Ensures {E = E} P (pure a) Q R
  unfolding pure
  pure-Ensures a h = record { run = λ s p. h s p }

  pub throw-Ensures : (e : E) → ((s : S) → P s → R s) → Ensures P (throw e) Q R
  unfolding throw
  throw-Ensures e h = record { run = λ s p. h s p }

  pub lift-Ensures :
      (r : Result E A)
      → ((a : A) (s : S) → r ≡ ok a → P s → Q a s)
      → ((s : S) → P s → R s)
      → Ensures P (lift r) Q R
  lift-Ensures (ok a) h k = pure-Ensures a (λ s p. h a s refl p)
  lift-Ensures (err e) h k = throw-Ensures e k

  pub weaken :
      {P' : S → Type 0} {m : Program S E A}
      → Ensures P' m Q R
      → ((s : S) → P s → P' s)
      → Ensures P m Q R
  weaken e h = record { run = λ s p. e.run s (h s p) }

  pub relax :
      {Q' : A → S → Type 0} {R' : S → Type 0} {m : Program S E A}
      → Ensures P m Q' R'
      → ((a : A) (s : S) → Q' a s → Q a s)
      → ((s : S) → R' s → R s)
      → Ensures P m Q R
  relax {m} e h k = record { run = λ s p. Holds-relax (m s) (e.run s p) h k }

module _ {S E : Type 0} {P R : S → Type 0} {Q : Unit {0} → S → Type 0} where
  pub throw_when-Ensures :
      (b : Bool) (e : E)
      → ((s : S) → b ≡ false → P s → Q tt s)
      → ((s : S) → P s → R s)
      → Ensures P (throw_when b e) Q R
  throw_when-Ensures true e h k = throw-Ensures e k
  throw_when-Ensures false e h k = pure-Ensures tt (λ s p. h s refl p)

module _ {ℓ} {S E : Type 0} {A : Type ℓ} (Q Q' : A → S → Type 0) (R : S → Type 0) where
  Holds-both : (o : Result E A × S) → Holds Q R o → Holds Q' R o → Holds (λ a s. Q a s × Q' a s) R o
  Holds-both (ok a, s) h g = (h, g)
  Holds-both (err e, s) h g = h

  -- Two facts of the same computation.
  pub both-Ensures :
      {P P' : S → Type 0} {m : Program S E A}
      → Ensures P m Q R
      → Ensures P' m Q' R
      → Ensures (λ s. P s × P' s) m (λ a s. Q a s × Q' a s) R
  both-Ensures {m} h g = record { run = λ s p. Holds-both (m s) (h.run s p.0) (g.run s p.1) }
