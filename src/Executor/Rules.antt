-- ===== src/Executor/Rules.antt =====
-- What a computation ensures: of the state and its value where it returns, and of the state where
-- it throws, however its calls end. One rule for each way to build a computation.
use settlementos.Base.{◌≡◌, refl, subst, List, [], ◌∷◌, Result, ok, err}
use settlementos.Executor.State.{State, Payment, Error, Reply, works, lost, fails, reverts}
use settlementos.Executor.Calls.{
  M, Outcome, done, pure, throw, continue, recover, try_catch, call, answer, read, write, payment,
  assign, ◌>>=◌,
}

abbrev pub Holds {ℓ} : {A : Type ℓ} → (A → State → Type 0) → (State → Type 0) → Outcome A → Type 0
Holds returned thrown (done (ok a) s rs) = returned a s
Holds returned thrown (done (err e) s rs) = thrown s

pub record Ensures {ℓ} {A : Type ℓ} (before : State → Type 0) (m : M A)
    (returned : A → State → Type 0) (thrown : State → Type 0) : Type 0 where
  pub run : (s : State) (rs : List Reply) → before s → Holds returned thrown (m s rs)

ok-inj {ℓ} : {A : Type ℓ} {a b : A} → ◌≡◌ {A = Result Error A} (ok a) (ok b) → a ≡ b
ok-inj e = cc

returned_value {ℓ} :
    {A : Type ℓ} (Q : A → State → Type 0) (R : State → Type 0) (r : Result Error A) (s : State)
    (rs : List Reply)
    → ((a : A) → r ≡ ok a → Q a s)
    → R s
    → Holds Q R (done r s rs)
returned_value Q R (ok a) s rs q r = q a refl
returned_value Q R (err e) s rs q r = r

Holds-continue {ℓ κ} :
    {A : Type ℓ} {B : Type κ} {Q : A → State → Type 0} {Q' : B → State → Type 0}
    {R : State → Type 0} {f : A → M B} (o : Outcome A)
    → Holds Q R o
    → ((a : A) → Ensures (Q a) (f a) Q' R)
    → Holds Q' R (continue o f)
Holds-continue (done (ok a) s rs) q h = (h a).run s rs q
Holds-continue (done (err e) s rs) q h = q

Holds-recover {ℓ} :
    {A : Type ℓ} {Q : A → State → Type 0} {R R' : State → Type 0} {f : Error → M A} (o : Outcome A)
    → Holds Q R' o
    → ((e : Error) → Ensures R' (f e) Q R)
    → Holds Q R (recover o f)
Holds-recover (done (ok a) s rs) q h = q
Holds-recover (done (err e) s rs) q h = (h e).run s rs q

pub bind-Ensures {ℓ κ} :
    {A : Type ℓ} {B : Type κ} {P : State → Type 0} {Q : A → State → Type 0}
    {Q' : B → State → Type 0} {R : State → Type 0} {m : M A} {f : A → M B}
    → Ensures P m Q R
    → ((a : A) → Ensures (Q a) (f a) Q' R)
    → Ensures P (m >>= f) Q' R
unfolding ◌>>=◌
bind-Ensures {m} e h = record { run = λ s rs p. Holds-continue (m s rs) (e.run s rs p) h }

pub try-Ensures {ℓ} :
    {A : Type ℓ} {P : State → Type 0} {Q : A → State → Type 0} {R R' : State → Type 0} {m : M A}
    {f : Error → M A}
    → Ensures P m Q R'
    → ((e : Error) → Ensures R' (f e) Q R)
    → Ensures P (try_catch m f) Q R
unfolding try_catch
try-Ensures {m} e h = record { run = λ s rs p. Holds-recover (m s rs) (e.run s rs p) h }

Holds-relax {ℓ} :
    {A : Type ℓ} {Q Q' : A → State → Type 0} {R R' : State → Type 0} (o : Outcome A)
    → Holds Q' R' o
    → ((a : A) (s : State) → Q' a s → Q a s)
    → ((s : State) → R' s → R s)
    → Holds Q R o
Holds-relax (done (ok a) s rs) q h k = h a s q
Holds-relax (done (err e) s rs) q h k = k s q

Holds-answer {ℓ} :
    {A : Type ℓ} (Q : A → State → Type 0) (R : State → Type 0) (effect : State → State)
    (value : State → Result Error A) (r : Reply) (s : State) (rs : List Reply)
    → R s
    → R (effect s)
    → ((a : A) → value s ≡ ok a → Q a (effect s))
    → Holds Q R (answer r effect value s rs)
Holds-answer Q R f v works s rs h k l = returned_value Q R (v s) (f s) rs l k
Holds-answer Q R f v lost s rs h k l = k
Holds-answer Q R f v fails s rs h k l = h
Holds-answer Q R f v reverts s rs h k l = h

Holds-call {ℓ} :
    {A : Type ℓ} (Q : A → State → Type 0) (R : State → Type 0) (effect : State → State)
    (value : State → Result Error A) (s : State) (rs : List Reply)
    → R s
    → R (effect s)
    → ((a : A) → value s ≡ ok a → Q a (effect s))
    → Holds Q R (call effect value s rs)
unfolding call
Holds-call Q R f v s [] h k l = Holds-answer Q R f v works s [] h k l
Holds-call Q R f v s (r ∷ rs) h k l = Holds-answer Q R f v r s rs h k l

module _ {ℓ} {A : Type ℓ} {P : State → Type 0} {Q : A → State → Type 0} {R : State → Type 0} where
  pub pure-Ensures : (a : A) → ((s : State) → P s → Q a s) → Ensures P (pure a) Q R
  unfolding pure
  pure-Ensures a h = record { run = λ s rs p. h s p }

  pub throw-Ensures : (e : Error) → ((s : State) → P s → R s) → Ensures P (throw e) Q R
  unfolding throw
  throw-Ensures e h = record { run = λ s rs p. h s p }

  pub weaken :
      {P' : State → Type 0} {m : M A}
      → Ensures P' m Q R
      → ((s : State) → P s → P' s)
      → Ensures P m Q R
  weaken e h = record { run = λ s rs p. e.run s rs (h s p) }

  pub relax :
      {Q' : A → State → Type 0} {R' : State → Type 0} {m : M A}
      → Ensures P m Q' R'
      → ((a : A) (s : State) → Q' a s → Q a s)
      → ((s : State) → R' s → R s)
      → Ensures P m Q R
  relax {m} e h k = record { run = λ s rs p. Holds-relax (m s rs) (e.run s rs p) h k }

  -- A call: its effect happens or not, and it returns or throws.
  pub call-Ensures :
      {effect : State → State} {value : State → Result Error A}
      → ((s : State) → P s → R s)
      → ((s : State) → P s → R (effect s))
      → ((s : State) (a : A) → P s → value s ≡ ok a → Q a (effect s))
      → Ensures P (call effect value) Q R
  call-Ensures {effect} {value} none_of_it all_of_it works_out = record {
    run = λ s rs p.
        Holds-call Q R effect value s rs (none_of_it s p) (all_of_it s p)
          (λ a e. works_out s a p e);
  }

  pub read-Ensures :
      (value : State → A)
      → ((s : State) → P s → R s)
      → ((s : State) → P s → Q (value s) s)
      → Ensures P (read value) Q R
  read-Ensures value h k = call-Ensures h h (λ s a p e. subst (λ x. Q x s) (ok-inj e) (k s p))

pub write-Ensures :
    {P R : State → Type 0} {Q : Unit {0} → State → Type 0} {effect : State → State}
    → ((s : State) → P s → R s)
    → ((s : State) → P s → R (effect s))
    → ((s : State) → P s → Q tt (effect s))
    → Ensures P (write effect) Q R
write-Ensures h k l = call-Ensures h k (λ s a p e. l s p)

pub payment-Ensures :
    {P R : State → Type 0} {Q : Payment → State → Type 0}
    → ((s : State) → P s → Q s.local s)
    → Ensures P payment Q R
unfolding payment
payment-Ensures h = record { run = λ s rs p. h s p }

pub assign-Ensures :
    {P R : State → Type 0} {Q : Unit {0} → State → Type 0} (v : Payment)
    → ((s : State) → P s → Q tt (record s { local = v }))
    → Ensures P (assign v) Q R
unfolding assign
assign-Ensures v h = record { run = λ s rs p. h s p }

-- What keeps a property of the state whichever way it ends.
abbrev pub Keeps {ℓ} : {A : Type ℓ} → (State → Type 0) → M A → Type 0
Keeps I m = Ensures I m (λ _. I) I
