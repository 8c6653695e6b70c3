-- ===== src/Executor/Yields.antt =====
-- What a computation returns when all its calls work. One rule for each way to build it.
use settlementos.Base.{
  ◌≡◌, refl, sym, subst, Bool, true, false, [], ◌∷◌, if◌then◌else◌, Result, ok, err,
}
use settlementos.Lifecycle.{PaymentStatus, same, can_transition}
use settlementos.Lifecycle.Order.{same_iff}
use settlementos.Executor.State.{State, Payment, Error}
use settlementos.Executor.Calls.{
  M, Outcome, done, pure, continue, recover, try_catch, call, payment, assign, unless, ◌>>=◌,
}
use settlementos.Executor.Steps.{moved, swap, swapped, transition_status, advance}
use settlementos.Executor.Moves.{with_status}

-- It returned, and used no reply.
abbrev pub Returned {ℓ} : {A : Type ℓ} → (A → State → Type 0) → Outcome A → Type 0
Returned Q (done (ok a) s []) = Q a s
Returned Q (done (ok a) s (r ∷ rs)) = ⊥
Returned Q (done (err e) s rs) = ⊥

pub record Yields {ℓ} {A : Type ℓ} (before : State → Type 0) (m : M A) (after : A → State → Type 0)
    : Type 0 where
  pub run : (s : State) → before s → Returned after (m s [])

Returned-continue {ℓ κ} :
    {A : Type ℓ} {B : Type κ} {Q : A → State → Type 0} {Q' : B → State → Type 0} {f : A → M B}
    (o : Outcome A)
    → Returned Q o
    → ((a : A) → Yields (Q a) (f a) Q')
    → Returned Q' (continue o f)
Returned-continue (done (ok a) s []) q h = (h a).run s q
Returned-continue (done (ok a) s (r ∷ rs)) q h = absurd q
Returned-continue (done (err e) s rs) q h = absurd q

pub bind-Yields {ℓ κ} :
    {A : Type ℓ} {B : Type κ} {P : State → Type 0} {Q : A → State → Type 0}
    {Q' : B → State → Type 0} {m : M A} {f : A → M B}
    → Yields P m Q
    → ((a : A) → Yields (Q a) (f a) Q')
    → Yields P (m >>= f) Q'
unfolding ◌>>=◌
bind-Yields {m} e h = record { run = λ s p. Returned-continue (m s []) (e.run s p) h }

Returned-recover {ℓ} :
    {A : Type ℓ} (Q : A → State → Type 0) (f : Error → M A) (o : Outcome A)
    → Returned Q o
    → Returned Q (recover o f)
Returned-recover Q f (done (ok a) s []) q = q
Returned-recover Q f (done (ok a) s (r ∷ rs)) q = absurd q
Returned-recover Q f (done (err e) s rs) q = absurd q

pub try-Yields {ℓ} :
    {A : Type ℓ} {P : State → Type 0} {Q : A → State → Type 0} {m : M A} (f : Error → M A)
    → Yields P m Q
    → Yields P (try_catch m f) Q
unfolding try_catch
try-Yields {m} f e = record { run = λ s p. Returned-recover _ f (m s []) (e.run s p) }

pub pure-Yields {ℓ} :
    {A : Type ℓ} {P : State → Type 0} {Q : A → State → Type 0} (a : A)
    → ((s : State) → P s → Q a s)
    → Yields P (pure a) Q
unfolding pure
pure-Yields a h = record { run = h }

ok-Returned {ℓ} :
    {A : Type ℓ} (Q : A → State → Type 0) (r : Result Error A) (a : A) (s : State)
    → r ≡ ok a
    → Q a s
    → Returned Q (done r s [])
ok-Returned Q (ok b) a s h q = let e : a ≡ b = cc in subst (λ x. Q x s) e q
ok-Returned Q (err e) a s h q = cc

-- A call that returns a value.
pub call-Yields {ℓ} :
    {A : Type ℓ} {P : State → Type 0} {Q : A → State → Type 0} (effect : State → State)
    (value : State → Result Error A)
    → ((s : State) → P s → (a : A) × (value s ≡ ok a) × Q a (effect s))
    → Yields P (call effect value) Q
unfolding call
call-Yields {Q} effect value h = record {
  run = λ s p. let (a, e, q) = h s p in ok-Returned Q (value s) a (effect s) e q;
}

pub payment-Yields :
    {P : State → Type 0} {Q : Payment → State → Type 0}
    → ((s : State) → P s → Q s.local s)
    → Yields P payment Q
unfolding payment
payment-Yields h = record { run = h }

pub assign-Yields :
    {P : State → Type 0} {Q : Unit {0} → State → Type 0} (v : Payment)
    → ((s : State) → P s → Q tt (record s { local = v }))
    → Yields P (assign v) Q
unfolding assign
assign-Yields v h = record { run = h }

pub unless-Yields :
    {P : State → Type 0} (b : Bool) (e : Error) → b ≡ true → Yields P (unless b e) (λ _. P)
unless-Yields true e h = pure-Yields tt (λ s p. p)
unless-Yields false e h = cc

pub if-true {ℓ κ} :
    {T : Type ℓ} (C : T → Type κ) (b : Bool) {x : T} (y : T)
    → b ≡ true
    → C x
    → C (if b then x else y)
if-true C true y h c = c
if-true C false y h c = cc

transition-Yields :
    {P : State → Type 0} {Q : Payment → State → Type 0} (from to : PaymentStatus)
    (columns : Payment → Payment)
    → can_transition from to ≡ true
    → ((s : State) → P s → s.row.status ≡ from)
    → ((s : State) → P s → Q (moved to columns s.row) (with_status from to columns s))
    → Yields P (transition_status from to columns) Q
unfolding transition_status swap swapped
transition-Yields {P} {Q} from to columns legal at h = bind-Yields (unless-Yields _ _ legal) (λ u.
    call-Yields {Q = Q} (swap from to columns) (swapped from to columns) (λ s p.
      let here : same s.row.status from ≡ true = (same_iff s.row.status from).1 (at s p) in
      (
        moved to columns s.row,
        if-true (λ (r : Result Error Payment). r ≡ ok (moved to columns s.row))
            (same s.row.status from) _ here refl,
        if-true (Q (moved to columns s.row)) (same s.row.status from) _ here (h s p),
      )))

-- A legal change of status of a row that is where the variable is.
pub advance-Yields :
    {P : State → Type 0} {Q : Unit {0} → State → Type 0} (from to : PaymentStatus)
    (columns : Payment → Payment)
    → can_transition from to ≡ true
    → ((s : State) → P s → (s.local.status ≡ from) × (s.row.status ≡ from))
    → ((s : State)
        → P s
        → Q tt (record (with_status from to columns s) { local = moved to columns s.row }))
    → Yields P (advance to columns) Q
advance-Yields {P} {Q} from to columns legal at h =
    bind-Yields {Q = λ p s. Q tt (record s { local = p })}
      (bind-Yields {Q = λ p s. P s × (p.status ≡ from)} (payment-Yields (λ s p. (p, (at s p).0)))
        (λ p. record {
          run = λ s q.
              subst
                (λ f.
                  Returned (λ p s. Q tt (record s { local = p }))
                    (transition_status f to columns s []))
                (sym q.1)
                ((transition-Yields {P = P} {Q = λ p s. Q tt (record s { local = p })} from to
                    columns legal (λ s p. (at s p).1) h).run
                  s q.0);
        }))
      (λ p. assign-Yields p (λ s q. q))
