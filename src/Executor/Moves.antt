-- ===== src/Executor/Moves.antt =====
-- The rules for a change of status and for the lease.
use settlementos.Base.{
  ◌≡◌, refl, subst, ℕ, Bool, true, false, [], ◌∷◌, ◌++◌, if◌then◌else◌, Option, none, some, Result,
  ok, err, arith,
}
use settlementos.Lifecycle.{PaymentStatus, same}
use settlementos.Lifecycle.Order.{same_iff}
use settlementos.Executor.State.{State, Payment, Error, status_change}
use settlementos.Executor.Calls.{M, Outcome, done, call, unless, quietly}
use settlementos.Executor.Steps.{
  moved, swap, swapped, update_columns, transition_status, set_status, advance, claim, claimed,
  claimable, release_lease, random_uuid, try_finally, after, with_execution_lease,
}
use settlementos.Executor.Rules.{
  Ensures, Holds, Keeps, pure-Ensures, throw-Ensures, bind-Ensures, try-Ensures, call-Ensures,
  payment-Ensures, assign-Ensures,
}

-- The state after a change of status.
abbrev pub with_status : PaymentStatus → PaymentStatus → (Payment → Payment) → State → State
with_status from to columns s = record s {
  row = moved to columns s.row;
  log = s.log ++ status_change from to ∷ [];
}

pub if-holds {ℓ κ} :
    {T : Type ℓ} (C : T → Type κ) (b : Bool) {x y : T} → C x → C y → C (if b then x else y)
if-holds C true h k = h
if-holds C false h k = k

if-ok {ℓ} :
    {A : Type ℓ} (Q : A → State → Type 0) (b : Bool) (x a : A) (e : Error) (t s : State)
    → ◌≡◌ {A = Result Error A} (if b then ok x else err e) (ok a)
    → (b ≡ true → Q x t)
    → Q a (if b then t else s)
if-ok Q true x a e t s h k = let e' : x ≡ a = cc in subst (λ y. Q y t) e' (k refl)
if-ok Q false x a e t s h k = cc

pub unless-Ensures :
    {P R : State → Type 0} {Q : Unit {0} → State → Type 0} (b : Bool) (e : Error)
    → ((s : State) → P s → b ≡ true → Q tt s)
    → ((s : State) → P s → R s)
    → Ensures P (unless b e) Q R
unless-Ensures true e h k = pure-Ensures _ (λ s p. h s p refl)
unless-Ensures false e h k = throw-Ensures _ k

pub transition-Ensures :
    {P R : State → Type 0} {Q : Payment → State → Type 0} (from to : PaymentStatus)
    (columns : Payment → Payment)
    → ((s : State) → P s → R s)
    → ((s : State) → P s → R (with_status from to columns s))
    → ((s : State) → P s → Q (moved to columns s.row) (with_status from to columns s))
    → Ensures P (transition_status from to columns) Q R
unfolding transition_status swap swapped
transition-Ensures {P} {R} {Q} from to columns h k l =
    bind-Ensures {Q = λ a. P} (unless-Ensures _ _ (λ s p e. p) h) (λ a.
      call-Ensures h (λ s p. if-holds R (same s.row.status from) (k s p) (h s p))
        (λ s a p e.
          if-ok Q (same s.row.status from) (moved to columns s.row) a _
            (with_status from to columns s) s e (λ t. l s p)))

pub set_status-Ensures :
    {P R : State → Type 0} {Q : Payment → State → Type 0} (to : PaymentStatus)
    (columns : Payment → Payment)
    → ((s : State) → P s → R s)
    → ((s : State) (from : PaymentStatus) → P s → R (with_status from to columns s))
    → ((s : State) (from : PaymentStatus)
        → P s
        → Q (moved to columns s.row) (with_status from to columns s))
    → Ensures P (set_status to columns) Q R
set_status-Ensures {P} to columns h k l =
    bind-Ensures {Q = λ a. P} (payment-Ensures (λ s p. p))
      (λ p. transition-Ensures p.status to columns h (λ s. k s p.status) (λ s. l s p.status))

pub advance-Ensures :
    {P R : State → Type 0} {Q : Unit {0} → State → Type 0} (to : PaymentStatus)
    (columns : Payment → Payment)
    → ((s : State) → P s → R s)
    → ((s : State) (from : PaymentStatus) → P s → R (with_status from to columns s))
    → ((s : State) (from : PaymentStatus)
        → P s
        → Q tt (record (with_status from to columns s) { local = moved to columns s.row }))
    → Ensures P (advance to columns) Q R
advance-Ensures {Q} to columns h k l =
    bind-Ensures {Q = λ p s. Q tt (record s { local = p })} (set_status-Ensures to columns h k l)
      (λ p. assign-Ensures p (λ s q. q))

pub update-Ensures :
    {P R : State → Type 0} {Q : Unit {0} → State → Type 0} (columns : Payment → Payment)
    → ((s : State) → P s → R s)
    → ((s : State) → P s → R (record s { row = columns s.row }))
    → ((s : State) → P s → Q tt (record s { row = columns s.row; local = columns s.row }))
    → Ensures P (update_columns columns) Q R
update-Ensures {Q} columns h k l =
    bind-Ensures {Q = λ p s. Q tt (record s { local = p })}
      (call-Ensures h k (λ s a p e.
        let e' : columns s.row ≡ a = cc in
        subst (λ x. Q tt (record s { row = columns s.row; local = x })) e' (l s p)))
      (λ p. assign-Ensures p (λ s q. q))

-- A call whose effect the property does not see, and whose failure is ignored.
pub quietly-Keeps :
    {I : State → Type 0} (effect : State → State) (value : State → Result Error (Unit {0}))
    → ((s : State) → I s → I (effect s))
    → Keeps I (quietly (call effect value))
quietly-Keeps effect value h =
    try-Ensures (call-Ensures (λ s p. p) h (λ s a p e. h s p)) (λ e. pure-Ensures _ (λ s p. p))

Holds-after {ℓ} :
    {A : Type ℓ} {I : State → Type 0} {cleanup : M (Unit {0})} (o : Outcome A)
    → Holds (λ _. I) I o
    → Keeps I cleanup
    → Holds (λ _. I) I (after o cleanup)
Holds-after (done (ok a) s rs) q k = (bind-Ensures k (λ u. pure-Ensures _ (λ s q. q))).run s rs q
Holds-after (done (err e) s rs) q k = (bind-Ensures k (λ u. throw-Ensures _ (λ s q. q))).run s rs q

-- A property that does not depend on the lease.
abbrev pub LeaseFree : (State → Type 0) → Type 0
LeaseFree I =
    (s : State) (l : Option ℕ)
    → I s
    → I (record s { row = record s.row { execution_lease_id = l } })

claimed-status :
    (from : PaymentStatus) (s : State) (u : Unit {0}) → claimed from s ≡ ok u → s.row.status ≡ from
unfolding claimed
claimed-status from s u h = (same_iff s.row.status from).0 (ground arith)

-- What a computation keeps under the lease, once it has been claimed at a status, is kept by the
-- whole.
pub with_execution_lease-Keeps {ℓ} :
    {A : Type ℓ} {P I : State → Type 0} (from : PaymentStatus) (body : ℕ → M A)
    → LeaseFree P
    → LeaseFree I
    → ((s : State) → P s → I s)
    → ((s : State) (n : ℕ) → P s → P (record s { next_lease = n }))
    → ((lease : ℕ) → Ensures (λ s. P s × (s.row.status ≡ from)) (body lease) (λ _. I) I)
    → Ensures P (with_execution_lease from body) (λ _. I) I
unfolding with_execution_lease random_uuid try_finally claim release_lease
with_execution_lease-Keeps {P} {I} from body free free' weaker counter h =
    bind-Ensures {Q = λ _. P} (record { run = λ s rs p. counter s _ p })
      (λ lease.
        bind-Ensures {Q = λ _ s. P s × (s.row.status ≡ from)}
          (call-Ensures weaker
            (λ s p. weaker _ (if-holds P (claimable from s) (free s (some lease) p) p))
            (λ s u p e.
              let st = claimed-status from s u e in
              (
                if-holds P (claimable from s) (free s (some lease) p) p,
                if-holds (λ (t : State). t.row.status ≡ from) (claimable from s) st st,
              )))
          (λ u. record {
            run = λ s rs q.
                Holds-after (body lease s rs) ((h lease).run s rs q)
                  (quietly-Keeps _ _ (λ s i. if-holds I _ (free' s none i) i));
          }))
