-- ===== src/Payments/Passing.antt =====
-- What the compliance gate of an execute request lets pass.
use settlementos.Base.{
  ◌≡◌, refl, ◌⊎◌, inl, inr, false, List, [], ◌∷◌, All, Option, none, some, Result, ok, err,
  Bool-cases,
}
use settlementos.Base.Texts.{String}
use settlementos.Base.Programs.{
  Ensures, Holds, bind-Ensures, pure-Ensures, throw-Ensures, lift-Ensures, try_catch, recovered,
}
use settlementos.Lifecycle.{PaymentStatus, approved, quoted, same, can_transition}
use settlementos.Access.Keys.{Principal}
use settlementos.Access.Guard.{Thrown}
use settlementos.Compliance.Checks
use settlementos.Compliance.Checks.{ComplianceOutcome, Overall, Entity, ScreenedPayment}
use settlementos.Payments.Rows.{
  M, Shared, Row, Written, nothing, a_selection, a_quote, Moved, after_others, later, landed,
  swapped, row_or_throw, find_or_throw, swap_in, compare_and_swap, transition_status,
}
use settlementos.Payments.Handlers.{
  Gate, payment_of, Gated, answered, passed, apply_outcome, enter_gate, gate_quoted,
}

Holds-recovered {ℓ} :
    {A : Type ℓ} {R R' : Shared → Type 0} {Q : A → Shared → Type 0} {f : Thrown → M A}
    (o : Result Thrown A × Shared)
    → Holds Q R' o
    → ((e : Thrown) → Ensures R' (f e) Q R)
    → Holds Q R (recovered o f)
Holds-recovered (ok a, s) q h = q
Holds-recovered (err e, s) q h = (h e).run s q

try_catch-Ensures {ℓ} :
    {A : Type ℓ} {P R R' : Shared → Type 0} {Q : A → Shared → Type 0} {m : M A} {f : Thrown → M A}
    → Ensures P m Q R'
    → ((e : Thrown) → Ensures R' (f e) Q R)
    → Ensures P (try_catch m f) Q R
unfolding try_catch
try_catch-Ensures {m} e h = record { run = λ s p. Holds-recovered (m s) (e.run s p) h }

module _ (entities : String → Entity) (payment : ScreenedPayment) where
  -- The row is of the payment: its columns that no handler writes are the payment's.
  abbrev pub Describes : Option Row → Type 0
  Describes none = Unit {0}
  Describes (some r) = payment_of entities r ≡ payment

  abbrev pub Keeps : (Option Row → Option Row) → Type 0
  Keeps f = (o : Option Row) → Describes o → Describes (f o)

  -- Nothing was executed, the payment was found at a status, and its row is and stays of the payment.
  abbrev pub Quiet : Option PaymentStatus → Shared → Type 0
  Quiet at s = (s.executed ≡ false) × (s.found_at ≡ at) × Describes s.row × All Keeps s.others

  pub kept_later :
      (others : List (Option Row → Option Row)) (row : Option Row) (s : Shared)
      → Describes row
      → All Keeps others
      → let s' : Shared = record s { row = row; others = others } in
        Describes (after_others s') × All Keeps (later s')
  kept_later [] row s d a = (d, tt)
  kept_later (f ∷ fs) row s d (k, a) = (k row d, a)

  landed-Quiet : (at : Option PaymentStatus) (s : Shared) → Quiet at s → Quiet at (landed s)
  landed-Quiet at s q = let kept = kept_later s.others s.row s q.2 q.3 in (q.0, q.1, kept.0, kept.1)

  Describes-swapped :
      (to : PaymentStatus) (w : Written) (r : Row)
      → Describes (some r)
      → Describes (some (swapped to w r))
  Describes-swapped to nothing r d = d
  Describes-swapped to (a_selection o) r d = d
  Describes-swapped to (a_quote offers o) r d = d

  swap_in-Quiet :
      (at : Option PaymentStatus) (from : PaymentStatus) (e : Moved) (w : Written) (o : Option Row)
      (s : Shared)
      → Describes o
      → Quiet at s
      → Holds (λ r s. Quiet at s) (Quiet at) (swap_in from e w o s)
  swap_in-Quiet at from e w none s d q = q
  swap_in-Quiet at from e w (some r) s d q = elim (Bool-cases (same r.status from)) [
    | inl h ↦ rw h (q.0, q.1, Describes-swapped e.to w r d, q.3)
    | inr h ↦ rw h q
  ]

module _ (entities : String → Entity) (payment : ScreenedPayment) (at : Option PaymentStatus) where
  abbrev Still : Shared → Type 0
  Still = Quiet entities payment at

  transition_status-Quiet :
      (r : Row) (to : PaymentStatus) (action : Option String) (actor : String) (w : Written)
      → Ensures Still (transition_status r to action actor w) (λ r s. Still s) Still
  unfolding transition_status compare_and_swap
  transition_status-Quiet r to action actor w = elim (Bool-cases (can_transition r.status to)) [
    | inr h ↦ rw h (throw-Ensures _ (λ s q. q))
    | inl h ↦ rw h (record {
      run = λ s q.
          let after = landed-Quiet entities payment at s q in
          swap_in-Quiet entities payment at r.status _ w (after_others s) (landed s) after.2 after;
    })
  ]

  row_or_throw-Still :
      (o : Option Row) (s : Shared)
      → Describes entities payment o
      → Still s
      → Holds (λ r s. Still s × (payment_of entities r ≡ payment)) Still (row_or_throw o s)
  row_or_throw-Still none s d q = q
  row_or_throw-Still (some r) s d q = (q, d)

  find_or_throw-Still :
      Ensures Still find_or_throw (λ r s. Still s × (payment_of entities r ≡ payment)) Still
  unfolding find_or_throw
  find_or_throw-Still = record {
    run = λ s q.
        let after = landed-Quiet entities payment at s q in
        row_or_throw-Still (after_others s) (landed s) after.2 after;
  }

  module _ (gate : Gate) where
    -- Why a payment may go on to be executed.
    abbrev pub Allowed : Type 0
    Allowed =
        (at ≡ some approved)
        ⊎ ((r : Row) × (payment_of entities r ≡ payment)
            × (o : ComplianceOutcome) × (gate r ≡ ok o)
            × (o.overall ≡ Checks.approved))

    abbrev pub Fine : Gated → Type 0
    Fine (answered a) = Unit {0}
    Fine (passed r) = r.status ≡ approved → Allowed

    apply_outcome-Fine :
        (o : ComplianceOutcome) (v : Overall) (p : Principal) (r c : Row)
        → payment_of entities c ≡ payment
        → gate c ≡ ok o
        → o.overall ≡ v
        → Ensures Still (apply_outcome o v p r) (λ g s. Still s × Fine g) Still
    unfolding apply_outcome
    apply_outcome-Fine o Checks.rejected p r c d e k =
        bind-Ensures (transition_status-Quiet r _ none _ _) (λ m. pure-Ensures _ (λ s q. (q, tt)))
    apply_outcome-Fine o Checks.needs_review p r c d e k =
        bind-Ensures (transition_status-Quiet r _ none _ _) (λ m. pure-Ensures _ (λ s q. (q, tt)))
    apply_outcome-Fine o Checks.approved p r c d e k =
        bind-Ensures (transition_status-Quiet r _ none _ _)
          (λ m. pure-Ensures _ (λ s q. (q, λ x. inr (c, d, o, e, k))))

    enter_gate-Fine :
        (p : Principal) (w : Written) (r : Row)
        → Ensures Still (enter_gate gate p w r) (λ g s. Still s × Fine g) Still
    unfolding enter_gate
    enter_gate-Fine p w r = bind-Ensures (transition_status-Quiet r _ none _ w) (λ pending.
        bind-Ensures find_or_throw-Still (λ c.
          bind-Ensures
            {Q = λ (o : ComplianceOutcome) s.
              Still s × (payment_of entities c ≡ payment) × (gate c ≡ ok o)}
            (lift-Ensures (gate c) (λ o s e q. (q.0, q.1, e)) (λ s q. q.0))
            (λ o. record {
              run = λ s h. (apply_outcome-Fine o o.overall p pending c h.1 h.2 refl).run s h.0;
            })))

    pub gate_quoted-Fine :
        (p : Principal) (w : Written) (r : Row)
        → at ≡ some r.status
        → Ensures Still (gate_quoted gate p w r) (λ g s. Still s × Fine g) Still
    gate_quoted-Fine p w r found = elim (Bool-cases (same r.status quoted)) [
      | inl h ↦
          rw h (try_catch-Ensures (enter_gate-Fine p w r) (λ e. pure-Ensures _ (λ s q. (q, tt))))
      | inr h ↦ rw h (pure-Ensures _ (λ s q. (q, λ x. inl (rw (← x) found))))
    ]
