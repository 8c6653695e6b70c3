-- ===== src/Payments/Gate.antt =====
-- What has been checked before a payment is executed.
use settlementos.Base.{
  ◌≡◌, refl, subst, All, ◌⊎◌, inl, inr, true, false, List, Option, none, some, Result, ok, err,
  Bool-cases, Option-cases, Result-cases,
}
use settlementos.Base.Texts.{String}
use settlementos.Base.Programs.{Ensures, Holds, bind-Ensures, pure-Ensures, relax, bind, pure}
use settlementos.Money.{text, parse_amount}
use settlementos.Lifecycle.{PaymentStatus, approved, same}
use settlementos.Lifecycle.Order.{same_iff}
use settlementos.Access.Keys.{Principal}
use settlementos.Access.Guard.{ApiError, Thrown, unknown, authorize_payment_write}
use settlementos.Compliance.Providers.{Numbers}
use settlementos.Compliance.Checks
use settlementos.Compliance.Checks.{
  Entity, ComplianceOutcome, Overall, CheckRow, Screens, ScreenedPayment, run_compliance_checks,
}
use settlementos.Compliance.Outcome.{Cleared, run_compliance_checks_approves}
use settlementos.Payments.Rows.{M, Shared, Row, Written, find_payment, status_at, after_others}
use settlementos.Payments.Handlers.{
  Answer, Gated, answered, passed, refused, told, Gate, payment_of, when_found, permitted,
  compliance_gate, selection_of, after_gate, with_selection, execute_approved, execute_row,
  run_execute,
}
use settlementos.Payments.Passing.{
  Describes, Keeps, kept_later, Quiet, Allowed, Fine, gate_quoted-Fine,
}

module _ (entities : String → Entity) (payment : ScreenedPayment) (at : Option PaymentStatus)
    (gate : Gate) where
  abbrev Still : Shared → Type 0
  Still = Quiet entities payment at

  abbrev Passes : Type 0
  Passes = Allowed entities payment at gate

  -- Whoever executed had a reason.
  abbrev Reasoned : Shared → Type 0
  Reasoned s = s.executed ≡ true → Passes

  Quiet-Reasoned : (s : Shared) → Still s → Reasoned s
  Quiet-Reasoned s q x = cc (q.0, x)

  allowed-Reasoned :
      (o : Result Thrown Answer × Shared) → Passes → Holds (λ a s. Reasoned s) Reasoned o
  allowed-Reasoned (ok a, s) k = λ x. k
  allowed-Reasoned (err e, s) k = λ x. k

  execute_approved-Reasoned :
      (executor : Result Thrown PaymentStatus) (r : Row)
      → Ensures
          (λ s. Still s × Fine entities payment at gate (passed r))
          (execute_approved executor r)
          (λ a s. Reasoned s)
          Reasoned
  unfolding execute_approved
  execute_approved-Reasoned executor r = elim (Bool-cases (same r.status approved)) [
    | inr h ↦ rw h (pure-Ensures _ (λ s q. Quiet-Reasoned s q.0))
    | inl h ↦ record {
      run = λ s q.
          allowed-Reasoned (execute_approved executor r s) (q.1 ((same_iff r.status approved).0 h));
    }
  ]

  after_gate-Reasoned :
      (executor : Result Thrown PaymentStatus) (g : Gated)
      → Ensures
          (λ s. Still s × Fine entities payment at gate g)
          (after_gate executor g)
          (λ a s. Reasoned s)
          Reasoned
  after_gate-Reasoned executor (answered a) = pure-Ensures a (λ s q. Quiet-Reasoned s q.0)
  after_gate-Reasoned executor (passed r) = execute_approved-Reasoned executor r

  told-Reasoned : (e : ApiError) → Ensures Still (told e) (λ a s. Reasoned s) Reasoned
  told-Reasoned e = pure-Ensures (refused e) Quiet-Reasoned

  with_selection-Reasoned :
      (executor : Result Thrown PaymentStatus) (p : Principal) (r : Row) (o : Option Written)
      → at ≡ some r.status
      → Ensures Still (with_selection gate executor p r o) (λ a s. Reasoned s) Reasoned
  with_selection-Reasoned executor p r none found = told-Reasoned _
  with_selection-Reasoned executor p r (some w) found =
      bind-Ensures
        (relax (gate_quoted-Fine entities payment at gate p w r found) (λ g s q. q) Quiet-Reasoned)
        (after_gate-Reasoned executor)

  execute_row-Reasoned :
      (executor : Result Thrown PaymentStatus) (route_id : Option String) (p : Principal) (r : Row)
      → at ≡ some r.status
      → Ensures Still (execute_row gate executor route_id p r) (λ a s. Reasoned s) Reasoned
  unfolding execute_row
  execute_row-Reasoned executor route_id p r found =
      elim (Result-cases (parse_amount (text r.amount) r.source_currency)) [
        | inl (u, h) ↦
            rw (execute_row, h)
              (with_selection-Reasoned executor p r (selection_of route_id r) found)
        | inr (e, h) ↦ rw (execute_row, h) (told-Reasoned _)
      ]

  permitted-Reasoned :
      (executor : Result Thrown PaymentStatus) (route_id : Option String) (p : Principal)
      (o : Option Row)
      → at ≡ status_at o
      → Ensures Still
          (when_found (permitted p (execute_row gate executor route_id p)) o)
          (λ a s. Reasoned s)
          Reasoned
  permitted-Reasoned executor route_id p none found = told-Reasoned _
  permitted-Reasoned executor route_id p (some r) found =
      elim (Option-cases (
        authorize_payment_write p
          (record { sender_id = r.sender_id; recipient_id = r.recipient_id }))) [
            | inl h ↦ rw (permitted, h) (execute_row-Reasoned executor route_id p r found)
            | inr (e, h) ↦ rw (permitted, h) (told-Reasoned e)
          ]

ending :
    {A : Type 0} (R : Shared → Type 0) (o : Result Thrown A × Shared)
    → Holds (λ a s. R s) R o
    → R o.1
ending R (ok a, s) h = h
ending R (err e, s) h = h

run_execute-Reasoned :
    (entities : String → Entity) (payment : ScreenedPayment) (gate : Gate)
    (executor : Result Thrown PaymentStatus) (route_id : Option String) (p : Principal) (s : Shared)
    → s.executed ≡ false
    → Describes entities payment s.row
    → All (Keeps entities payment) s.others
    → Reasoned entities payment
        (status_at (after_others s))
        gate
        (run_execute gate executor route_id p s).1
unfolding run_execute bind find_payment
run_execute-Reasoned entities payment gate executor route_id p s q d a =
    let at : Option PaymentStatus = status_at (after_others s) in
    let kept = kept_later entities payment s.others s.row s d a in
    ending (Reasoned entities payment at gate) _ (
      (permitted-Reasoned entities payment at gate executor route_id p (after_others s) refl).run _
        (q, refl, kept.0, kept.1))

abbrev ok_outcome : ComplianceOutcome → Result Thrown ComplianceOutcome
ok_outcome o = ok o

abbrev failed_gate : Result Thrown ComplianceOutcome
failed_gate = err (unknown "compliance")

gate_approved :
    (n : Numbers) (screens : Screens n) (entities : String → Entity) (rows : List CheckRow)
    (r : Row) (o : ComplianceOutcome)
    → compliance_gate n screens entities rows r ≡ ok o
    → o.overall ≡ Checks.approved
    → Cleared n screens (payment_of entities r)
unfolding compliance_gate
gate_approved n screens entities rows r o h k =
    elim (Result-cases (run_compliance_checks n screens (payment_of entities r) rows)) [
      | inl (done, e) ↦
          let same_outcome : ok_outcome done.0 ≡ ok o = rw (compliance_gate, e) at h in
          (run_compliance_checks_approves n screens (payment_of entities r) rows done.1 done.0 e).0
            (cc (same_outcome, k))
      | inr (x, e) ↦ let thrown : failed_gate ≡ ok o = rw (compliance_gate, e) at h in cc
    ]

-- The caller may write the payment.
abbrev pub Authorized : Principal → Option Row → Type 0
Authorized p none = ⊥
Authorized p (some r) =
    authorize_payment_write p (record { sender_id = r.sender_id; recipient_id = r.recipient_id })
    ≡ none

permitted-Authorized :
    (go : Row → M Answer) (p : Principal) (o : Option Row) (s : Shared)
    → s.executed ≡ false
    → (when_found (permitted p go) o s).1.executed ≡ true
    → Authorized p o
unfolding pure
permitted-Authorized go p none s q x = cc
permitted-Authorized go p (some r) s q x =
    elim (Option-cases (
      authorize_payment_write p
        (record { sender_id = r.sender_id; recipient_id = r.recipient_id }))) [
          | inl h ↦ h
          | inr (e, h) ↦
              let unchanged : s.executed ≡ true = rw (permitted, h) at x in cc (q, unchanged)
        ]

-- Where the row of an execute request is the payment's and others leave the columns alone that say
-- what is paid and by whom, whatever else they do to it between the request's calls, and however
-- the executor ends: a request that nothing was executed in before goes on to execute the payment
-- only if the caller may write it, and only if it found it APPROVED or every check of the
-- compliance gate clears the payment.
pub run_execute_gated :
    (n : Numbers) (screens : Screens n) (entities : String → Entity) (payment : ScreenedPayment)
    (rows : List CheckRow) (executor : Result Thrown PaymentStatus) (route_id : Option String)
    (p : Principal) (s : Shared)
    → s.executed ≡ false
    → Describes entities payment s.row
    → All (Keeps entities payment) s.others
    → (run_execute (compliance_gate n screens entities rows) executor route_id p s).1.executed
      ≡ true
    → Authorized p (after_others s)
      × ((status_at (after_others s) ≡ some approved) ⊎ Cleared n screens payment)
unfolding run_execute bind find_payment
run_execute_gated n screens entities payment rows executor route_id p s q d a x =
    let gate : Gate = compliance_gate n screens entities rows in
    (
      permitted-Authorized (execute_row gate executor route_id p) p (after_others s) _ q x,
      elim (run_execute-Reasoned entities payment gate executor route_id p s q d a x) [
        | inl found ↦ inl found
        | inr (r, same_payment, o, e, k) ↦ inr (
            subst (λ (t : ScreenedPayment). Cleared n screens t) same_payment
              (gate_approved n screens entities rows r o e k))
      ],
    )
