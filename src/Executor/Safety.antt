-- ===== src/Executor/Safety.antt =====
-- What becomes of the money, after any operations on a payment.
use settlementos.Base.{
  ◌≡◌, refl, ap, ℕ, ◌+◌, ◌≤◌, Bool, true, false, ◌||◌, not, inl, inr, List, [], ◌∷◌, if◌then◌else◌,
  none, ok, err, arith,
}
use settlementos.Lifecycle.{approved, settled, compensated, refunded}
use settlementos.Executor.State.{State, Setting, Reply, EscrowState, absent, released, returned}
use settlementos.Executor.Calls.{Outcome, done}
use settlementos.Executor.Steps.{is_none}
use settlementos.Executor.Run.{execute_payment}
use settlementos.Executor.Repair.{repair_compensation, reconcile_unresolved_payment}
use settlementos.Executor.Rules.{Holds}
use settlementos.Executor.Facts.{Sound, landed, compensating}
use settlementos.Executor.Executed.{execute_payment-Keeps}
use settlementos.Executor.Repaired.{repair_compensation-Keeps}
use settlementos.Executor.Reconciled.{reconcile-Keeps}

-- A request to the executor.
pub data Operation : Type 0 where
  execute repair reconcile : Operation

-- The state that a computation leaves, whether it returned or threw.
abbrev pub left {ℓ} : {A : Type ℓ} → Outcome A → State
left (done r s rs) = s

unfoldable pub perform : Setting → Operation → List Reply → State → State
perform x execute rs s = left (execute_payment x s rs)
perform x repair rs s = left (repair_compensation x s rs)
perform x reconcile rs s = left (reconcile_unresolved_payment x s rs)

-- Requests in order, each with how its calls end.
unfoldable pub perform_all : Setting → List (Operation × List Reply) → State → State
unfolding perform
perform_all x [] s = s
perform_all x ((op, rs) ∷ rest) s = perform_all x rest (perform x op rs s)

-- An approved payment that nothing was done for.
pub record IsNew (s : State) : Type 0 where
  pub is_approved : s.row.status ≡ approved
  pub no_escrow : s.chain.escrow ≡ absent
  pub no_payouts : s.chain.payouts ≡ []
  pub no_makegoods : s.chain.makegoods ≡ []
  pub no_credit : s.credit ≡ none
  pub no_hash : s.row.destination_tx_hash ≡ none

-- The three ways in which the money can end: with the recipient, with the sender out of the
-- treasury, and with the sender out of the escrow.
unfoldable pub recipient_paid : State → Bool
recipient_paid s = not (is_none s.credit) || landed s.chain.payouts

unfoldable pub sender_repaid : State → Bool
sender_repaid s = landed s.chain.makegoods

abbrev is_returned : EscrowState → Bool
is_returned returned = true
is_returned _ = false

unfoldable pub escrow_returned : State → Bool
escrow_returned s = is_returned s.chain.escrow

abbrev pub one_if : Bool → ℕ
one_if b = if b then 1 else 0

new-Sound : (s : State) → IsNew s → Sound s
new-Sound s n = record {
  early = λ e. (n.no_escrow, n.no_payouts, n.no_credit);
  payouts = inl n.no_payouts;
  credit = inl n.no_credit;
  makegoods = inl n.no_makegoods;
  owed = λ e. cc (ap compensating n.is_approved);
  hash = inl n.no_hash;
  paid = λ e. cc (n.is_approved, e);
  repaid = λ e. cc (n.is_approved, e);
  given_back = λ e. cc (n.is_approved, e);
}

left-Sound {ℓ} : {A : Type ℓ} (o : Outcome A) → Holds (λ _. Sound) Sound o → Sound (left o)
left-Sound (done (ok a) s rs) f = f
left-Sound (done (err e) s rs) f = f

perform-Sound :
    (x : Setting) (op : Operation) (rs : List Reply) (s : State)
    → Sound s
    → Sound (perform x op rs s)
unfolding perform
perform-Sound x execute rs s f =
    left-Sound (execute_payment x s rs) ((execute_payment-Keeps x).run s rs f)
perform-Sound x repair rs s f =
    left-Sound (repair_compensation x s rs) ((repair_compensation-Keeps x).run s rs f)
perform-Sound x reconcile rs s f =
    left-Sound (reconcile_unresolved_payment x s rs) ((reconcile-Keeps x).run s rs f)

perform_all-Sound :
    (x : Setting) (ops : List (Operation × List Reply)) (s : State)
    → Sound s
    → Sound (perform_all x ops s)
unfolding perform_all
perform_all-Sound x [] s f = f
perform_all-Sound x ((op, rs) ∷ rest) s f =
    perform_all-Sound x rest (perform x op rs s) (perform-Sound x op rs s f)

nothing_landed : (ps : List Bool) → ps ≡ [] → landed ps ≡ false
nothing_landed ps e = ap landed e

repaid_owes : (s : State) → Sound s → sender_repaid s ≡ true → compensating s.row.status ≡ true
unfolding sender_repaid
repaid_owes s f h = elim f.makegoods [ inl e ↦ cc (nothing_landed s.chain.makegoods e) | inr k ↦ k ]

paid_released : (s : State) → Sound s → recipient_paid s ≡ true → s.chain.escrow ≡ released
unfolding recipient_paid
paid_released s f h = elim f.payouts [
  | inl e ↦ elim f.credit [
    | inl n ↦ ground (arith, h, n, nothing_landed s.chain.payouts e)
    | inr (free, good) ↦ free
  ]
  | inr free ↦ free
]

owed_unpaid :
    (s : State)
    → Sound s
    → s.chain.orphaned ≡ false
    → compensating s.row.status ≡ true
    → recipient_paid s ≡ false
unfolding recipient_paid
owed_unpaid s f o k =
    let (free, unpaid, failed_payout) = f.owed k in ground (arith, unpaid, failed_payout, o)

released-escrow_returned : (s : State) → s.chain.escrow ≡ released → escrow_returned s ≡ false
unfolding escrow_returned
released-escrow_returned s e = ap is_returned e

at_most_one :
    (a b c : Bool)
    → (b ≡ true → a ≡ false)
    → (a ≡ true → c ≡ false)
    → (b ≡ true → c ≡ false)
    → one_if a + one_if b + one_if c ≤ 1
at_most_one true true c h k l = cc (h refl)
at_most_one true false c h k l = ground (arith, k refl)
at_most_one false true c h k l = ground (arith, l refl)
at_most_one false false true h k l = omega arith
at_most_one false false false h k l = omega arith

-- After any requests on a new payment, in any order and however their calls end, the money went to
-- at most one of three places: to the recipient, by a credit or a payout, to the sender out of the
-- treasury, or to the sender out of the escrow; unless a payout was sent whose hash never came back.
pub never_paid_twice :
    (x : Setting) (ops : List (Operation × List Reply)) (s : State)
    → IsNew s
    → (perform_all x ops s).chain.orphaned ≡ false
    → one_if (recipient_paid (perform_all x ops s))
        + one_if (sender_repaid (perform_all x ops s))
        + one_if (escrow_returned (perform_all x ops s))
      ≤ 1
never_paid_twice x ops s n o =
    let t : State = perform_all x ops s in
    let f : Sound t = perform_all-Sound x ops s (new-Sound s n) in
    at_most_one (recipient_paid t) (sender_repaid t) (escrow_returned t)
      (λ h. owed_unpaid t f o (repaid_owes t f h))
      (λ h. released-escrow_returned t (paid_released t f h))
      (λ h. released-escrow_returned t (f.owed (repaid_owes t f h)).0)

-- After any requests on a new payment, its status tells where the money is: a SETTLED payment's
-- recipient has the credit, a COMPENSATED payment's sender has a make-good and its recipient no
-- credit, and a REFUNDED payment's escrow went back.
pub status_tells_truth :
    (x : Setting) (ops : List (Operation × List Reply)) (s : State)
    → IsNew s
    → ((perform_all x ops s).row.status ≡ settled → is_none (perform_all x ops s).credit ≡ false)
      × ((perform_all x ops s).row.status ≡ compensated
          → (sender_repaid (perform_all x ops s) ≡ true) × ((perform_all x ops s).credit ≡ none))
      × ((perform_all x ops s).row.status ≡ refunded
          → (perform_all x ops s).chain.escrow ≡ returned)
unfolding sender_repaid
status_tells_truth x ops s n =
    let t : State = perform_all x ops s in
    let f : Sound t = perform_all-Sound x ops s (new-Sound s n) in
    (f.paid, (λ e. (f.repaid e, (f.owed cc).1)), f.given_back)
