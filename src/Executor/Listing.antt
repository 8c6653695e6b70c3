-- ===== src/Executor/Listing.antt =====
-- What the operator's list of stuck payments shows.
use settlementos.Base.{
  ◌≡◌, refl, ap, Bool-cases, ◌⊎◌, inl, inr, true, false, List, [], ◌∷◌, Option, none, some, arith,
}
use settlementos.Lifecycle.{index, payout_pending, compensation_pending, failed}
use settlementos.Executor.State.{EscrowState, absent, initiated, released, returned}
use settlementos.Executor.Steps.{is_none}
use settlementos.Executor.Repair.{Watched, is_candidate, holds_funds, is_kept, stuck_payments}

-- A row of the list.
pub data Listed (w : Watched) : List Watched → Type 0 where
  first : {ws : List Watched} → Listed w (w ∷ ws)
  later : {v : Watched} {ws : List Watched} → Listed w ws → Listed w (v ∷ ws)

-- A payment that an operator may owe an action, by the true state of its escrow: it waits for its
-- payout or its make-good, or it failed after it reserved, with funds still in the escrow or
-- released from it.
abbrev pub Owed : Watched → EscrowState → Type 0
Owed w e =
    (w.payment.status ≡ compensation_pending)
    ⊎ ((w.payment.status ≡ payout_pending)
        ⊎ ((w.payment.status ≡ failed)
            × (is_none w.reservation ≡ false)
            × ((e ≡ initiated) ⊎ (e ≡ released))))

funds_held :
    (read : Option EscrowState) (e : EscrowState)
    → (read ≡ none) ⊎ (read ≡ some e)
    → (e ≡ initiated) ⊎ (e ≡ released)
    → holds_funds read ≡ true
funds_held none e r m = refl
funds_held (some initiated) e r m = refl
funds_held (some released) e r m = refl
funds_held (some absent) e (inl k) m = cc
funds_held (some absent) e (inr k) (inl m) = cc
funds_held (some absent) e (inr k) (inr m) = cc
funds_held (some returned) e (inl k) m = cc
funds_held (some returned) e (inr k) (inl m) = cc
funds_held (some returned) e (inr k) (inr m) = cc

Owed-is_kept :
    (w : Watched) (e : EscrowState)
    → (w.escrow_state ≡ none) ⊎ (w.escrow_state ≡ some e)
    → Owed w e
    → (is_candidate w ≡ true) × (is_kept w ≡ true)
unfolding is_candidate is_kept
Owed-is_kept w e r (inl h) =
    let i : index w.payment.status ≡ 11 = ap index h in (ground (arith, i), ground (arith, i))
Owed-is_kept w e r (inr (inl h)) =
    let i : index w.payment.status ≡ 9 = ap index h in (ground (arith, i), ground (arith, i))
Owed-is_kept w e r (inr (inr (h, k, m))) =
    let i : index w.payment.status ≡ 14 = ap index h in
    let held = funds_held w.escrow_state e r m in (ground (arith, i, k), ground (arith, i, held))

Listed-later :
    (v w : Watched) (ws : List Watched)
    → Listed w (stuck_payments ws)
    → Listed w (stuck_payments (v ∷ ws))
unfolding stuck_payments
Listed-later v w ws l = elim (Bool-cases (is_candidate v)) [
  | inl c ↦ elim (Bool-cases (is_kept v)) [ inl k ↦ rw (c, k) (later l) | inr k ↦ rw (c, k) l ]
  | inr c ↦ rw c l
]

-- A payment that waits for its payout or its make-good, or that failed after it reserved with funds
-- still in the escrow or released from it, is on the list of stuck payments, whether its escrow could
-- be read or not.
pub stuck_payments_complete :
    (w : Watched) (e : EscrowState) (ws : List Watched)
    → Listed w ws
    → (w.escrow_state ≡ none) ⊎ (w.escrow_state ≡ some e)
    → Owed w e
    → Listed w (stuck_payments ws)
unfolding stuck_payments
stuck_payments_complete w e [] l r o = elim l [ ]
stuck_payments_complete w e (_ ∷ ws) first r o =
    let (c, k) = Owed-is_kept w e r o in rw (c, k) first
stuck_payments_complete w e (v ∷ ws) (later l) r o =
    Listed-later v w ws (stuck_payments_complete w e ws l r o)
