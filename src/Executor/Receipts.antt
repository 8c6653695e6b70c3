-- ===== src/Executor/Receipts.antt =====
-- The rules for reading receipts and for the steps that only touch the reservation.
use settlementos.Base.{
  ◌≡◌, refl, ℕ, Bool, true, false, List, [], ◌∷◌, Option, none, some, ok, ◌⊎◌, inl, inr, arith,
}
use settlementos.Executor.State.{State, Reservation, TransactionOutcome, confirmed, reverted}
use settlementos.Executor.Calls.{receipt, quietly}
use settlementos.Executor.Steps.{
  is_none, confirm, succeeded, outcome_of, transaction_outcome, update_reservation, escrow_state,
}
use settlementos.Executor.Rules.{
  Ensures, Keeps, pure-Ensures, call-Ensures, read-Ensures, try-Ensures,
}
use settlementos.Executor.Moves.{quietly-Keeps, if-holds}
use settlementos.Executor.Facts.{landed}

-- A receipt of success is one of the transfers that land.
pub receipt-landed : (hash : ℕ) (bs : List Bool) → receipt hash bs ≡ some true → landed bs ≡ true
unfolding receipt
receipt-landed hash [] h = cc
receipt-landed hash (b ∷ bs) h = ground (arith, receipt-landed hash bs)

succeeded-true : (r : Option Bool) (u : Unit {0}) → succeeded r ≡ ok u → r ≡ some true
succeeded-true (some true) u h = refl
succeeded-true (some false) u h = cc
succeeded-true none u h = cc

outcome_of-some :
    (r : Option Bool) (o : TransactionOutcome)
    → outcome_of r ≡ ok o
    → (o ≡ confirmed → r ≡ some true) × (o ≡ reverted → r ≡ some false)
outcome_of-some (some true) o h = (λ e. refl, λ e. cc)
outcome_of-some (some false) o h = (λ e. cc, λ e. refl)
outcome_of-some none o h = (λ e. cc, λ e. cc)

-- What is known of an outcome that was read.
abbrev pub Read : (State → List Bool) → ℕ → TransactionOutcome → State → Type 0
Read transfers hash o s =
    (o ≡ confirmed → receipt hash (transfers s) ≡ some true)
    × (o ≡ reverted → receipt hash (transfers s) ≡ some false)

module _ {P R : State → Type 0} where
  pub confirm-Ensures :
      (transfers : State → List Bool) (hash : ℕ)
      → ((s : State) → P s → R s)
      → Ensures P (confirm transfers hash) (λ _ s. P s × (receipt hash (transfers s) ≡ some true)) R
  unfolding confirm
  confirm-Ensures transfers hash h =
      call-Ensures h h (λ s u p e. (p, succeeded-true (receipt hash (transfers s)) u e))

  pub transaction_outcome-Ensures :
      (transfers : State → List Bool) (hash : ℕ)
      → Ensures P (transaction_outcome transfers hash) (λ o s. P s × Read transfers hash o s) R
  unfolding transaction_outcome
  transaction_outcome-Ensures transfers hash =
      try-Ensures {R' = P}
        (call-Ensures (λ s p. p) (λ s p. p)
          (λ s o p e. (p, outcome_of-some (receipt hash (transfers s)) o e)))
        (λ e. pure-Ensures _ (λ s p. (p, (λ x. cc, λ x. cc))))

  pub escrow_state-Ensures :
      Ensures P escrow_state (λ e s. P s × ((e ≡ none) ⊎ (e ≡ some s.chain.escrow))) R
  unfolding escrow_state
  escrow_state-Ensures =
      try-Ensures {R' = P} (read-Ensures _ (λ s p. p) (λ s p. (p, inr refl)))
        (λ e. pure-Ensures _ (λ s p. (p, inl refl)))

-- The reservation's row, where its failure is ignored.
pub reservation-Keeps :
    {I : State → Type 0} (r : Reservation)
    → ((s : State) (x : Option Reservation) → I s → I (record s { reservation = x }))
    → Keeps I (quietly (update_reservation r))
unfolding update_reservation
reservation-Keeps {I} r h =
    quietly-Keeps _ _ (λ s p. if-holds I (is_none s.reservation) p (h s (some r) p))
