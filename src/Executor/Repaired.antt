-- ===== src/Executor/Repaired.antt =====
-- The operator's tools keep the facts.
use settlementos.Base.{◌≡◌, refl, sym, subst, ℕ, true, Option, none, some}
use settlementos.Lifecycle.{same, compensation_pending, compensated}
use settlementos.Executor.State.{
  Setting, State, Payment, EscrowState, absent, initiated, released, returned, TransactionOutcome,
  confirmed, reverted, unknown,
}
use settlementos.Executor.Repair.{
  check_payout, require_unpaid, require_released, repair_leased, repair_compensation,
}
use settlementos.Executor.Rules.{
  Ensures, Keeps, pure-Ensures, throw-Ensures, bind-Ensures, read-Ensures, assign-Ensures, relax,
  weaken,
}
use settlementos.Executor.Moves.{unless-Ensures, with_execution_lease-Keeps}
use settlementos.Executor.Receipts.{transaction_outcome-Ensures, escrow_state-Ensures}
use settlementos.Executor.Facts.{Sound, compensating}
use settlementos.Executor.Compensated.{Owing, run_compensation-Ensures}
use settlementos.Executor.Forward.{if-Ensures}

require_unpaid-Ensures :
    (o : TransactionOutcome) → Ensures Owing (require_unpaid o) (λ _. Owing) Sound
require_unpaid-Ensures confirmed = throw-Ensures _ (λ s p. p.0)
require_unpaid-Ensures unknown = throw-Ensures _ (λ s p. p.0)
require_unpaid-Ensures reverted = pure-Ensures _ (λ s p. p)

require_released-Ensures :
    (e : Option EscrowState) → Ensures Owing (require_released e) (λ _. Owing) Sound
require_released-Ensures none = throw-Ensures _ (λ s p. p.0)
require_released-Ensures (some released) = pure-Ensures _ (λ s p. p)
require_released-Ensures (some absent) = throw-Ensures _ (λ s p. p.0)
require_released-Ensures (some initiated) = throw-Ensures _ (λ s p. p.0)
require_released-Ensures (some returned) = throw-Ensures _ (λ s p. p.0)

check_payout-Ensures : (h : Option ℕ) → Ensures Owing (check_payout h) (λ _. Owing) Sound
check_payout-Ensures none = pure-Ensures _ (λ s p. p)
check_payout-Ensures (some hash) =
    bind-Ensures {Q = λ _. Owing}
      (relax (transaction_outcome-Ensures {R = Sound} _ hash) (λ o s p. p.0) (λ s p. p))
      require_unpaid-Ensures

repair_leased-Ensures :
    (x : Setting) (p : Payment) (lease : ℕ)
    → Ensures Owing (repair_leased x p lease) (λ _. Sound) Sound
unfolding repair_leased
repair_leased-Ensures x p lease =
    bind-Ensures (unless-Ensures {Q = λ _. Owing} _ _ (λ s q e. q) (λ s q. q.0)) (λ u.
      bind-Ensures (check_payout-Ensures p.destination_tx_hash) (λ u.
        bind-Ensures {Q = λ _. Owing}
          (relax (escrow_state-Ensures {R = Sound}) (λ e s q. q.0) (λ s q. q))
          (λ escrow. bind-Ensures (require_released-Ensures escrow) (λ u.
            bind-Ensures (assign-Ensures {Q = λ _. Owing} _ (λ s q. q))
              (λ u. run_compensation-Ensures)))))

pub pending-Owing : (s : State) → Sound s × (s.row.status ≡ compensation_pending) → Owing s
pending-Owing s (f, e) = (f, subst (λ x. compensating x ≡ true) (sym e) refl)

-- Repairing a compensation keeps the facts.
pub repair_compensation-Keeps : (x : Setting) → Keeps Sound (repair_compensation x)
unfolding repair_compensation
repair_compensation-Keeps x =
    bind-Ensures (read-Ensures {Q = λ _. Sound} _ (λ s p. p) (λ s p. p)) (λ p.
      if-Ensures (same p.status compensated) (λ e. pure-Ensures _ (λ s q. q))
        (λ e. bind-Ensures (unless-Ensures {Q = λ _. Sound} _ _ (λ s q k. q) (λ s q. q)) (λ u.
          with_execution_lease-Keeps compensation_pending _ (λ s l f. f) (λ s l f. f) (λ s f. f)
            (λ s n f. f) (λ lease. weaken (repair_leased-Ensures x p lease) pending-Owing))))
