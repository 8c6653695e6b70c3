-- ===== src/Executor/Repair.antt =====
-- The operator's tools: the list of stuck payments, the repair of a compensation, and reconciling
-- with the chains.
use settlementos.Base.{
  ℕ, Bool, true, false, ◌&&◌, ◌||◌, not, List, [], ◌∷◌, if◌then◌else◌, Option, none, some,
}
use settlementos.Base.Texts.{String}
use settlementos.Lifecycle.{
  PaymentStatus, same, settled, payout_pending, compensation_pending, compensated, failed,
}
use settlementos.Executor.State.{
  Payment, EscrowState, initiated, released, Reservation, freed, conflict, Setting,
  TransactionOutcome, confirmed, reverted, unknown,
}
use settlementos.Executor.Calls.{
  M, pure, throw, read, audit, payment, assign, quietly, unless, ◌>>=◌, ◌>>◌,
}
use settlementos.Executor.Steps.{
  is_none, set_status, with_execution_lease, update_reservation, transaction_outcome, escrow_state,
}
use settlementos.Executor.Recovery.{
  complete_settled_payout, compensation_context_for, complete_compensation_from_confirmed,
  run_compensation_transfer,
}
use settlementos.Executor.Reserve.{selected_route, lift}

-- A row that `stuckPayments` looks at: the payment, its reservation, and its escrow where the chain
-- could be read.
pub record Watched : Type 0 where
  pub payment : Payment
  pub reservation : Option Reservation
  pub escrow_state : Option EscrowState

-- The WHERE clause.
unfoldable pub is_candidate : Watched → Bool
is_candidate w =
    same w.payment.status compensation_pending
    || same w.payment.status payout_pending
    || (same w.payment.status failed && not (is_none w.reservation))

-- An escrow that holds funds which belong elsewhere, or that could not be read.
abbrev pub holds_funds : Option EscrowState → Bool
holds_funds none = true
holds_funds (some initiated) = true
holds_funds (some released) = true
holds_funds (some _) = false

-- The filter on what the chains answer.
unfoldable pub is_kept : Watched → Bool
is_kept w =
    same w.payment.status compensation_pending
    || same w.payment.status payout_pending
    || holds_funds w.escrow_state

unfoldable pub stuck_payments : List Watched → List Watched
unfolding is_candidate is_kept
stuck_payments [] = []
stuck_payments (w ∷ ws) =
    let rest = stuck_payments ws in
    if is_candidate w then if is_kept w then w ∷ rest else rest else rest

-- Only a released escrow is paid back.
abbrev pub require_released : Option EscrowState → M (Unit {0})
require_released none =
    throw (conflict "source network unreachable — escrow state could not be confirmed")
require_released (some released) = pure tt
require_released (some _) =
    throw (conflict "source escrow was not released — this payment is not owed compensation")

abbrev pub require_unpaid : TransactionOutcome → M (Unit {0})
require_unpaid confirmed =
    throw (conflict "destination payout already confirmed — compensation refused")
require_unpaid unknown =
    throw (conflict "destination payout outcome unresolved — cannot compensate safely")
require_unpaid reverted = pure tt

abbrev pub check_payout : Option ℕ → M (Unit {0})
check_payout none = pure tt
check_payout (some hash) = do
  outcome ← transaction_outcome (λ s. s.chain.payouts) hash
  require_unpaid outcome

-- What runs under the lease of a repair.
unfoldable pub repair_leased : Setting → Payment → ℕ → M Payment
repair_leased x p lease = do
  compensation_context_for x
  check_payout p.destination_tx_hash
  escrow ← escrow_state
  require_released escrow
  assign (record p { execution_lease_id = some lease })
  run_compensation_transfer

-- `repairCompensation`.
unfoldable pub repair_compensation : Setting → M Payment
repair_compensation x = do
  p ← read (λ s. s.row)
  if same p.status compensated then pure p else (do
    unless (same p.status compensation_pending) (conflict "payment cannot be repaired")
    with_execution_lease compensation_pending (repair_leased x p))

-- PaymentReconcileAction.
pub data Action : Type 0 where
  completed_forward awaiting_compensation marked_compensated unchanged : Action

-- PaymentReconcileResult.
pub record ReconcileResult : Type 0 where
  pub payment : Payment
  pub outcome : TransactionOutcome
  pub action : Action

abbrev pub result : TransactionOutcome → Action → Payment → M ReconcileResult
result o a p = pure (record { payment = p; outcome = o; action = a })

-- The amount that a row was settled for, or its route's.
abbrev pub payout_amount : Payment → Option String → M String
payout_amount p (some amount) = pure amount
payout_amount p none = do route ← lift (selected_route p); pure route.estimated_destination_amount

-- What a payout's receipt decides.
unfoldable pub decide_payout : Payment → TransactionOutcome → M ReconcileResult
decide_payout p confirmed = do
  amount ← payout_amount p p.destination_amount
  completed ← complete_settled_payout amount
  result confirmed completed_forward completed
decide_payout p reverted = do
  quietly (update_reservation freed)
  pending ← set_status compensation_pending (λ row. record row {
    failure_reason = some "destination payout reverted — awaiting compensation";
  })
  result reverted awaiting_compensation pending
decide_payout p unknown = do
  audit "payment.destination_payout_unresolved"
  leased ← payment
  result unknown unchanged leased

-- What a make-good's receipt decides.
unfoldable pub decide_compensation : ℕ → TransactionOutcome → M ReconcileResult
decide_compensation hash confirmed = do
  completed ← complete_compensation_from_confirmed hash
  result confirmed marked_compensated completed
decide_compensation hash unknown = do
  audit "payment.compensation_unresolved"
  leased ← payment
  result unknown unchanged leased
decide_compensation hash reverted = do
  audit "payment.compensation_attempt_not_confirmed"
  leased ← payment
  result reverted unchanged leased

unfoldable pub reconcile_payout : Payment → Option ℕ → M ReconcileResult
reconcile_payout p none = throw (conflict "no destination payout attempt to reconcile")
reconcile_payout p (some hash) = with_execution_lease payout_pending (λ lease. do
  assign (record p { execution_lease_id = some lease })
  outcome ← transaction_outcome (λ s. s.chain.payouts) hash
  decide_payout p outcome)

unfoldable pub reconcile_compensation : Setting → Payment → Option ℕ → M ReconcileResult
reconcile_compensation x p none =
    throw (conflict "no compensation attempt to reconcile — use repair to send a transfer")
reconcile_compensation x p (some hash) = with_execution_lease compensation_pending (λ lease. do
  assign (record p { execution_lease_id = some lease })
  compensation_context_for x
  outcome ← transaction_outcome (λ s. s.chain.makegoods) hash
  decide_compensation hash outcome)

abbrev pub reconcile_from : Setting → Payment → PaymentStatus → M ReconcileResult
reconcile_from x p settled = result confirmed unchanged p
reconcile_from x p compensated = result confirmed unchanged p
reconcile_from x p payout_pending = reconcile_payout p p.destination_tx_hash
reconcile_from x p compensation_pending = reconcile_compensation x p p.compensation_tx_hash
reconcile_from x p _ = throw (conflict "payment cannot be reconciled")

-- `reconcileUnresolvedPayment`.
unfoldable pub reconcile_unresolved_payment : Setting → M ReconcileResult
reconcile_unresolved_payment x = do p ← read (λ s. s.row); reconcile_from x p p.status
