-- ===== src/Executor/Recovery.antt =====
-- Finishing a payment whose recipient was paid, and paying a sender back whose escrow is gone.
use settlementos.Base.{ℕ, Option, none, some}
use settlementos.Base.Texts.{String}
use settlementos.Lifecycle.{settled, compensation_pending, compensated}
use settlementos.Executor.State.{
  Payment, consumed, Error, conflict, no_wallet, Setting, TransactionOutcome, confirmed, reverted,
  unknown,
}
use settlementos.Executor.Calls.{
  M, pure, throw, read, write, audit, payment, assign, try_catch, quietly, unless, ◌>>=◌, ◌>>◌,
}
use settlementos.Executor.Steps.{
  set_status, update_columns, update_reservation, send_makegood, confirm, transaction_outcome,
}

-- The credit to the recipient's ledger.
abbrev pub credit_recipient : String → M (Unit {0})
credit_recipient amount = do
  write (λ s. record s { credit = some amount })
  audit "payout.ledger_credit"

abbrev pub credit_unless_paid : String → Option String → M (Unit {0})
credit_unless_paid amount none = credit_recipient amount
credit_unless_paid amount (some existing) = pure tt

-- `{ destinationTxHash }` where there is one, and nothing to write otherwise.
abbrev pub carry_hash : Option ℕ → Payment → Payment
carry_hash none p = p
carry_hash (some hash) p = record p { destination_tx_hash = some hash }

-- `completeSettledPayout` of the executor's variable.
unfoldable pub complete_settled_payout : String → M Payment
complete_settled_payout amount = do
  existing ← read (λ s. s.credit)
  credit_unless_paid amount existing
  quietly (update_reservation consumed)
  audit "payment.settlement_recovered"
  p ← payment
  set_status settled (carry_hash p.destination_tx_hash)

abbrev pub payout_found : String → TransactionOutcome → M (Option Payment)
payout_found amount confirmed = do p ← complete_settled_payout amount; pure (some p)
payout_found amount unknown = do
  audit "payment.destination_payout_unresolved"
  p ← payment
  pure (some p)
payout_found amount reverted = pure none

abbrev pub reconcile_hash : String → Option ℕ → M (Option Payment)
reconcile_hash amount none = pure none
reconcile_hash amount (some hash) = do
  outcome ← transaction_outcome (λ s. s.chain.payouts) hash
  payout_found amount outcome

-- `reconcileDestinationPayout`: what the payout's receipt decides, if it decides.
unfoldable pub reconcile_destination_payout : String → M (Option Payment)
reconcile_destination_payout amount = do p ← payment; reconcile_hash amount p.destination_tx_hash

-- `compensationContextFor`, as far as it can throw.
abbrev pub compensation_context_for : Setting → M (Unit {0})
compensation_context_for x = unless x.has_sender_wallet no_wallet

-- `completeCompensationFromConfirmed`.
unfoldable pub complete_compensation_from_confirmed : ℕ → M Payment
complete_compensation_from_confirmed hash = do
  audit "payment.compensation_recovered"
  set_status compensated (λ p. record p { compensation_tx_hash = some hash })

-- The body of `runCompensationTransfer`'s `try`.
unfoldable pub compensation_transfer : M Payment
compensation_transfer = do
  hash ← send_makegood
  p ← payment
  assign (record p { compensation_tx_hash = some hash })
  update_columns (λ row. record row { compensation_tx_hash = some hash })
  audit "payment.compensation_submitted"
  confirm (λ s. s.chain.makegoods) hash
  audit "payment.compensation_transfer"
  set_status compensated (λ row. record row { compensation_tx_hash = some hash })

abbrev pub persist_unless : ℕ → Option ℕ → M (Unit {0})
persist_unless hash (some stored) = pure tt
persist_unless hash none =
    quietly (write (λ s. record s { row = record s.row { compensation_tx_hash = some hash } }))

abbrev pub compensation_failed : M Payment
compensation_failed = do audit "payment.compensation_failed"; payment

abbrev pub settle_attempt : ℕ → TransactionOutcome → M Payment
settle_attempt hash confirmed = complete_compensation_from_confirmed hash
settle_attempt hash reverted = compensation_failed
settle_attempt hash unknown = compensation_failed

abbrev pub recover_attempt : Option ℕ → M Payment
recover_attempt none = compensation_failed
recover_attempt (some hash) = do
  stored ← read (λ s. s.row.compensation_tx_hash)
  persist_unless hash stored
  outcome ← transaction_outcome (λ s. s.chain.makegoods) hash
  settle_attempt hash outcome

-- Its `catch`.
unfoldable pub recover_compensation : Error → M Payment
recover_compensation e = do p ← payment; recover_attempt p.compensation_tx_hash

unfoldable pub send_compensation : M Payment
send_compensation = try_catch compensation_transfer recover_compensation

abbrev pub prior_attempt : ℕ → TransactionOutcome → M Payment
prior_attempt hash confirmed = complete_compensation_from_confirmed hash
prior_attempt hash reverted = send_compensation
prior_attempt hash unknown = do
  audit "payment.compensation_unresolved"
  throw (conflict "compensation outcome unresolved — cannot transfer safely")

abbrev pub after_attempt : Option ℕ → M Payment
after_attempt none = send_compensation
after_attempt (some hash) = do
  prior ← transaction_outcome (λ s. s.chain.makegoods) hash
  prior_attempt hash prior

-- `runCompensationTransfer` of the executor's variable.
unfoldable pub run_compensation_transfer : M Payment
run_compensation_transfer = do p ← payment; after_attempt p.compensation_tx_hash

-- `compensateSender`.
unfoldable pub compensate_sender : String → M Payment
compensate_sender reason = do
  pending ← set_status compensation_pending (λ p. record p { failure_reason = some reason })
  assign pending
  run_compensation_transfer
