-- ===== src/Executor/Steps.antt =====
-- The calls that the executor is made of: changes of status, of the lease and of the reservation,
-- and the transactions on the chains.
use settlementos.Base.{
  ℕ, ◌+◌, Bool, true, false, ◌&&◌, List, [], ◌∷◌, ◌++◌, length, ◌==◌, if◌then◌else◌, Option, none,
  some, Result, ok, err,
}
use settlementos.Lifecycle.{PaymentStatus, same, includes, can_transition, lease_release_states}
use settlementos.Executor.State.{
  Payment, State, EscrowState, absent, initiated, released, returned, Reservation, status_change,
  Error, call_failed, execution_lease, stale_transition, invalid_transition, Reply, works, lost,
  fails, reverts, TransactionOutcome, confirmed, reverted, unknown,
}
use settlementos.Executor.Calls.{
  M, Outcome, done, pure, throw, call, read, write, payment, assign, try_catch, quietly, receipt,
  unless, ◌>>=◌, ◌>>◌,
}

abbrev pub is_none {ℓ} : {A : Type ℓ} → Option A → Bool
is_none none = true
is_none (some a) = false

-- The columns that a change of status writes: the caller's, the status, and no lease once the
-- attempt is over.
abbrev pub moved : PaymentStatus → (Payment → Payment) → Payment → Payment
moved to columns row = record (columns row) {
  status = to;
  execution_lease_id =
      if includes lease_release_states to then none else (columns row).execution_lease_id;
}

-- The transaction of `transitionStatus`: it does nothing unless the row is still at `from`.
unfoldable pub swap : PaymentStatus → PaymentStatus → (Payment → Payment) → State → State
swap from to columns s =
    if same s.row.status from
    then record s { row = moved to columns s.row; log = s.log ++ status_change from to ∷ [] }
    else s

unfoldable pub swapped :
    PaymentStatus → PaymentStatus → (Payment → Payment) → State → Result Error Payment
swapped from to columns s =
    if same s.row.status from then ok (moved to columns s.row) else err stale_transition

-- `transitionStatus(payment, to, { data })` of a payment last seen at `from`.
unfoldable pub transition_status : PaymentStatus → PaymentStatus → (Payment → Payment) → M Payment
transition_status from to columns = do
  unless (can_transition from to) invalid_transition
  call (swap from to columns) (swapped from to columns)

-- `await setStatus(payment, to, columns)` of the executor's variable.
abbrev pub set_status : PaymentStatus → (Payment → Payment) → M Payment
set_status to columns = do p ← payment; transition_status p.status to columns

-- `payment = { ...payment, ...(await setStatus(payment, to, columns)) }`.
abbrev pub advance : PaymentStatus → (Payment → Payment) → M (Unit {0})
advance to columns = do updated ← set_status to columns; assign updated

-- `payment.update` of other columns, into the variable as well.
abbrev pub update_columns : (Payment → Payment) → M (Unit {0})
update_columns columns = do
  updated ← call (λ s. record s { row = columns s.row }) (λ s. ok (columns s.row))
  assign updated

-- The claim's WHERE clause.
abbrev pub claimable : PaymentStatus → State → Bool
claimable from s = same s.row.status from && is_none s.row.execution_lease_id

unfoldable pub claim : PaymentStatus → ℕ → State → State
claim from lease s =
    if claimable from s
    then record s { row = record s.row { execution_lease_id = some lease } }
    else s

unfoldable pub claimed : PaymentStatus → State → Result Error (Unit {0})
claimed from s = if claimable from s then ok tt else err execution_lease

abbrev pub holds_lease : ℕ → Option ℕ → Bool
holds_lease lease none = false
holds_lease lease (some other) = lease == other

unfoldable pub release_lease : ℕ → State → State
release_lease lease s =
    if holds_lease lease s.row.execution_lease_id
    then record s { row = record s.row { execution_lease_id = none } }
    else s

-- `randomUUID()`: an identifier that no lease has had.
unfoldable pub random_uuid : M ℕ
random_uuid s rs = done (ok s.next_lease) (record s { next_lease = s.next_lease + 1 }) rs

-- `finally`: the cleanup runs after the body, whose result it keeps.
abbrev pub after {ℓ} : {A : Type ℓ} → Outcome A → M (Unit {0}) → Outcome A
after (done (ok a) s rs) cleanup = (cleanup >> pure a) s rs
after (done (err e) s rs) cleanup = (cleanup >> throw e) s rs

unfoldable pub try_finally {ℓ} : {A : Type ℓ} → M A → M (Unit {0}) → M A
try_finally body cleanup s rs = after (body s rs) cleanup

unfoldable pub with_execution_lease {ℓ} : {A : Type ℓ} → PaymentStatus → (ℕ → M A) → M A
with_execution_lease from body = do
  lease ← random_uuid
  call (claim from lease) (claimed from)
  try_finally (body lease) (quietly (write (release_lease lease)))

-- `liquidityReservation.update(...)`: it throws on a missing row.
unfoldable pub update_reservation : Reservation → M (Unit {0})
update_reservation status =
    call (λ s. if is_none s.reservation then s else record s { reservation = some status })
      (λ s. if is_none s.reservation then err call_failed else ok tt)

-- The contract's transitions, by the state that each requires.
abbrev pub initiate_payment : EscrowState → Option EscrowState
initiate_payment absent = some initiated
initiate_payment _ = none

abbrev pub settle_payment : EscrowState → Option EscrowState
settle_payment initiated = some released
settle_payment _ = none

abbrev pub fail_and_refund : EscrowState → Option EscrowState
fail_and_refund initiated = some returned
fail_and_refund _ = none

-- The escrow after a call of the contract, which changes nothing where it reverts.
abbrev pub mined : Option EscrowState → EscrowState → EscrowState
mined none before = before
mined (some after) before = after

-- `operatorWrite`, which waits for the receipt and throws on a revert; it returns the hash.
unfoldable pub operator_write : (EscrowState → Option EscrowState) → M ℕ
operator_write contract =
    call
      (λ s. record s {
        chain = record s.chain {
          escrow = mined (contract s.chain.escrow) s.chain.escrow;
          writes = s.chain.writes + 1;
        };
      })
      (λ s. if is_none (contract s.chain.escrow) then err call_failed else ok s.chain.writes)

-- `ensureSenderAllowance`: whether an approval was sent.
abbrev pub approve_unless : Bool → M Bool
approve_unless true = pure false
approve_unless false =
    call (λ s. record s { chain = record s.chain { allowed = true } }) (λ s. ok true)

unfoldable pub ensure_sender_allowance : M Bool
ensure_sender_allowance = do enough ← read (λ s. s.chain.allowed); approve_unless enough

-- `treasuryTokenTransfer` to the recipient on the destination network: it returns the hash without
-- waiting for the receipt.
abbrev pub sent_payout : Reply → State → List Reply → Outcome ℕ
sent_payout works s rs =
    done (ok (length s.chain.payouts))
      (record s { chain = record s.chain { payouts = true ∷ s.chain.payouts } }) rs
sent_payout reverts s rs =
    done (ok (length s.chain.payouts))
      (record s { chain = record s.chain { payouts = false ∷ s.chain.payouts } }) rs
sent_payout lost s rs =
    done (err call_failed)
      (record s { chain = record s.chain { payouts = true ∷ s.chain.payouts; orphaned = true } }) rs
sent_payout fails s rs = done (err call_failed) s rs

unfoldable pub send_payout : M ℕ
send_payout s [] = sent_payout works s []
send_payout s (r ∷ rs) = sent_payout r s rs

-- The same call to the sender on the source network.
abbrev pub sent_makegood : Reply → State → List Reply → Outcome ℕ
sent_makegood works s rs =
    done (ok (length s.chain.makegoods))
      (record s { chain = record s.chain { makegoods = true ∷ s.chain.makegoods } }) rs
sent_makegood reverts s rs =
    done (ok (length s.chain.makegoods))
      (record s { chain = record s.chain { makegoods = false ∷ s.chain.makegoods } }) rs
sent_makegood lost s rs =
    done (err call_failed)
      (record s { chain = record s.chain { makegoods = true ∷ s.chain.makegoods } }) rs
sent_makegood fails s rs = done (err call_failed) s rs

unfoldable pub send_makegood : M ℕ
send_makegood s [] = sent_makegood works s []
send_makegood s (r ∷ rs) = sent_makegood r s rs

-- `confirm()`: it waits for a receipt and throws on a revert.
abbrev pub succeeded : Option Bool → Result Error (Unit {0})
succeeded (some true) = ok tt
succeeded _ = err call_failed

unfoldable pub confirm : (State → List Bool) → ℕ → M (Unit {0})
unfolding receipt
confirm transfers hash = call (λ s. s) (λ s. succeeded (receipt hash (transfers s)))

-- `transactionOutcome`: a receipt that cannot be read, or is not there yet, is unknown.
abbrev pub outcome_of : Option Bool → Result Error TransactionOutcome
outcome_of (some true) = ok confirmed
outcome_of (some false) = ok reverted
outcome_of none = err call_failed

unfoldable pub transaction_outcome : (State → List Bool) → ℕ → M TransactionOutcome
unfolding receipt
transaction_outcome transfers hash =
    try_catch (call (λ s. s) (λ s. outcome_of (receipt hash (transfers s)))) (λ e. pure unknown)

-- `onchainPaymentState(…).catch(() => null)`.
unfoldable pub escrow_state : M (Option EscrowState)
escrow_state = try_catch (read (λ s. some s.chain.escrow)) (λ e. pure none)
