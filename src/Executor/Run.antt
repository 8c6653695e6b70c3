-- ===== src/Executor/Run.antt =====
-- `executePayment`: the saga of an approved payment.
use settlementos.Base.{ℕ, Bool, true, false, ◌&&◌, not, [], ◌∷◌, if◌then◌else◌, Option, none, some}
use settlementos.Base.Texts.{String, str_eq}
use settlementos.Lifecycle.{
  PaymentStatus, same, includes, approved, submitted_onchain, confirmed_onchain,
  fx_or_swap_completed, payout_pending, settled, failed, refunded,
}
use settlementos.Executor.State.{
  RouteOption, Payment, EscrowState, initiated, released, consumed, freed, Error, no_wallet,
  not_approved, Setting,
}
use settlementos.Executor.Calls.{
  M, pure, read, audit, payment, assign, try_catch, quietly, unless, ◌>>=◌, ◌>>◌,
}
use settlementos.Executor.Steps.{
  set_status, advance, update_columns, with_execution_lease, update_reservation, initiate_payment,
  settle_payment, fail_and_refund, operator_write, ensure_sender_allowance, send_payout, confirm,
  escrow_state,
}
use settlementos.Executor.Recovery.{
  credit_recipient, complete_settled_payout, reconcile_destination_payout, compensation_context_for,
  compensate_sender,
}
use settlementos.Executor.Reserve.{
  message, selected_route, lift, adopt_network, auto_recall, reserve_liquidity,
}

-- Steps 2 to 4: the allowance, the escrow and its release.
unfoldable pub settle_source : RouteOption → M (Unit {0})
settle_source route = do
  granted ← ensure_sender_allowance
  if granted then audit "payment.allowance_granted" else pure tt
  hash ← operator_write initiate_payment
  advance submitted_onchain (λ p. record p { tx_hash = some hash })
  advance confirmed_onchain (λ p. p)
  settle_hash ← operator_write settle_payment
  advance fx_or_swap_completed (λ p. record p {
    settle_tx_hash = some settle_hash;
    fx_rate = some route.estimated_fx_rate;
    destination_amount = some route.estimated_destination_amount;
  })

-- The bridge's leg of step 5.
unfoldable pub pay_destination : M (Unit {0})
pay_destination = do
  hash ← send_payout
  p ← payment
  assign (record p { destination_tx_hash = some hash })
  update_columns (λ row. record row { destination_tx_hash = some hash })
  audit "bridge.destination_payout_submitted"
  confirm (λ s. s.chain.payouts) hash
  audit "bridge.destination_payout"

abbrev pub is_cross_chain : RouteOption → Bool
is_cross_chain route = not (str_eq route.source_network route.destination_network)

-- Steps 5 and 6: the payout, the ledger and the end.
unfoldable pub pay_out : RouteOption → M Payment
pay_out route = do
  advance payout_pending (λ p. p)
  if is_cross_chain route then pay_destination else pure tt
  credit_recipient route.estimated_destination_amount
  update_reservation consumed
  advance settled (λ p. p)
  payment

-- The escrow was released: by the chain, or by the status where the chain cannot be read.
abbrev pub settled_onchain : Option EscrowState → PaymentStatus → Bool
settled_onchain none s = includes (fx_or_swap_completed ∷ payout_pending ∷ []) s
settled_onchain (some released) s = true
settled_onchain (some _) s = false

-- The escrow still holds the funds.
abbrev pub escrow_held : Option EscrowState → PaymentStatus → Bool
escrow_held none s = includes (submitted_onchain ∷ confirmed_onchain ∷ []) s
escrow_held (some initiated) s = true
escrow_held (some _) s = false

-- The refund; `none` where it threw.
unfoldable pub refund_sender : String → M (Option Payment)
refund_sender reason =
    try_catch
      (do
        _ ← operator_write fail_and_refund
        audit "payment.onchain_refund"
        advance failed (λ p. record p { failure_reason = some reason })
        p ← set_status refunded (λ p. p)
        pure (some p))
      (λ e. audit "payment.refund_failed" >> pure none)

unfoldable pub finish_failed : String → Option Payment → M Payment
finish_failed reason (some p) = pure p
finish_failed reason none = do
  p ← payment
  if same p.status failed
      then pure p
      else set_status failed (λ p. record p { failure_reason = some reason })

-- The second half of the `catch`: the recipient was not paid.
unfoldable pub undo_source : Setting → String → M Payment
undo_source x reason = do
  quietly (update_reservation freed)
  escrow ← escrow_state
  p ← payment
  if settled_onchain escrow p.status
      then compensation_context_for x >> compensate_sender reason
      else (do
        refund ← if escrow_held escrow p.status then refund_sender reason else pure none
        finish_failed reason refund)

abbrev pub undo_unless : Setting → String → Option Payment → M Payment
undo_unless x reason (some p) = pure p
undo_unless x reason none = undo_source x reason

abbrev pub undo_unpaid : Setting → RouteOption → String → Option String → M Payment
undo_unpaid x route reason (some credit) =
    complete_settled_payout route.estimated_destination_amount
undo_unpaid x route reason none = do
  reconciled ← reconcile_destination_payout route.estimated_destination_amount
  undo_unless x reason reconciled

-- The `catch` of `runExecution`.
unfoldable pub undo : Setting → RouteOption → Error → M Payment
undo x route e = do credit ← read (λ s. s.credit); undo_unpaid x route (message e) credit

-- `runExecution` of the executor's variable.
unfoldable pub run_execution : Setting → ℕ → M Payment
run_execution x lease = do
  claimed ← payment
  route ← lift (selected_route claimed)
  unless (x.has_sender_wallet && x.has_recipient_wallet) no_wallet
  adopt_network route.destination_network
  auto_recall x (x.base_units route.estimated_destination_amount)
  reserve_liquidity lease (x.base_units route.estimated_destination_amount)
  try_catch (settle_source route >> pay_out route) (undo x route)

-- `executePayment`.
unfoldable pub execute_payment : Setting → M Payment
execute_payment x = do
  p ← read (λ s. s.row)
  unless (same p.status approved) not_approved
  with_execution_lease approved
      (λ lease. assign (record p { execution_lease_id = some lease }) >> run_execution x lease)
