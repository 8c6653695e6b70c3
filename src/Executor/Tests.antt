-- ===== src/Executor/Tests.antt =====
-- Runs of the executor on concrete payments, and the theorems there.
use settlementos.Base.{◌≡◌, refl, ◌+◌, ◌≤◌, true, false, List, [], ◌∷◌, none, some, ok, err, arith}
use settlementos.Lifecycle.{
  approved, settled, compensated, refunded, lease_release_states, terminal_states, can_transition,
  transitions,
}
use settlementos.Executor.State.{
  State, Setting, Payment, RouteOption, Reply, works, reverts, absent, returned,
}
use settlementos.Executor.Calls.{
  done, pure, throw, ◌>>=◌, try_catch, call, payment, assign, receipt,
}
use settlementos.Executor.Steps.{
  is_none, swap, swapped, transition_status, claim, claimed, release_lease, random_uuid,
  try_finally, with_execution_lease, update_reservation, operator_write, ensure_sender_allowance,
  send_payout, send_makegood, confirm, transaction_outcome, escrow_state,
}
use settlementos.Executor.Recovery.{
  complete_settled_payout, reconcile_destination_payout, complete_compensation_from_confirmed,
  compensation_transfer, recover_compensation, send_compensation, run_compensation_transfer,
  compensate_sender,
}
use settlementos.Executor.Reserve.{
  find_route, selected_route, recall_for_payment, auto_recall, reserve_rows, reserve_liquidity,
}
use settlementos.Executor.Run.{
  settle_source, pay_destination, pay_out, refund_sender, finish_failed, undo_source, undo,
  run_execution, execute_payment,
}
use settlementos.Executor.Steps.{moved}
use settlementos.Executor.Moves.{with_status}
use settlementos.Executor.State.{stale_transition, execution_lease}
use settlementos.Lifecycle.{liquidity_reserved, cancelled}
use settlementos.Executor.Repair.{reconcile_unresolved_payment}
use settlementos.Executor.Races.{one_winner, claim_refused}
use settlementos.Executor.Yields.{Returned}
use settlementos.Executor.Finished.{Done}
use settlementos.Executor.Success.{execute_settles}
use settlementos.Base.{inl, inr}
use settlementos.Lifecycle.{failed}
use settlementos.Executor.State.{released, freed}
use settlementos.Executor.Repair.{Watched, stuck_payments}
use settlementos.Executor.Listing.{Listed, first, stuck_payments_complete}
use settlementos.Executor.Safety.{
  Operation, execute, reconcile, perform, perform_all, IsNew, recipient_paid, sender_repaid,
  escrow_returned, one_if, never_paid_twice, status_tells_truth,
}

abbrev route : RouteOption
route = record {
  route_id = "r1";
  source_network = "fuji";
  destination_network = "amoy";
  estimated_fx_rate = "157.2";
  estimated_destination_amount = "1572";
}

abbrev approved_payment : Payment
approved_payment = record {
  status = approved;
  quote = some (route ∷ []);
  selected_route_id = some "r1";
  source_network = "fuji";
  destination_network = "amoy";
  tx_hash = none;
  settle_tx_hash = none;
  fx_rate = none;
  destination_amount = none;
  destination_tx_hash = none;
  compensation_tx_hash = none;
  failure_reason = none;
  execution_lease_id = none;
}

abbrev new_state : State
new_state = record {
  row = approved_payment;
  local = approved_payment;
  chain = record {
    escrow = absent;
    payouts = [];
    makegoods = [];
    orphaned = false;
    allowed = false;
    writes = 0;
  };
  credit = none;
  reservation = none;
  log = [];
  available = 5_000;
  parked = 0;
  next_lease = 0;
}

abbrev setting : Setting
setting = record {
  base_units = λ amount. 1_572;
  has_sender_wallet = true;
  has_recipient_wallet = true;
  recall = λ free parked. (free, parked);
}

abbrev is_new : IsNew new_state
is_new = record {
  is_approved = refl;
  no_escrow = refl;
  no_payouts = refl;
  no_makegoods = refl;
  no_credit = refl;
  no_hash = refl;
}

went_well : (perform_all setting ((execute, []) ∷ []) new_state).row.status ≡ settled
unfolding perform_all perform pure throw ◌>>=◌ try_catch call payment assign receipt swap swapped
    transition_status claim claimed release_lease random_uuid try_finally with_execution_lease
    update_reservation operator_write ensure_sender_allowance send_payout send_makegood confirm
    transaction_outcome escrow_state complete_settled_payout reconcile_destination_payout
    complete_compensation_from_confirmed compensation_transfer recover_compensation
    send_compensation run_compensation_transfer compensate_sender find_route selected_route
    recall_for_payment auto_recall reserve_rows reserve_liquidity settle_source pay_destination
    pay_out refund_sender finish_failed undo_source undo run_execution execute_payment
    reconcile_unresolved_payment lease_release_states terminal_states can_transition transitions
went_well = refl

-- The payout is the sixteenth call, and its transaction reverts; then the operator reconciles.
abbrev bad_payout : List (Operation × List Reply)
bad_payout =
    (
      execute,
      works ∷ works ∷ works ∷ works ∷ works ∷ works ∷ works ∷ works ∷ works ∷ works ∷ works ∷ works
          ∷ works ∷ works ∷ works ∷ reverts ∷ [],
    )
    ∷ (reconcile, [])
    ∷ []

bad_payout_compensated : (perform_all setting bad_payout new_state).row.status ≡ compensated
unfolding perform_all perform pure throw ◌>>=◌ try_catch call payment assign receipt swap swapped
    transition_status claim claimed release_lease random_uuid try_finally with_execution_lease
    update_reservation operator_write ensure_sender_allowance send_payout send_makegood confirm
    transaction_outcome escrow_state complete_settled_payout reconcile_destination_payout
    complete_compensation_from_confirmed compensation_transfer recover_compensation
    send_compensation run_compensation_transfer compensate_sender find_route selected_route
    recall_for_payment auto_recall reserve_rows reserve_liquidity settle_source pay_destination
    pay_out refund_sender finish_failed undo_source undo run_execution execute_payment
    reconcile_unresolved_payment lease_release_states terminal_states can_transition transitions
bad_payout_compensated = refl

not_orphaned : (perform_all setting bad_payout new_state).chain.orphaned ≡ false
unfolding perform_all perform pure throw ◌>>=◌ try_catch call payment assign receipt swap swapped
    transition_status claim claimed release_lease random_uuid try_finally with_execution_lease
    update_reservation operator_write ensure_sender_allowance send_payout send_makegood confirm
    transaction_outcome escrow_state complete_settled_payout reconcile_destination_payout
    complete_compensation_from_confirmed compensation_transfer recover_compensation
    send_compensation run_compensation_transfer compensate_sender find_route selected_route
    recall_for_payment auto_recall reserve_rows reserve_liquidity settle_source pay_destination
    pay_out refund_sender finish_failed undo_source undo run_execution execute_payment
    reconcile_unresolved_payment lease_release_states terminal_states can_transition transitions
not_orphaned = refl

never_paid_twice_example :
    one_if (recipient_paid (perform_all setting bad_payout new_state))
      + one_if (sender_repaid (perform_all setting bad_payout new_state))
      + one_if (escrow_returned (perform_all setting bad_payout new_state))
    ≤ 1
never_paid_twice_example = never_paid_twice setting bad_payout new_state is_new not_orphaned

status_tells_truth_example :
    ((perform_all setting bad_payout new_state).row.status ≡ settled
      → is_none (perform_all setting bad_payout new_state).credit ≡ false)
    × ((perform_all setting bad_payout new_state).row.status ≡ compensated
        → (sender_repaid (perform_all setting bad_payout new_state) ≡ true)
          × ((perform_all setting bad_payout new_state).credit ≡ none))
    × ((perform_all setting bad_payout new_state).row.status ≡ refunded
        → (perform_all setting bad_payout new_state).chain.escrow ≡ returned)
status_tells_truth_example = status_tells_truth setting bad_payout new_state is_new

one_winner_example :
    (transition_status approved liquidity_reserved (λ p. p) new_state []
      ≡ done
          (ok (moved liquidity_reserved (λ p. p) approved_payment))
          (with_status approved liquidity_reserved (λ p. p) new_state)
          [])
    × (transition_status approved cancelled
          (λ p. p)
          (with_status approved liquidity_reserved (λ p. p) new_state)
          []
        ≡ done
            (err stale_transition)
            (with_status approved liquidity_reserved (λ p. p) new_state)
            [])
unfolding can_transition
one_winner_example =
    one_winner approved liquidity_reserved cancelled (λ p. p) (λ p. p) new_state refl (λ e. cc) refl
      refl

abbrev leased_state : State
leased_state = record new_state { row = record new_state.row { execution_lease_id = some 9 } }

claim_refused_example :
    with_execution_lease approved (λ lease. pure lease) leased_state []
    ≡ done (err execution_lease) (record leased_state { next_lease = 1 }) []
claim_refused_example = claim_refused approved (λ lease. pure lease) leased_state (inr (9, refl))

execute_settles_example : Returned (Done route) (execute_payment setting new_state [])
unfolding selected_route find_route
execute_settles_example =
    execute_settles setting new_state route refl refl refl refl (omega arith) refl refl

abbrev stranded : Watched
stranded = record {
  payment = record approved_payment { status = failed };
  reservation = some freed;
  escrow_state = none;
}

stuck_payments_complete_example : Listed stranded (stuck_payments (stranded ∷ []))
stuck_payments_complete_example =
    stuck_payments_complete stranded released (stranded ∷ []) first (inl refl)
      (inr (inr (refl, refl, inr refl)))
