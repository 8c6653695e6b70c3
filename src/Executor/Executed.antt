-- ===== src/Executor/Executed.antt =====
-- An execution keeps the facts, however its calls end.
use settlementos.Base.{◌≡◌, refl, sym, subst, ℕ, Bool, true, false, inl, [], Result, ok, err, arith}
use settlementos.Base.Texts.{String, str_eq}
use settlementos.Lifecycle.{approved, liquidity_reserved}
use settlementos.Executor.State.{Setting, State, Error, insufficient_free_balance}
use settlementos.Executor.Reserve.{
  selected_route, lift, adopt_network, recall_for_payment, recall_refused, recall_if,
  recall_if_short, auto_recall, still_ours, reserve_rows, fail_short, reserve_liquidity,
}
use settlementos.Executor.Run.{run_execution, execute_payment}
use settlementos.Executor.Rules.{
  Ensures, Keeps, pure-Ensures, throw-Ensures, bind-Ensures, try-Ensures, call-Ensures,
  read-Ensures, payment-Ensures, assign-Ensures, relax,
}
use settlementos.Executor.Moves.{
  set_status-Ensures, advance-Ensures, update-Ensures, unless-Ensures, if-holds,
  with_execution_lease-Keeps,
}
use settlementos.Executor.Receipts.{reservation-Keeps}
use settlementos.Executor.Facts.{Facts, Sound, compensating, Facts-moved, Facts-failed}
use settlementos.Executor.Forward.{if-Ensures, Unpaid, no_hash}
use settlementos.Executor.Payouts.{settle_source-Ensures}
use settlementos.Executor.Settling.{pay_out-Ensures}
use settlementos.Executor.Undone.{undo-Ensures}

-- A payment that has not been reserved for yet.
abbrev Ready : State → Type 0
Ready s = Sound s × (s.row.status ≡ approved)

Ready-fresh : (s : State) → Ready s → s.chain.makegoods ≡ []
Ready-fresh s (f, e) =
    let quiet : compensating s.row.status ≡ false =
      subst (λ x. compensating x ≡ false) (sym e) refl in
    ground (arith, f.makegoods, quiet)

lift-Ensures : {A : Type 0} (r : Result Error A) → Ensures Ready (lift r) (λ _. Ready) Sound
lift-Ensures (ok a) = pure-Ensures _ (λ s p. p)
lift-Ensures (err e) = throw-Ensures _ (λ s p. p.0)

adopt_network-Ensures :
    (network : String) → Ensures Ready (adopt_network network) (λ _. Ready) Sound
adopt_network-Ensures network = bind-Ensures (payment-Ensures {Q = λ _. Ready} (λ s p. p)) (λ p.
    if-Ensures (str_eq p.destination_network network) (λ e. pure-Ensures _ (λ s p. p))
      (λ e. update-Ensures _ (λ s p. p.0) (λ s p. p.0) (λ s p. p)))

recall-Keeps : (x : Setting) (needed : ℕ) → Keeps Ready (recall_for_payment x needed)
unfolding recall_for_payment
recall-Keeps x needed = call-Ensures (λ s p. p) (λ s p. p) (λ s a p e. p)

recall_refused-Ensures : (e : Error) → Ensures Ready (recall_refused e) (λ _. Ready) Sound
recall_refused-Ensures insufficient_free_balance = pure-Ensures _ (λ s p. p)
recall_refused-Ensures _ =
    bind-Ensures (relax (reservation-Keeps {I = Ready} _ (λ s r p. p)) (λ a s p. p) (λ s p. p.0))
      (λ u.
        bind-Ensures {Q = λ _. Sound}
          (set_status-Ensures _ _ (λ s p. p.0) (λ s from p. Facts-failed p.0 (Ready-fresh s p))
            (λ s from p. Facts-failed p.0 (Ready-fresh s p)))
          (λ p. throw-Ensures _ (λ s q. q)))

recall_if-Ensures :
    (x : Setting) (needed : ℕ) (b : Bool) → Ensures Ready (recall_if x needed b) (λ _. Ready) Sound
recall_if-Ensures x needed false = pure-Ensures _ (λ s p. p)
recall_if-Ensures x needed true =
    try-Ensures {R' = Ready} (recall-Keeps x needed) recall_refused-Ensures

recall_if_short-Ensures :
    (x : Setting) (needed : ℕ) (b : Bool)
    → Ensures Ready (recall_if_short x needed b) (λ _. Ready) Sound
recall_if_short-Ensures x needed false = pure-Ensures _ (λ s p. p)
recall_if_short-Ensures x needed true =
    bind-Ensures (read-Ensures {Q = λ _. Ready} _ (λ s p. p.0) (λ s p. p))
      (λ parked. recall_if-Ensures x needed _)

auto_recall-Ensures :
    (x : Setting) (needed : ℕ) → Ensures Ready (auto_recall x needed) (λ _. Ready) Sound
unfolding auto_recall
auto_recall-Ensures x needed =
    bind-Ensures (read-Ensures {Q = λ _. Ready} _ (λ s p. p.0) (λ s p. p))
      (λ available. recall_if_short-Ensures x needed _)

fail_short-Ensures : (b : Bool) → Ensures Ready (fail_short b) (λ _. Ready) Sound
fail_short-Ensures false = pure-Ensures _ (λ s p. p)
fail_short-Ensures true =
    bind-Ensures {Q = λ _. Sound}
      (set_status-Ensures _ _ (λ s p. p.0) (λ s from p. Facts-failed p.0 (Ready-fresh s p))
        (λ s from p. Facts-failed p.0 (Ready-fresh s p)))
      (λ p. throw-Ensures _ (λ s q. q))

reserve_rows-Ensures : (lease : ℕ) → Ensures Ready (reserve_rows lease) (λ _. Ready) Sound
unfolding reserve_rows
reserve_rows-Ensures lease =
    call-Ensures (λ s p. p.0) (λ s p. if-holds Sound (still_ours lease s) p.0 p.0)
      (λ s a p e. if-holds Ready (still_ours lease s) p p)

reserved-Facts :
    (s : State)
    → Ready s
    → Facts liquidity_reserved s.chain.escrow s.chain.payouts s.chain.makegoods s.chain.orphaned
        s.credit s.row.destination_tx_hash
reserved-Facts s p = Facts-moved liquidity_reserved p.0 (Ready-fresh s p) refl (λ e. cc)

reserve-Ensures :
    (lease needed : ℕ) → Ensures Ready (reserve_liquidity lease needed) (λ _. Unpaid) Sound
unfolding reserve_liquidity
reserve-Ensures lease needed =
    bind-Ensures (read-Ensures {Q = λ _. Ready} _ (λ s p. p.0) (λ s p. p)) (λ available.
      bind-Ensures (fail_short-Ensures _) (λ u. bind-Ensures (reserve_rows-Ensures lease) (λ u.
        advance-Ensures _ _ (λ s p. p.0) (λ s from p. reserved-Facts s p)
          (λ s from p.
            let (absent_escrow, unsent, unpaid) = p.0.early p.1 in
            (
              record {
                facts = reserved-Facts s p;
                fresh = Ready-fresh s p;
                active = refl;
                released_at = λ e. cc;
                known = inl (unsent, no_hash p.0 unsent);
              },
              unsent,
              unpaid,
            )))))

run_execution-Ensures :
    (x : Setting) (lease : ℕ) → Ensures Ready (run_execution x lease) (λ _. Sound) Sound
unfolding run_execution
run_execution-Ensures x lease = bind-Ensures (payment-Ensures {Q = λ _. Ready} (λ s p. p)) (λ p.
    bind-Ensures (lift-Ensures (selected_route p)) (λ route.
      bind-Ensures (unless-Ensures {Q = λ _. Ready} _ _ (λ s p e. p) (λ s p. p.0)) (λ u.
        bind-Ensures (adopt_network-Ensures _) (λ u. bind-Ensures (auto_recall-Ensures x _) (λ u.
          bind-Ensures (reserve-Ensures lease _) (λ u.
            try-Ensures (bind-Ensures (settle_source-Ensures route) (λ u. pay_out-Ensures route))
              (undo-Ensures x route)))))))

-- Executing a payment keeps the facts.
pub execute_payment-Keeps : (x : Setting) → Keeps Sound (execute_payment x)
unfolding execute_payment
execute_payment-Keeps x = bind-Ensures (read-Ensures {Q = λ _. Sound} _ (λ s p. p) (λ s p. p)) (λ p.
    bind-Ensures (unless-Ensures {Q = λ _. Sound} _ _ (λ s p e. p) (λ s p. p)) (λ u.
      with_execution_lease-Keeps approved _ (λ s l f. f) (λ s l f. f) (λ s f. f) (λ s n f. f)
        (λ lease.
          bind-Ensures (assign-Ensures {Q = λ _. Ready} _ (λ s q. q))
            (λ u. run_execution-Ensures x lease))))
