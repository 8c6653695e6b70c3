-- ===== src/Executor/Settling.antt =====
-- The payout, the credit and the end of an execution that goes well.
use settlementos.Base.{◌≡◌, refl, sym, subst, ℕ, true, false, inl, inr, [], ◌∷◌, some, arith}
use settlementos.Lifecycle.{settled, payout_pending}
use settlementos.Executor.State.{RouteOption, State, Payment, consumed}
use settlementos.Executor.Calls.{receipt, assign}
use settlementos.Executor.Steps.{is_none, advance, update_columns, update_reservation}
use settlementos.Executor.Run.{pay_destination, pay_out, is_cross_chain}
use settlementos.Executor.Rules.{
  Ensures, Keeps, pure-Ensures, bind-Ensures, call-Ensures, payment-Ensures, assign-Ensures, relax,
}
use settlementos.Executor.Moves.{advance-Ensures, update-Ensures, if-holds}
use settlementos.Executor.Receipts.{confirm-Ensures}
use settlementos.Executor.Facts.{InRun, Known, Sound, Running}
use settlementos.Executor.Effects.{Facts-recorded}
use settlementos.Executor.Recovered.{Payable, audit-Ensures, credit_recipient-Ensures}
use settlementos.Executor.Forward.{
  if-Ensures, Releasing, InRun-moved, InRun-assigned, advance-Unpaid,
}
use settlementos.Executor.Payouts.{Sent, IsReleased, send_payout-Ensures}

-- A payment whose payout's hash the executor holds.
abbrev Attempted : ℕ → State → Type 0
Attempted hash s = Sent s.local.destination_tx_hash (some hash) s

remember-Ensures :
    (hash : ℕ) (p : Payment)
    → Ensures
        (λ s. Sent (some hash) (some hash) s × (p.status ≡ s.local.status))
        (assign (record p { destination_tx_hash = some hash }))
        (λ _. Attempted hash)
        Running
remember-Ensures hash p = assign-Ensures _ (λ s q.
    let (r, free, unpaid, first, one) = q.0 in
    (
      subst
          (λ x.
            InRun s.row.status s.chain.escrow s.chain.payouts s.chain.makegoods s.chain.orphaned
              s.credit s.row.destination_tx_hash x (some hash))
          (sym q.1) r,
      free,
      unpaid,
      first,
      one,
    ))

-- A row that records the hash of the payout.
recorded :
    (hash : ℕ) (s : State)
    → Attempted hash s
    → InRun s.row.status s.chain.escrow s.chain.payouts s.chain.makegoods s.chain.orphaned s.credit
        (some hash)
        s.local.status
        s.local.destination_tx_hash
recorded hash s (r, free, unpaid, first, one) =
    subst
      (λ x.
        InRun s.row.status s.chain.escrow s.chain.payouts s.chain.makegoods s.chain.orphaned
          s.credit x s.local.status s.local.destination_tx_hash)
      (sym first)
      record {
        facts = Facts-recorded r.facts one;
        fresh = r.fresh;
        active = r.active;
        released_at = r.released_at;
        known = r.known;
      }

-- A payment that may be credited, with what the executor knows of its payout.
abbrev pub Creditable : State → Type 0
Creditable s = Payable s × Known s.chain.payouts s.chain.orphaned s.local.destination_tx_hash

Creditable-Running : (s : State) → Creditable s → Running s
Creditable-Running s ((f, fresh, k, free, good), known) = record {
  facts = f;
  fresh = fresh;
  active = k;
  released_at = λ x. free;
  known = known;
}

landed_payout :
    (hash : ℕ) (s : State)
    → Attempted hash s
    → receipt hash s.chain.payouts ≡ some true
    → s.chain.payouts ≡ true ∷ []
unfolding receipt
landed_payout hash s (r, free, unpaid, first, (b, one)) e =
    let zero : hash ≡ 0 = cc in
    let there : receipt 0 (b ∷ []) ≡ some true = cc in
    let good : b ≡ true = ground (arith, there) in cc

receipt-Creditable :
    (hash : ℕ) (s : State)
    → Attempted hash s
    → receipt hash s.chain.payouts ≡ some true
    → Creditable s
receipt-Creditable hash s p e =
    ((p.0.facts, p.0.fresh, p.0.active, p.1, inr (landed_payout hash s p e)), p.0.known)

persist-Ensures :
    (hash : ℕ)
    → Ensures
        (Attempted hash)
        (update_columns (λ row. record row { destination_tx_hash = some hash }))
        (λ _. Attempted hash)
        Running
persist-Ensures hash =
    update-Ensures _ (λ s p. p.0) (recorded hash)
      (λ s p.
        let (r, free, unpaid, first, one) = p in
        (
          InRun-assigned s.row.status (some hash) (recorded hash s p) (λ x. free)
              (inr (inl (first, one))),
          free,
          unpaid,
          first,
          one,
        ))

pay_destination-Ensures : Ensures Releasing pay_destination (λ _. Creditable) Running
unfolding pay_destination
pay_destination-Ensures = bind-Ensures send_payout-Ensures (λ hash.
    bind-Ensures {Q = λ p s. Sent (some hash) (some hash) s × (p.status ≡ s.local.status)}
      (payment-Ensures (λ s p. (p, refl)))
      (λ p. bind-Ensures (remember-Ensures hash p) (λ u. bind-Ensures (persist-Ensures hash) (λ u.
        bind-Ensures (audit-Ensures _ (λ s p. p.0) (λ s l p. p)) (λ u.
          bind-Ensures (confirm-Ensures _ hash (λ s p. p.0)) (λ u.
            relax (audit-Ensures _ (λ s p. p.0.0) (λ s l p. p))
              (λ a s p. receipt-Creditable hash s p.0 p.1) (λ s p. p)))))))

reservation_consumed :
    Keeps (λ s. Creditable s × (is_none s.credit ≡ false)) (update_reservation consumed)
unfolding update_reservation
reservation_consumed =
    call-Ensures (λ s p. p)
      (λ s p.
        if-holds (λ (t : State). Creditable t × (is_none t.credit ≡ false)) (is_none s.reservation)
          p p)
      (λ s a p e.
        if-holds (λ (t : State). Creditable t × (is_none t.credit ≡ false)) (is_none s.reservation)
          p p)

advance_settled :
    Ensures
      (λ s. Creditable s × (is_none s.credit ≡ false))
      (advance settled (λ p. p))
      (λ _. Sound)
      Running
advance_settled =
    advance-Ensures _ _ (λ s p. Creditable-Running s p.0)
      (λ s from p. InRun-moved settled (Creditable-Running s p.0) refl (λ e. p.1))
      (λ s from p. (InRun-moved settled (Creditable-Running s p.0) refl (λ e. p.1)).facts)

-- Steps 5 and 6 end soundly, or leave what the `catch` relies on.
pub pay_out-Ensures : (route : RouteOption) → Ensures Releasing (pay_out route) (λ _. Sound) Running
unfolding pay_out
pay_out-Ensures route =
    bind-Ensures
      (advance-Unpaid IsReleased payout_pending _ (λ e f x. f) refl (λ e. cc) (λ row. refl))
      (λ u.
        bind-Ensures {Q = λ _. Creditable}
          (if-Ensures (is_cross_chain route) (λ e. pay_destination-Ensures)
            (λ e. pure-Ensures _ (λ s p.
              let ((r, unsent, unpaid), free) = p in
              ((r.facts, r.fresh, r.active, free, inl unsent), r.known))))
          (λ u.
            bind-Ensures {Q = λ _ s. Creditable s × (is_none s.credit ≡ false)}
              (relax
                (credit_recipient-Ensures
                  {X = λ s. Known s.chain.payouts s.chain.orphaned s.local.destination_tx_hash} _
                  (λ s l x. x) (λ s l x. x))
                (λ a s p. ((p.0, p.1), p.2)) Creditable-Running)
              (λ u.
                bind-Ensures
                  (relax reservation_consumed (λ a s p. p) (λ s p. Creditable-Running s p.0))
                  (λ u. bind-Ensures advance_settled (λ u. payment-Ensures (λ s p. p))))))
