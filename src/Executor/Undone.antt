-- ===== src/Executor/Undone.antt =====
-- Refunding, and the whole of the `catch`.
use settlementos.Base.{
  ◌≡◌, refl, sym, subst, ℕ, Bool, true, ◌⊎◌, inl, inr, List, [], ◌∷◌, Option, none, some, arith,
}
use settlementos.Base.Texts.{String}
use settlementos.Lifecycle.{PaymentStatus, same, failed}
use settlementos.Executor.State.{
  RouteOption, Setting, State, Payment, Error, EscrowState, absent, initiated, released, returned,
}
use settlementos.Executor.Steps.{mined, fail_and_refund}
use settlementos.Executor.Recovery.{reconcile_destination_payout}
use settlementos.Executor.Reserve.{message}
use settlementos.Executor.Run.{
  settled_onchain, escrow_held, refund_sender, finish_failed, undo_source, undo_unless, undo_unpaid,
  undo,
}
use settlementos.Executor.Rules.{
  Ensures, pure-Ensures, bind-Ensures, try-Ensures, read-Ensures, payment-Ensures, relax, weaken,
}
use settlementos.Executor.Moves.{set_status-Ensures, advance-Ensures, unless-Ensures}
use settlementos.Executor.Receipts.{escrow_state-Ensures, reservation-Keeps}
use settlementos.Executor.Facts.{
  Facts, Known, Sound, Running, under_way, after_release, Facts-failed, Facts-refunded,
}
use settlementos.Executor.Effects.{Facts-mined, unreleased}
use settlementos.Executor.Recovered.{Completable, audit-Ensures, complete_settled_payout-Ensures}
use settlementos.Executor.Compensated.{Compensable, compensate_sender-Ensures}
use settlementos.Executor.Forward.{if-Ensures, operator-Ensures}
use settlementos.Executor.Undoing.{
  Undoable, Decided, reconcile_hash-Ensures, settled_onchain-released, refunded_escrow,
}

-- A payment that may be marked FAILED.
abbrev Failable : State → Type 0
Failable s = Sound s × (s.chain.makegoods ≡ [])

abbrev Ended : Option Payment → State → Type 0
Ended none s = Failable s
Ended (some p) s = Sound s

refunding :
    {st : PaymentStatus} {ps ms : List Bool} {o : Bool} {c : Option String} {h : Option ℕ}
    (e : EscrowState)
    → Facts st e ps ms o c h
    → under_way st ≡ true
    → Facts st (mined (fail_and_refund e) e) ps ms o c h
refunding initiated f k =
    let (unsent, unpaid) = unreleased f (λ x. cc) in Facts-mined returned f k unsent unpaid
refunding absent f k = f
refunding released f k = f
refunding returned f k = f

refund_sender-Ensures : (reason : String) → Ensures Undoable (refund_sender reason) Ended Sound
unfolding refund_sender
refund_sender-Ensures reason =
    try-Ensures {R' = Failable}
      (bind-Ensures {Q = λ _ s. Failable s × (s.chain.escrow ≡ returned)}
        (operator-Ensures fail_and_refund (λ s p. (p.0.facts, p.0.fresh))
          (λ s w p. (refunding s.chain.escrow p.0.facts p.0.active, p.0.fresh))
          (λ s n w p e. (
            (refunding s.chain.escrow p.0.facts p.0.active, p.0.fresh),
            (refunded_escrow s.chain.escrow e).1,
          )))
        (λ hash. bind-Ensures (audit-Ensures _ (λ s p. p.0) (λ s l p. p)) (λ u.
          bind-Ensures {Q = λ _ s. Failable s × (s.chain.escrow ≡ returned)}
            (advance-Ensures _ _ (λ s p. p.0) (λ s from p. (Facts-failed p.0.0 p.0.1, p.0.1))
              (λ s from p. ((Facts-failed p.0.0 p.0.1, p.0.1), p.1)))
            (λ u.
              bind-Ensures {Q = λ _. Sound}
                (set_status-Ensures _ _ (λ s p. p.0)
                  (λ s from p. (Facts-refunded p.0.0 p.0.1 p.1, p.0.1))
                  (λ s from p. Facts-refunded p.0.0 p.0.1 p.1))
                (λ p. pure-Ensures _ (λ s q. q))))))
      (λ e.
        bind-Ensures (audit-Ensures _ (λ s p. p.0) (λ s l p. p)) (λ u. pure-Ensures _ (λ s p. p)))

finish_failed-Ensures :
    (reason : String) (r : Option Payment)
    → Ensures (Ended r) (finish_failed reason r) (λ _. Sound) Sound
unfolding finish_failed
finish_failed-Ensures reason (some p) = pure-Ensures _ (λ s q. q)
finish_failed-Ensures reason none =
    bind-Ensures (payment-Ensures {Q = λ _. Failable} (λ s p. p)) (λ p.
      if-Ensures (same p.status failed) (λ e. pure-Ensures _ (λ s q. q.0))
        (λ e.
          set_status-Ensures _ _ (λ s q. q.0) (λ s from q. Facts-failed q.0 q.1)
            (λ s from q. Facts-failed q.0 q.1)))

compensable :
    (e : Option EscrowState) (status : PaymentStatus)
    → settled_onchain e status ≡ true
    → (s : State)
    → (Undoable s × ((e ≡ none) ⊎ (e ≡ some s.chain.escrow))) × (s.local.status ≡ status)
    → Compensable s
compensable e status h s (((r, unpaid, failed_payout), found), same_status) = (
  r.facts,
  settled_onchain-released e s.chain.escrow status found
      (subst (λ x. after_release x ≡ true → s.chain.escrow ≡ released) same_status r.released_at) h,
  unpaid,
  failed_payout,
)

undo_source-Ensures :
    (x : Setting) (reason : String) → Ensures Undoable (undo_source x reason) (λ _. Sound) Sound
unfolding undo_source
undo_source-Ensures x reason =
    bind-Ensures (relax (reservation-Keeps _ (λ s r p. p)) (λ a s p. p) (λ s p. p.0.facts)) (λ u.
      bind-Ensures escrow_state-Ensures (λ e.
        bind-Ensures
          {Q = λ p s.
            (Undoable s × ((e ≡ none) ⊎ (e ≡ some s.chain.escrow))) × (s.local.status ≡ p.status)}
          (payment-Ensures (λ s p. (p, refl)))
          (λ p.
            if-Ensures (settled_onchain e p.status)
              (λ h.
                bind-Ensures {Q = λ _. Compensable}
                  (unless-Ensures _ _ (λ s q k. compensable e p.status h s q)
                    (λ s q. q.0.0.0.facts))
                  (λ u. compensate_sender-Ensures reason))
              (λ h.
                bind-Ensures {Q = Ended}
                  (if-Ensures (escrow_held e p.status)
                    (λ k. weaken (refund_sender-Ensures reason) (λ s q. q.0.0))
                    (λ k. pure-Ensures _ (λ s q. (q.0.0.0.facts, q.0.0.0.fresh))))
                  (λ r. finish_failed-Ensures reason r)))))

undo_unless-Ensures :
    (x : Setting) (reason : String) (r : Option Payment)
    → Ensures (Decided r) (undo_unless x reason r) (λ _. Sound) Sound
undo_unless-Ensures x reason (some p) = pure-Ensures _ (λ s q. q)
undo_unless-Ensures x reason none = undo_source-Ensures x reason

Known-Remembered :
    (ps : List Bool) (o : Bool) (h : Option ℕ)
    → Known ps o h
    → (h ≡ none) ⊎ ((h ≡ some 0) × ((b : Bool) × (ps ≡ b ∷ [])))
Known-Remembered ps o h (inl k) = inl k.1
Known-Remembered ps o h (inr (inl k)) = inr k
Known-Remembered ps o h (inr (inr k)) = inl k.2

credited-Completable : (c : String) (s : State) → Running s → some c ≡ s.credit → Completable s
credited-Completable c s r e =
    let free : s.chain.escrow ≡ released = ground (arith, r.facts.credit, e) in
    let good : (s.chain.payouts ≡ []) ⊎ (s.chain.payouts ≡ true ∷ []) =
      ground (arith, r.facts.credit, e) in
    (
      (r.facts, r.fresh, r.active, free, good),
      Known-Remembered s.chain.payouts s.chain.orphaned s.local.destination_tx_hash r.known,
    )

reconcile-Ensures :
    (amount : String)
    → Ensures
        (λ s. Running s × (none ≡ s.credit))
        (reconcile_destination_payout amount)
        Decided
        Sound
unfolding reconcile_destination_payout
reconcile-Ensures amount =
    bind-Ensures
      {Q = λ p s.
        (Running s × (s.credit ≡ none)) × (p.destination_tx_hash ≡ s.local.destination_tx_hash)}
      (payment-Ensures (λ s p. ((p.0, sym p.1), refl)))
      (λ p. reconcile_hash-Ensures amount p.destination_tx_hash)

undo_unpaid-Ensures :
    (x : Setting) (route : RouteOption) (reason : String) (c : Option String)
    → Ensures (λ s. Running s × (c ≡ s.credit)) (undo_unpaid x route reason c) (λ _. Sound) Sound
undo_unpaid-Ensures x route reason (some c) =
    weaken (complete_settled_payout-Ensures _) (λ s p. credited-Completable c s p.0 p.1)
undo_unpaid-Ensures x route reason none =
    bind-Ensures {Q = Decided} (reconcile-Ensures route.estimated_destination_amount)
      (λ r. undo_unless-Ensures x reason r)

-- Whatever threw in the `try`, the `catch` ends soundly.
pub undo-Ensures :
    (x : Setting) (route : RouteOption) (e : Error)
    → Ensures Running (undo x route e) (λ _. Sound) Sound
unfolding undo
undo-Ensures x route e =
    bind-Ensures
      (read-Ensures {Q = λ c s. Running s × (c ≡ s.credit)} _ (λ s p. p.facts) (λ s p. (p, refl)))
      (λ c. undo_unpaid-Ensures x route (message e) c)
