-- ===== src/Executor/Reconciled.antt =====
-- Reconciling with the chains keeps the facts.
use settlementos.Base.{
  ◌≡◌, ◌∙◌, refl, sym, subst, ap, ℕ, Bool, true, false, ◌⊎◌, inl, inr, List, [], ◌∷◌, Option, none,
  some, Result, ok, err, arith,
}
use settlementos.Base.Texts.{String}
use settlementos.Lifecycle.{
  PaymentStatus, settled, payout_pending, compensation_pending, compensated,
}
use settlementos.Executor.State.{
  Setting, State, Payment, Error, released, TransactionOutcome, confirmed, reverted, unknown,
}
use settlementos.Executor.Calls.{receipt}
use settlementos.Executor.Reserve.{selected_route, lift}
use settlementos.Executor.Repair.{
  payout_amount, decide_payout, decide_compensation, reconcile_payout, reconcile_compensation,
  reconcile_from, reconcile_unresolved_payment,
}
use settlementos.Executor.Rules.{
  Ensures, Keeps, pure-Ensures, throw-Ensures, bind-Ensures, read-Ensures, payment-Ensures,
  assign-Ensures, relax, weaken,
}
use settlementos.Executor.Moves.{set_status-Ensures, unless-Ensures, with_execution_lease-Keeps}
use settlementos.Executor.Receipts.{Read, transaction_outcome-Ensures, reservation-Keeps}
use settlementos.Executor.Facts.{Facts, Sound, landed, compensating, under_way}
use settlementos.Executor.Effects.{Facts-pending}
use settlementos.Executor.Recovered.{Completable, audit-Ensures, complete_settled_payout-Ensures}
use settlementos.Executor.Compensated.{Owing, complete_compensation-Ensures}
use settlementos.Executor.Undoing.{read_payout}
use settlementos.Executor.Repaired.{pending-Owing}

-- What a row that waits for its payout's receipt has.
abbrev Awaiting : ℕ → State → Type 0
Awaiting hash s =
    (Sound s × (s.row.status ≡ payout_pending))
    × (s.row.destination_tx_hash ≡ some hash)
    × (s.local.destination_tx_hash ≡ some hash)

recorded_payout :
    (ps : List Bool) (h : Option ℕ) (hash : ℕ)
    → (h ≡ none) ⊎ ((h ≡ some 0) × ((x : Bool) × (ps ≡ x ∷ [])))
    → h ≡ some hash
    → (some hash ≡ some 0) × ((x : Bool) × (ps ≡ x ∷ []))
recorded_payout ps h hash (inl e) k = cc
recorded_payout ps h hash (inr (e, one)) k = (sym k ∙ e, one)

lift-Ensures :
    {A : Type 0} (r : Result Error A) → Ensures Completable (lift r) (λ _. Completable) Sound
lift-Ensures (ok a) = pure-Ensures _ (λ s p. p)
lift-Ensures (err e) = throw-Ensures _ (λ s p. p.0.0)

-- What the receipt says of the payouts.
awaited :
    (hash : ℕ) (b : Bool) (s : State)
    → Awaiting hash s
    → receipt hash s.chain.payouts ≡ some b
    → (s.chain.payouts ≡ b ∷ [])
      × (s.chain.escrow ≡ released)
      × (s.local.destination_tx_hash ≡ some 0)
awaited hash b s ((f, st), recorded, remembered) r =
    let sent : (some hash ≡ some 0) × ((x : Bool) × (s.chain.payouts ≡ x ∷ [])) =
      recorded_payout s.chain.payouts s.row.destination_tx_hash hash f.hash recorded in
    let (first, one) =
      read_payout s.chain.payouts s.chain.orphaned (some hash) hash b (inr (inl sent)) refl r in
    (one, ground (arith, f.payouts, one), remembered ∙ first)

pending_fresh : (s : State) → Sound s × (s.row.status ≡ payout_pending) → s.chain.makegoods ≡ []
pending_fresh s (f, e) =
    let quiet : compensating s.row.status ≡ false =
      subst (λ x. compensating x ≡ false) (sym e) refl in
    ground (arith, f.makegoods, quiet)

awaited-Completable :
    (hash : ℕ) (s : State)
    → Awaiting hash s
    → receipt hash s.chain.payouts ≡ some true
    → Completable s
awaited-Completable hash s p r =
    let (one, free, first) = awaited hash true s p r in
    (
      (p.0.0, pending_fresh s p.0, subst (λ x. under_way x ≡ true) (sym p.0.1) refl, free, inr one),
      inr (first, (true, one)),
    )

unpaid_of_reverted : (s : State) → Sound s → s.chain.payouts ≡ false ∷ [] → s.credit ≡ none
unpaid_of_reverted s f one = ground (arith, f.credit, one)

awaited_pending :
    (hash : ℕ) (s : State)
    → Awaiting hash s
    → receipt hash s.chain.payouts ≡ some false
    → Facts compensation_pending s.chain.escrow s.chain.payouts s.chain.makegoods s.chain.orphaned
        s.credit s.row.destination_tx_hash
awaited_pending hash s p r =
    let (one, free, first) = awaited hash false s p r in
    Facts-pending p.0.0 free (unpaid_of_reverted s p.0.0 one) (inr (ap landed one))

payout_amount-Ensures :
    (p : Payment) (a : Option String)
    → Ensures Completable (payout_amount p a) (λ _. Completable) Sound
payout_amount-Ensures p (some amount) = pure-Ensures _ (λ s q. q)
payout_amount-Ensures p none =
    bind-Ensures (lift-Ensures (selected_route p)) (λ route. pure-Ensures _ (λ s q. q))

decide_payout-Ensures :
    (p : Payment) (hash : ℕ) (o : TransactionOutcome)
    → Ensures
        (λ s. Awaiting hash s × Read (λ s. s.chain.payouts) hash o s)
        (decide_payout p o)
        (λ _. Sound)
        Sound
unfolding decide_payout
decide_payout-Ensures p hash confirmed =
    bind-Ensures
      (weaken (payout_amount-Ensures p p.destination_amount)
        (λ s q. awaited-Completable hash s q.0 (q.1.0 refl)))
      (λ amount.
        bind-Ensures (complete_settled_payout-Ensures amount) (λ done. pure-Ensures _ (λ s q. q)))
decide_payout-Ensures p hash reverted =
    bind-Ensures (relax (reservation-Keeps _ (λ s r q. q)) (λ a s q. q) (λ s q. q.0.0.0)) (λ u.
      bind-Ensures {Q = λ _. Sound}
        (set_status-Ensures _ _ (λ s q. q.0.0.0)
          (λ s from q. awaited_pending hash s q.0 (q.1.1 refl))
          (λ s from q. awaited_pending hash s q.0 (q.1.1 refl)))
        (λ done. pure-Ensures _ (λ s q. q)))
decide_payout-Ensures p hash unknown =
    bind-Ensures (audit-Ensures _ (λ s q. q.0.0.0) (λ s l q. q)) (λ u.
      bind-Ensures {Q = λ _. Sound} (payment-Ensures (λ s q. q.0.0.0))
        (λ done. pure-Ensures _ (λ s q. q)))

decide_compensation-Ensures :
    (hash : ℕ) (o : TransactionOutcome)
    → Ensures
        (λ s. Owing s × Read (λ s. s.chain.makegoods) hash o s)
        (decide_compensation hash o)
        (λ _. Sound)
        Sound
unfolding decide_compensation
decide_compensation-Ensures hash confirmed =
    bind-Ensures (weaken (complete_compensation-Ensures hash) (λ s q. (q.0, q.1.0 refl)))
      (λ done. pure-Ensures _ (λ s q. q))
decide_compensation-Ensures hash reverted =
    bind-Ensures (audit-Ensures _ (λ s q. q.0.0) (λ s l q. q)) (λ u.
      bind-Ensures {Q = λ _. Sound} (payment-Ensures (λ s q. q.0.0))
        (λ done. pure-Ensures _ (λ s q. q)))
decide_compensation-Ensures hash unknown =
    bind-Ensures (audit-Ensures _ (λ s q. q.0.0) (λ s l q. q)) (λ u.
      bind-Ensures {Q = λ _. Sound} (payment-Ensures (λ s q. q.0.0))
        (λ done. pure-Ensures _ (λ s q. q)))

reconcile_payout-Ensures :
    (p : Payment) (h : Option ℕ)
    → Ensures
        (λ s. Sound s × (h ≡ s.row.destination_tx_hash) × (h ≡ p.destination_tx_hash))
        (reconcile_payout p h)
        (λ _. Sound)
        Sound
unfolding reconcile_payout
reconcile_payout-Ensures p none = throw-Ensures _ (λ s q. q.0)
reconcile_payout-Ensures p (some hash) =
    with_execution_lease-Keeps payout_pending _ (λ s l f. f) (λ s l f. f) (λ s f. f.0) (λ s n f. f)
      (λ lease.
        bind-Ensures
          (assign-Ensures {Q = λ _. Awaiting hash} _ (λ s q. ((q.0.0, q.1), sym q.0.1, sym q.0.2)))
          (λ u.
            bind-Ensures (transaction_outcome-Ensures _ hash)
              (λ o. decide_payout-Ensures p hash o)))

reconcile_compensation-Ensures :
    (x : Setting) (p : Payment) (h : Option ℕ) → Keeps Sound (reconcile_compensation x p h)
unfolding reconcile_compensation
reconcile_compensation-Ensures x p none = throw-Ensures _ (λ s q. q)
reconcile_compensation-Ensures x p (some hash) =
    with_execution_lease-Keeps compensation_pending _ (λ s l f. f) (λ s l f. f) (λ s f. f)
      (λ s n f. f)
      (λ lease. bind-Ensures (assign-Ensures {Q = λ _. Owing} _ pending-Owing) (λ u.
        bind-Ensures (unless-Ensures {Q = λ _. Owing} _ _ (λ s q e. q) (λ s q. q.0)) (λ u.
          bind-Ensures (transaction_outcome-Ensures _ hash)
            (λ o. decide_compensation-Ensures hash o))))

reconcile_from-Ensures :
    (x : Setting) (p : Payment) (st : PaymentStatus)
    → Ensures
        (λ s. Sound s × (p.destination_tx_hash ≡ s.row.destination_tx_hash))
        (reconcile_from x p st)
        (λ _. Sound)
        Sound
reconcile_from-Ensures x p settled = pure-Ensures _ (λ s q. q.0)
reconcile_from-Ensures x p compensated = pure-Ensures _ (λ s q. q.0)
reconcile_from-Ensures x p payout_pending =
    weaken (reconcile_payout-Ensures p p.destination_tx_hash) (λ s q. (q.0, q.1, refl))
reconcile_from-Ensures x p compensation_pending =
    weaken (reconcile_compensation-Ensures x p p.compensation_tx_hash) (λ s q. q.0)
reconcile_from-Ensures x p _ = throw-Ensures _ (λ s q. q.0)

-- Reconciling keeps the facts.
pub reconcile-Keeps : (x : Setting) → Keeps Sound (reconcile_unresolved_payment x)
unfolding reconcile_unresolved_payment
reconcile-Keeps x =
    bind-Ensures
      (read-Ensures {Q = λ p s. Sound s × (p.destination_tx_hash ≡ s.row.destination_tx_hash)} _
        (λ s q. q) (λ s q. (q, refl)))
      (λ p. reconcile_from-Ensures x p p.status)
