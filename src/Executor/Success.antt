-- ===== src/Executor/Success.antt =====
-- An execution whose calls all work settles the payment.
use settlementos.Base.{
  ◌≡◌, refl, ap, ℕ, ◌≤◌, true, ◌&&◌, [], ◌∷◌, none, some, Result, ok, err, arith,
}
use settlementos.Lifecycle.{same, approved}
use settlementos.Lifecycle.Order.{same_iff}
use settlementos.Executor.State.{RouteOption, Setting, State, Payment, Error, absent}
use settlementos.Executor.Calls.{Outcome, done, write, assign}
use settlementos.Executor.Steps.{
  is_none, holds_lease, claim, claimed, claimable, release_lease, random_uuid, try_finally, after,
  with_execution_lease,
}
use settlementos.Executor.Reserve.{selected_route}
use settlementos.Executor.Run.{run_execution, execute_payment}
use settlementos.Executor.Moves.{if-holds}
use settlementos.Executor.Calls.{quietly, ◌>>◌}
use settlementos.Executor.Yields.{
  Returned, Yields, bind-Yields, try-Yields, pure-Yields, call-Yields, assign-Yields, unless-Yields,
  if-true,
}
use settlementos.Executor.Released.{read-Yields, write-Yields}
use settlementos.Executor.Finished.{Begun, Done, given-Yields, run-Yields}

-- Releasing a lease that is gone changes nothing of it.
release-Yields :
    (route : RouteOption) (p : Payment) (lease : ℕ)
    → Yields (Done route p) (quietly (write (release_lease lease))) (λ _. Done route p)
unfolding release_lease
release-Yields route p lease = try-Yields _ (
    write-Yields _ (λ s d.
      if-holds (Done route p) (holds_lease lease s.row.execution_lease_id)
        (d.0, (d.1.0, d.1.1, refl, d.1.3, d.1.4)) d))

Returned-after :
    (route : RouteOption) (lease : ℕ) (o : Outcome Payment)
    → Returned (Done route) o
    → Returned (Done route) (after o (quietly (write (release_lease lease))))
Returned-after route lease (done (ok p) s []) q =
    (bind-Yields (release-Yields route p lease) (λ u. pure-Yields p (λ s d. d))).run s q
Returned-after route lease (done (ok p) s (r ∷ rs)) q = absurd q
Returned-after route lease (done (err e) s rs) q = absurd q

-- An approved payment that nobody has started, with enough liquidity.
abbrev Open : Setting → RouteOption → State → Type 0
Open x route s =
    (s.row.status ≡ approved)
    × (s.row.execution_lease_id ≡ none)
    × (s.chain.escrow ≡ absent)
    × (s.chain.payouts ≡ [])
    × (x.base_units route.estimated_destination_amount ≤ s.available)

abbrev Seen : RouteOption → Payment → Type 0
Seen route p = (p.status ≡ approved) × (selected_route p ≡ ok route)

-- The same, under a lease.
abbrev Held : Setting → RouteOption → ℕ → State → Type 0
Held x route lease s =
    (s.row.status ≡ approved)
    × (s.chain.escrow ≡ absent)
    × (s.chain.payouts ≡ [])
    × (s.row.execution_lease_id ≡ some lease)
    × (x.base_units route.estimated_destination_amount ≤ s.available)

leased-Yields :
    (x : Setting) (route : RouteOption) (p : Payment)
    → x.has_sender_wallet && x.has_recipient_wallet ≡ true
    → Seen route p
    → Yields
        (Open x route)
        (with_execution_lease approved
          (λ lease. assign (record p { execution_lease_id = some lease }) >> run_execution x lease))
        (Done route)
unfolding with_execution_lease random_uuid claim claimed try_finally selected_route
leased-Yields x route p wallets seen =
    bind-Yields {Q = λ _. Open x route} (record { run = λ s o. o })
      (λ lease.
        bind-Yields {Q = λ _ s. Held x route lease s}
          (call-Yields _ _ (λ s o.
            let free : claimable approved s ≡ true =
              let here : same s.row.status approved ≡ true =
                (same_iff s.row.status approved).1 o.0 in
              let nobody : is_none s.row.execution_lease_id ≡ true = ap is_none o.1 in
              ground (arith, here, nobody) in
            (
              tt,
              if-true (λ (r : Result Error (Unit {0})). r ≡ ok tt) (claimable approved s) _ free
                  refl,
              if-true (Held x route lease) (claimable approved s) _ free (o.0, o.2, o.3, refl, o.4),
            )))
          (λ u. record {
            run = λ s h. Returned-after route lease _ (
                (bind-Yields {P = Held x route lease}
                    {Q = λ _ s.
                      Begun (x.base_units route.estimated_destination_amount) lease s
                      × (selected_route s.local ≡ ok route)}
                    (assign-Yields _ (λ s h. ((h.0, seen.0, h.1, h.2, h.3, h.4), seen.1)))
                    (λ u. run-Yields x lease route wallets)).run
                  s h);
          }))

-- An approved payment that nobody has started, with a route, both wallets and enough free liquidity,
-- is settled by an execution whose calls all work: the recipient has the credit and, on another
-- network, the payout; the escrow is released and so is the lease.
pub execute_settles :
    (x : Setting) (s : State) (route : RouteOption)
    → s.row.status ≡ approved
    → s.row.execution_lease_id ≡ none
    → selected_route s.row ≡ ok route
    → x.has_sender_wallet && x.has_recipient_wallet ≡ true
    → x.base_units route.estimated_destination_amount ≤ s.available
    → s.chain.escrow ≡ absent
    → s.chain.payouts ≡ []
    → Returned (Done route) (execute_payment x s [])
unfolding execute_payment
execute_settles x s route at free chosen wallets enough no_escrow no_payouts =
    (bind-Yields {P = λ t. Open x route t × Seen route t.row}
        {Q = λ p t. Open x route t × Seen route p} (read-Yields _ (λ s q. q))
        (λ p. given-Yields (λ seen.
          bind-Yields (unless-Yields _ _ ((same_iff p.status approved).1 seen.0))
            (λ u. leased-Yields x route p wallets seen)))).run
      s ((at, free, no_escrow, no_payouts, enough), (at, chosen))
