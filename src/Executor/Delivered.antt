-- ===== src/Executor/Delivered.antt =====
-- When its calls work, an execution pays the recipient out.
use settlementos.Base.{
  ◌≡◌, ◌∙◌, refl, ap, ℕ, Bool, true, false, List, [], ◌∷◌, length, if◌then◌else◌, none, some, arith,
}
use settlementos.Base.Texts.{String}
use settlementos.Lifecycle.{
  can_transition, transitions, lease_release_states, terminal_states, fx_or_swap_completed,
  payout_pending, settled,
}
use settlementos.Executor.State.{RouteOption, State, Payment, released}
use settlementos.Executor.Calls.{pure, assign, receipt}
use settlementos.Executor.Steps.{send_payout, confirm, succeeded, update_reservation}
use settlementos.Executor.Run.{pay_destination, is_cross_chain, pay_out}
use settlementos.Executor.Yields.{
  Yields, bind-Yields, pure-Yields, call-Yields, payment-Yields, assign-Yields, advance-Yields,
}
use settlementos.Executor.Released.{At, write-Yields, step-Yields}

-- A payment whose payout, if it needs one, is sent.
abbrev Paid : Bool → ℕ → State → Type 0
Paid cross lease s = At payout_pending released (if cross then true ∷ [] else []) lease s

remember-Yields :
    (hash lease : ℕ) (p : Payment)
    → Yields
        (λ s.
          (At payout_pending released (true ∷ []) lease s × (hash ≡ 0))
          × (p.status ≡ payout_pending))
        (assign (record p { destination_tx_hash = some hash }))
        (λ _ s. At payout_pending released (true ∷ []) lease s × (hash ≡ 0))
remember-Yields hash lease p =
    assign-Yields _ (λ s q. ((q.0.0.0, q.1, q.0.0.2, q.0.0.3, q.0.0.4, q.0.0.5), q.0.1))

send-Yields :
    (lease : ℕ)
    → Yields
        (At payout_pending released [] lease)
        send_payout
        (λ hash s. At payout_pending released (true ∷ []) lease s × (hash ≡ 0))
unfolding send_payout
send-Yields lease = record {
  run = λ s p. ((p.0, p.1, p.2, ap (λ (ps : List Bool). true ∷ ps) p.3, p.4, p.5), ap length p.3);
}

confirm-Yields :
    (hash lease : ℕ)
    → Yields
        (λ s. At payout_pending released (true ∷ []) lease s × (hash ≡ 0))
        (confirm (λ s. s.chain.payouts) hash)
        (λ _. At payout_pending released (true ∷ []) lease)
unfolding confirm receipt
confirm-Yields hash lease = call-Yields _ _ (λ s p.
    let there : receipt hash s.chain.payouts ≡ receipt 0 (true ∷ []) =
      ap (λ (ps : List Bool). receipt hash ps) p.0.3 ∙ ap (λ (n : ℕ). receipt n (true ∷ [])) p.1 in
    (tt, ap succeeded there, p.0))

pay_destination-Yields :
    (lease : ℕ)
    → Yields
        (At payout_pending released [] lease)
        pay_destination
        (λ _. At payout_pending released (true ∷ []) lease)
unfolding pay_destination
pay_destination-Yields lease = bind-Yields (send-Yields lease) (λ hash.
    bind-Yields
      {Q = λ p s.
        (At payout_pending released (true ∷ []) lease s × (hash ≡ 0)) × (p.status ≡ payout_pending)}
      (payment-Yields (λ s p. (p, p.0.1)))
      (λ p. bind-Yields (remember-Yields hash lease p) (λ u.
        bind-Yields {Q = λ _ s. At payout_pending released (true ∷ []) lease s × (hash ≡ 0)}
          (bind-Yields
            {Q = λ a s.
              (At payout_pending released (true ∷ []) lease s × (hash ≡ 0))
              × (a.status ≡ payout_pending)}
            (call-Yields _ _ (λ s p. (_, refl, (p, p.0.0))))
            (λ a.
              assign-Yields _ (λ s q. ((q.0.0.0, q.1, q.0.0.2, q.0.0.3, q.0.0.4, q.0.0.5), q.0.1))))
          (λ u.
            bind-Yields {Q = λ _ s. At payout_pending released (true ∷ []) lease s × (hash ≡ 0)}
              (write-Yields _ (λ s p. p))
              (λ u. bind-Yields (confirm-Yields hash lease) (λ u. write-Yields _ (λ s p. p)))))))

-- What an execution that went well leaves.
abbrev pub Settled : Bool → String → State → Type 0
Settled cross amount s =
    (s.row.status ≡ settled)
    × (s.credit ≡ some amount)
    × (s.row.execution_lease_id ≡ none)
    × (s.chain.escrow ≡ released)
    × (s.chain.payouts ≡ (if cross then true ∷ [] else []))

payout-Yields :
    (b : Bool) (lease : ℕ)
    → Yields
        (At payout_pending released [] lease)
        (if b then pay_destination else pure tt)
        (λ _. Paid b lease)
payout-Yields true lease = pay_destination-Yields lease
payout-Yields false lease = pure-Yields _ (λ s p. p)

-- Steps 5 and 6 settle the payment.
pub pay_out-Yields :
    (route : RouteOption) (lease : ℕ)
    → Yields (At fx_or_swap_completed released [] lease) (pay_out route) (λ p s.
      (p.status ≡ settled) × Settled (is_cross_chain route) route.estimated_destination_amount s)
unfolding pay_out can_transition transitions lease_release_states terminal_states update_reservation
pay_out-Yields route lease =
    bind-Yields
      (step-Yields fx_or_swap_completed payout_pending released [] lease _ refl refl (λ row. refl))
      (λ u.
        bind-Yields {Q = λ _. Paid (is_cross_chain route) lease}
          (payout-Yields (is_cross_chain route) lease)
          (λ u.
            bind-Yields
              {Q = λ _ s.
                Paid (is_cross_chain route) lease s
                × (s.credit ≡ some route.estimated_destination_amount)}
              (bind-Yields
                {Q = λ _ s.
                  Paid (is_cross_chain route) lease s
                  × (s.credit ≡ some route.estimated_destination_amount)}
                (write-Yields _ (λ s p. (p, refl))) (λ u. write-Yields _ (λ s p. p)))
              (λ u.
                bind-Yields
                  {Q = λ _ s.
                    Paid (is_cross_chain route) lease s
                    × (s.credit ≡ some route.estimated_destination_amount)}
                  (call-Yields _ _ (λ s p. (
                    tt,
                    ground (arith, p.0.5),
                    rw p.0.5 ((p.0.0, p.0.1, p.0.2, p.0.3, p.0.4, refl), p.1),
                  )))
                  (λ u.
                    bind-Yields
                      {Q = λ _ s.
                        (s.local.status ≡ settled)
                        × Settled (is_cross_chain route) route.estimated_destination_amount s}
                      (advance-Yields payout_pending settled _ refl (λ s p. (p.0.1, p.0.0))
                        (λ s p. (refl, (refl, p.1, refl, p.0.2, p.0.3))))
                      (λ u. payment-Yields (λ s p. (p.0, p.1)))))))
