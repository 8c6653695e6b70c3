-- ===== src/Executor/Finished.antt =====
-- When its calls work, an execution reserves the liquidity and gets to its end.
use settlementos.Base.{
  ◌≡◌, refl, sym, subst, ap, ℕ, ◌≤◌, true, false, ◌&&◌, [], ◌∷◌, ltb, some, Result, ok, err, arith,
}
use settlementos.Base.Texts.{String, str_eq}
use settlementos.Lifecycle.{
  same, can_transition, transitions, lease_release_states, terminal_states, approved,
  liquidity_reserved, settled,
}
use settlementos.Lifecycle.Order.{same_iff}
use settlementos.Executor.State.{RouteOption, Setting, State, Payment, Error, absent}
use settlementos.Executor.Calls.{M, Outcome, done}
use settlementos.Executor.Steps.{holds_lease}
use settlementos.Executor.Reserve.{
  selected_route, lift, fail_short, still_ours, adopt_network, auto_recall, reserve_rows,
  reserve_liquidity,
}
use settlementos.Executor.Run.{is_cross_chain, undo, run_execution}
use settlementos.Executor.Yields.{
  Returned, Yields, bind-Yields, try-Yields, pure-Yields, call-Yields, payment-Yields,
  assign-Yields, unless-Yields,
}
use settlementos.Executor.Released.{At, read-Yields, if-Yields, step-Yields, settle_source-Yields}
use settlementos.Executor.Delivered.{Settled, pay_out-Yields}

-- An approved payment under a lease, with enough liquidity.
abbrev pub Begun : ℕ → ℕ → State → Type 0
Begun needed lease s =
    (s.row.status ≡ approved)
    × (s.local.status ≡ approved)
    × (s.chain.escrow ≡ absent)
    × (s.chain.payouts ≡ [])
    × (s.row.execution_lease_id ≡ some lease)
    × (needed ≤ s.available)

adopt-Yields :
    (needed lease : ℕ) (network : String)
    → Yields (Begun needed lease) (adopt_network network) (λ _. Begun needed lease)
adopt-Yields needed lease network =
    bind-Yields {Q = λ _. Begun needed lease} (payment-Yields (λ s p. p)) (λ p.
      if-Yields (str_eq p.destination_network network) (pure-Yields _ (λ s q. q)) (
        bind-Yields {Q = λ a s. Begun needed lease s × (a.status ≡ approved)}
          (call-Yields _ _ (λ s q. (_, refl, (q, q.0))))
          (λ a. assign-Yields _ (λ s q. (q.0.0, q.1, q.0.2, q.0.3, q.0.4, q.0.5)))))

-- Free liquidity that covers the amount needs no recall.
recall-Yields :
    (x : Setting) (needed lease : ℕ)
    → Yields (Begun needed lease) (auto_recall x needed) (λ _. Begun needed lease)
unfolding auto_recall
recall-Yields x needed lease =
    bind-Yields {Q = λ a s. Begun needed lease s × (ltb a needed ≡ false)}
      (read-Yields _ (λ s p. (p, ground (arith, p.5))))
      (λ a. record {
        run = λ s q. rw q.1 (
            (pure-Yields {P = Begun needed lease} {Q = λ _. Begun needed lease} tt (λ s p. p)).run s
              q.0);
      })

short-Yields :
    (a needed lease : ℕ)
    → Yields
        (λ s. Begun needed lease s × (ltb a needed ≡ false))
        (fail_short (ltb a needed))
        (λ _. Begun needed lease)
short-Yields a needed lease = record {
  run = λ s q. rw q.1 (
      (pure-Yields {P = Begun needed lease} {Q = λ _. Begun needed lease} tt (λ s p. p)).run s q.0);
}

ours : (needed lease : ℕ) (s : State) → Begun needed lease s → still_ours lease s ≡ true
ours needed lease s p =
    let here : same s.row.status approved ≡ true = (same_iff s.row.status approved).1 p.0 in
    let held : holds_lease lease s.row.execution_lease_id ≡ holds_lease lease (some lease) =
      ap (holds_lease lease) p.4 in
    ground (arith, here, held)

reserve-Yields :
    (needed lease : ℕ)
    → Yields
        (Begun needed lease)
        (reserve_liquidity lease needed)
        (λ _. At liquidity_reserved absent [] lease)
unfolding reserve_liquidity reserve_rows can_transition transitions lease_release_states
    terminal_states
reserve-Yields needed lease =
    bind-Yields {Q = λ a s. Begun needed lease s × (ltb a needed ≡ false)}
      (read-Yields _ (λ s p. (p, ground (arith, p.5))))
      (λ a. bind-Yields (short-Yields a needed lease) (λ u.
        bind-Yields {Q = λ _. At approved absent [] lease}
          (call-Yields _ _ (λ s p.
            let mine = ours needed lease s p in
            (tt, rw mine refl, rw mine (p.0, p.1, p.2, p.3, p.4, refl))))
          (λ u. step-Yields approved liquidity_reserved absent [] lease _ refl refl (λ row. refl))))

-- A fact that does not depend on the state.
pub given-Yields {ℓ} :
    {A : Type ℓ} {C : Type 0} {P : State → Type 0} {Q : A → State → Type 0} {m : M A}
    → (C → Yields P m Q)
    → Yields (λ s. P s × C) m Q
given-Yields h = record { run = λ s q. (h q.1).run s q.0 }

Returned-map {ℓ} :
    {A : Type ℓ} (Q Q' : A → State → Type 0) (o : Outcome A)
    → ((a : A) (s : State) → Q' a s → Q a s)
    → Returned Q' o
    → Returned Q o
Returned-map Q Q' (done (ok a) s []) h q = h a s q
Returned-map Q Q' (done (ok a) s (r ∷ rs)) h q = absurd q
Returned-map Q Q' (done (err e) s rs) h q = absurd q

convert-Yields {ℓ} :
    {A : Type ℓ} {P P' : State → Type 0} {Q Q' : A → State → Type 0} {m : M A}
    → Yields P' m Q'
    → ((s : State) → P s → P' s)
    → ((a : A) (s : State) → Q' a s → Q a s)
    → Yields P m Q
convert-Yields {m} y h k = record { run = λ s p. Returned-map _ _ (m s []) k (y.run s (h s p)) }

lift-Yields :
    {P : State → Type 0} (r : Result Error RouteOption) (route : RouteOption)
    → Yields (λ s. P s × (r ≡ ok route)) (lift r) (λ a s. P s × (a ≡ route))
lift-Yields (ok a) route = pure-Yields _ (λ s p. let e : a ≡ route = cc in (p.0, e))
lift-Yields (err e) route = given-Yields (λ h. cc)

-- What a payment that went well ends as, by its route.
abbrev pub Done : RouteOption → Payment → State → Type 0
Done route p s =
    (p.status ≡ settled) × Settled (is_cross_chain route) route.estimated_destination_amount s

-- The whole run of an approved payment under its lease.
pub run-Yields :
    (x : Setting) (lease : ℕ) (route : RouteOption)
    → x.has_sender_wallet && x.has_recipient_wallet ≡ true
    → Yields
        (λ s.
          Begun (x.base_units route.estimated_destination_amount) lease s
          × (selected_route s.local ≡ ok route))
        (run_execution x lease)
        (Done route)
unfolding run_execution
run-Yields x lease route wallets =
    bind-Yields
      {Q = λ p s.
        Begun (x.base_units route.estimated_destination_amount) lease s
        × (selected_route p ≡ ok route)}
      (payment-Yields (λ s p. p))
      (λ p. bind-Yields (lift-Yields (selected_route p) route) (λ r. given-Yields (λ e.
        convert-Yields {Q' = Done r}
          (bind-Yields (unless-Yields _ _ wallets) (λ u.
            bind-Yields (adopt-Yields (x.base_units r.estimated_destination_amount) lease _) (λ u.
              bind-Yields (recall-Yields x (x.base_units r.estimated_destination_amount) lease)
                (λ u.
                  bind-Yields (reserve-Yields (x.base_units r.estimated_destination_amount) lease)
                    (λ u. try-Yields (undo x r) (
                      bind-Yields (settle_source-Yields r lease) (λ u. pay_out-Yields r lease)))))))
          (λ s b.
            subst (λ y. Begun (x.base_units y.estimated_destination_amount) lease s) (sym e) b)
          (λ p s d. subst (λ y. Done y p s) e d))))
