-- ===== src/Treasury/Covers.antt =====
-- A recall for a payment that returns has freed what the payment needs.
use settlementos.Base.{
  ◌≡◌, refl, ap, ◌∙◌, sym, subst, ℕ, ◌+◌, ◌-◌, ◌≤◌, leb, List, Bool-cases, inl, inr, leb→le, Result,
  ok, arith, All,
}
use settlementos.Base.Texts.{String}
use settlementos.Base.Programs.{
  Ensures, Holds, bind-Ensures, relax, pure-Ensures, lift-Ensures, throw_when-Ensures,
}
use settlementos.Treasury.State.{World, Deployments, Error, Position, Reservation, active_positions}
use settlementos.Treasury.Balance.{TreasuryBalance, free_of}
use settlementos.Treasury.Recall.{
  RecallForPaymentArgs, RecallForPaymentResult, recall_for_payment, recall_until, recall_shortfall,
  recall_missing, recall_for_payment,
}
use settlementos.Treasury.Rules.{read-Ensures, commit-Ensures}
use settlementos.Treasury.Passing.{
  IsBalance, reserved_of, parked_balance-Passes, free_treasury_balance-Ensures,
}
use settlementos.Treasury.Freed.{Placed, Standing, Stops, Freed, recall_until-Freed}
use settlementos.Treasury.Keeping.{returned-Holds}
use settlementos.Treasury.Resolving.{
  needed_of, Keyed, active_positions-Placed, Resolved, fund_asset_for-Resolved,
}

module _ (network asset : String) (rows : List Reservation) (qs : List Position) (x : ℕ) where
  abbrev Before : World → Type 0
  Before w = (w.balances network asset ≡ x) × (w.reservations ≡ rows) × (w.positions ≡ qs)

  -- The balance has grown by what was recalled, which covers the shortfall.
  abbrev Recovered : ℕ → RecallForPaymentResult → World → Type 0
  Recovered shortfall result w =
      (w.balances network asset ≡ x + result.asset_amount)
      × (shortfall ≤ result.asset_amount)
      × (w.reservations ≡ rows)
      × Stops shortfall (active_positions network asset qs) 0 result.recalls result.asset_amount

module _ (d : Deployments) (args : RecallForPaymentArgs) (rows : List Reservation)
    (qs : List Position) (x : ℕ) where
  abbrev Start : World → Type 0
  Start = Before args.network_id args.asset rows qs x

  abbrev End : ℕ → RecallForPaymentResult → World → Type 0
  End = Recovered args.network_id args.asset rows qs x

  recall_shortfall-End :
      (shortfall : ℕ)
      → Keyed qs qs
      → Ensures Start (recall_shortfall d args args.asset shortfall) (End shortfall) (λ w. Unit)
  unfolding recall_shortfall
  recall_shortfall-End shortfall keyed =
      let n = args.network_id in
      let a = args.asset in
      let ps = active_positions n a qs in
      bind-Ensures {Q = λ parked. Start}
        (relax (parked_balance-Passes Start (λ w y rs z h. h) d n a) (λ x w h. h) (λ w h. tt))
        (λ parked.
          bind-Ensures {Q = λ u. Start} (throw_when-Ensures _ _ (λ w e h. h) (λ w h. tt)) (λ u.
            bind-Ensures {Q = λ listed w. Standing n a rows ps x w × (listed ≡ ps)}
              (read-Ensures _ _ _ _ (λ w y rs z h. h) (λ w h. tt)
                (λ w h. (
                  (
                    h.0,
                    h.1,
                    subst (λ r. All (Placed n a r) ps) (sym h.2)
                        (active_positions-Placed n a qs qs keyed),
                  ),
                  ap (active_positions n a) h.2,
                )))
              (λ listed.
                bind-Ensures {Q = Freed d n a rows shortfall ps x 0}
                  (record {
                    run = λ w h.
                        subst
                          (λ l.
                            Holds (Freed d n a rows shortfall ps x 0) (λ w. Unit)
                              (recall_until d shortfall l 0 w))
                          (sym h.1) ((recall_until-Freed d n a rows shortfall ps x 0).run w h.0);
                  })
                  (λ result.
                    bind-Ensures
                      {Q = λ u w.
                        Freed d n a rows shortfall ps x 0 result w × (shortfall ≤ result.1)}
                      (throw_when-Ensures _ _ (λ w e h. (h, ground arith)) (λ w h. tt))
                      (λ u.
                        bind-Ensures
                          {Q = λ u w.
                            Freed d n a rows shortfall ps x 0 result w × (shortfall ≤ result.1)}
                          (commit-Ensures _ _ _ _ (λ w y rs z h. h) (λ w h. tt) (λ w h. tt)
                            (λ w h. h))
                          (λ u.
                            pure-Ensures _ (λ w h. (omega (arith, h.0.0), h.1, h.0.1, h.0.2))))))))

  recall_missing-End :
      (needed free : ℕ)
      → Keyed qs qs
      → Ensures Start
          (recall_missing d args args.asset needed free)
          (End (needed - free))
          (λ w. Unit)
  recall_missing-End needed free keyed = elim (Bool-cases (leb needed free)) [
    | inl e ↦ rw e (
        pure-Ensures _ (λ w h.
          let enough : needed ≤ free = leb→le needed free e in
          (omega (arith, h.0), omega (arith, enough), h.1, (refl, inr (omega (arith, enough))))))
    | inr e ↦ rw e (recall_shortfall-End (needed - free) keyed)
  ]

  -- What `recall_for_payment` ends with, for the amounts that it reads.
  abbrev Ended : RecallForPaymentResult → World → Type 0
  Ended result w =
      (needed : ℕ) × (r : ℕ) × (needed_of d args.network_id args.asset args.amount ≡ ok needed)
      × (reserved_of d args.network_id args.asset rows ≡ ok r)
      × End (needed - free_of x r) result w

  ended :
      (asset : String) (needed : ℕ) (t : TreasuryBalance)
      → asset ≡ args.asset
      → needed_of d args.network_id args.asset args.amount ≡ ok needed
      → Keyed qs qs
      → Ensures
          (λ w. Start w × IsBalance d args.network_id asset t w)
          (recall_missing d args asset needed t.free)
          Ended
          (λ w. Unit)
  ended asset needed t same need keyed =
      subst
        (λ a.
          Ensures (λ w. Start w × IsBalance d args.network_id a t w)
            (recall_missing d args a needed t.free) Ended (λ w. Unit))
        (sym same)
        (record {
          run = λ w h.
              let b = h.1 in
              let free : t.free ≡ free_of x t.reserved =
                b.free ∙ ap (λ y. free_of y t.reserved) (b.balance ∙ h.0.0) in
              let reserved : reserved_of d args.network_id args.asset rows ≡ ok t.reserved =
                subst (λ rs. reserved_of d args.network_id args.asset rs ≡ ok t.reserved) h.0.1
                  b.reserved in
              (relax {Q = Ended} {R = λ w. Unit} (recall_missing-End needed t.free keyed)
                  (λ result v e. (
                    needed,
                    t.reserved,
                    need,
                    reserved,
                    subst (λ f. End (needed - f) result v) free e,
                  ))
                  (λ v e. tt)).run
                w h.0;
        })

  recall_for_payment-Ended :
      Keyed qs qs → Ensures Start (recall_for_payment d args) Ended (λ w. Unit)
  unfolding recall_for_payment
  recall_for_payment-Ended keyed =
      let n = args.network_id in
      bind-Ensures {Q = λ a w. Start w × Resolved d n args.asset a}
        (relax (fund_asset_for-Resolved d n args.asset Start (λ w y rs z h. h)) (λ a w h. h)
          (λ w h. tt))
        (λ a.
          bind-Ensures
            {Q = λ needed w.
              Start w
              × (a.symbol ≡ args.asset)
              × (needed_of d n args.asset args.amount ≡ ok needed)}
            (lift-Ensures _ (λ k w e h. (h.0, h.1.0, h.1.1 args.amount ∙ e)) (λ w h. tt))
            (λ needed.
              bind-Ensures
                {Q = λ t w.
                  (Start w
                    × (a.symbol ≡ args.asset)
                    × (needed_of d n args.asset args.amount ≡ ok needed))
                  × IsBalance d n a.symbol t w}
                (relax
                  (free_treasury_balance-Ensures
                    (λ w.
                      Start w
                      × (a.symbol ≡ args.asset)
                      × (needed_of d n args.asset args.amount ≡ ok needed))
                    (λ w y rs z h. h) d n a.symbol)
                  (λ t w h. h) (λ w h. tt))
                (λ t. record {
                  run = λ w h. (ended a.symbol needed t h.0.1 h.0.2 keyed).run w (h.0.0, h.1);
                })))

ok_inj : {a b : ℕ} → ◌≡◌ {A = Result Error ℕ} (ok a) (ok b) → a ≡ b
ok_inj e = cc

-- A recall for a payment that returns leaves the amount free on top of what is reserved, however its
-- calls ended, if the balance covered what was reserved before and rows are found by their ids. It
-- recalled active positions of the asset oldest first, each of them while it was still short, and
-- none where the free balance covered the amount.
pub recall_covers :
    (d : Deployments) (args : RecallForPaymentArgs) (w : World) (result : RecallForPaymentResult)
    (needed r : ℕ)
    → Keyed w.positions w.positions
    → needed_of d args.network_id args.asset args.amount ≡ ok needed
    → reserved_of d args.network_id args.asset w.reservations ≡ ok r
    → r ≤ w.balances args.network_id args.asset
    → (recall_for_payment d args w).0 ≡ ok result
    → (needed + r ≤ (recall_for_payment d args w).1.balances args.network_id args.asset)
      × Stops
          (needed - free_of (w.balances args.network_id args.asset) r)
          (active_positions args.network_id args.asset w.positions)
          0
          result.recalls
          result.asset_amount
recall_covers d args w result needed r keyed need reserved covered e =
    let x = w.balances args.network_id args.asset in
    let ended = returned-Holds _ _ (recall_for_payment d args w) result e (
      (recall_for_payment-Ended d args w.reservations w.positions x keyed).run w
        (refl, refl, refl)) in
    let same : ended.0 ≡ needed = ok_inj (sym ended.2 ∙ need) in
    let same_r : ended.1 ≡ r = ok_inj (sym ended.3 ∙ reserved) in
    let short : needed - free_of x r ≤ result.asset_amount =
      subst (λ k. needed - free_of x k ≤ result.asset_amount) same_r
        (subst (λ k. k - free_of x ended.1 ≤ result.asset_amount) same ended.4.1) in
    (
      ground (arith, ended.4.0, short, covered),
      subst
          (λ k.
            Stops (needed - free_of x k) (active_positions args.network_id args.asset w.positions) 0
              result.recalls result.asset_amount)
          same_r
          (subst
            (λ k.
              Stops (k - free_of x ended.1)
                (active_positions args.network_id args.asset w.positions) 0 result.recalls
                result.asset_amount)
            same ended.4.3),
    )
