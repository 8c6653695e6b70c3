-- ===== src/Executor/Released.antt =====
-- When its calls work, an execution takes the escrow and releases it.
use settlementos.Base.{
  ◌≡◌, ◌∙◌, refl, ap, ℕ, Bool, true, false, List, [], if◌then◌else◌, Option, some,
}
use settlementos.Lifecycle.{
  PaymentStatus, includes, can_transition, transitions, lease_release_states, terminal_states,
  liquidity_reserved, submitted_onchain, confirmed_onchain, fx_or_swap_completed,
}
use settlementos.Executor.State.{
  RouteOption, State, Payment, EscrowState, absent, initiated, released,
}
use settlementos.Executor.Calls.{M, read, write}
use settlementos.Executor.Steps.{
  is_none, mined, initiate_payment, settle_payment, operator_write, ensure_sender_allowance,
  approve_unless, advance,
}
use settlementos.Executor.Run.{settle_source}
use settlementos.Executor.Yields.{Yields, bind-Yields, pure-Yields, call-Yields, advance-Yields}

-- A payment at a status, in the variable too, with its escrow, its payouts and its lease.
abbrev pub At : PaymentStatus → EscrowState → List Bool → ℕ → State → Type 0
At st e ps lease s =
    (s.row.status ≡ st)
    × (s.local.status ≡ st)
    × (s.chain.escrow ≡ e)
    × (s.chain.payouts ≡ ps)
    × (s.row.execution_lease_id ≡ some lease)
    × (is_none s.reservation ≡ false)

-- Any read, and any event of its own.
pub read-Yields {ℓ} :
    {A : Type ℓ} {P : State → Type 0} {Q : A → State → Type 0} (value : State → A)
    → ((s : State) → P s → Q (value s) s)
    → Yields P (read value) Q
read-Yields value h = call-Yields (λ s. s) _ (λ s p. (value s, refl, h s p))

pub write-Yields :
    {P : State → Type 0} {Q : Unit {0} → State → Type 0} (effect : State → State)
    → ((s : State) → P s → Q tt (effect s))
    → Yields P (write effect) Q
write-Yields effect h = call-Yields effect _ (λ s p. (tt, refl, h s p))

operator-Yields :
    {P : State → Type 0} {Q : ℕ → State → Type 0} (contract : EscrowState → Option EscrowState)
    (before after : EscrowState)
    → contract before ≡ some after
    → ((s : State) → P s → s.chain.escrow ≡ before)
    → ((s : State) (n w : ℕ) (e : EscrowState)
        → e ≡ after
        → P s
        → Q n (record s { chain = record s.chain { escrow = e; writes = w } }))
    → Yields P (operator_write contract) Q
unfolding operator_write
operator-Yields contract before after works at h = call-Yields _ _ (λ s p.
    let there : contract s.chain.escrow ≡ some after = ap contract (at s p) ∙ works in
    (
      s.chain.writes,
      rw there refl,
      h s _ _ _ (ap (λ (m : Option EscrowState). mined m s.chain.escrow) there) p,
    ))

approve-Yields :
    (b : Bool) (lease : ℕ)
    → Yields
        (At liquidity_reserved absent [] lease)
        (approve_unless b)
        (λ _. At liquidity_reserved absent [] lease)
approve-Yields true lease = pure-Yields _ (λ s p. p)
approve-Yields false lease = call-Yields _ _ (λ s p. (true, refl, p))

-- Either branch of a test.
pub if-Yields {ℓ} :
    {A : Type ℓ} {P : State → Type 0} {Q : A → State → Type 0} (b : Bool) {m n : M A}
    → Yields P m Q
    → Yields P n Q
    → Yields P (if b then m else n) Q
if-Yields true h k = h
if-Yields false h k = k

-- A change of status in the middle of an execution.
pub step-Yields :
    (from to : PaymentStatus) (e : EscrowState) (ps : List Bool) (lease : ℕ)
    (columns : Payment → Payment)
    → can_transition from to ≡ true
    → includes lease_release_states to ≡ false
    → ((row : Payment) → (columns row).execution_lease_id ≡ row.execution_lease_id)
    → Yields (At from e ps lease) (advance to columns) (λ _. At to e ps lease)
step-Yields from to e ps lease columns legal kept same_lease =
    advance-Yields from to columns legal (λ s p. (p.1, p.0))
      (λ s p. (refl, refl, p.2, p.3, rw kept (same_lease s.row ∙ p.4), p.5))

-- Steps 2 to 4 release the escrow.
pub settle_source-Yields :
    (route : RouteOption) (lease : ℕ)
    → Yields
        (At liquidity_reserved absent [] lease)
        (settle_source route)
        (λ _. At fx_or_swap_completed released [] lease)
unfolding settle_source ensure_sender_allowance can_transition transitions lease_release_states
    terminal_states
settle_source-Yields route lease =
    bind-Yields {Q = λ _. At liquidity_reserved absent [] lease}
      (bind-Yields {Q = λ _. At liquidity_reserved absent [] lease} (read-Yields _ (λ s p. p))
        (λ b. approve-Yields b lease))
      (λ granted.
        bind-Yields {Q = λ _. At liquidity_reserved absent [] lease}
          (if-Yields granted (write-Yields _ (λ s p. p)) (pure-Yields _ (λ s p. p)))
          (λ u.
            bind-Yields {Q = λ _. At liquidity_reserved initiated [] lease}
              (operator-Yields initiate_payment absent initiated refl (λ s p. p.2)
                (λ s n w e k p. (p.0, p.1, k, p.3, p.4, p.5)))
              (λ hash.
                bind-Yields
                  (step-Yields liquidity_reserved submitted_onchain initiated [] lease _ refl refl
                    (λ row. refl))
                  (λ u.
                    bind-Yields
                      (step-Yields submitted_onchain confirmed_onchain initiated [] lease _ refl
                        refl (λ row. refl))
                      (λ u.
                        bind-Yields {Q = λ _. At confirmed_onchain released [] lease}
                          (operator-Yields settle_payment initiated released refl (λ s p. p.2)
                            (λ s n w e k p. (p.0, p.1, k, p.3, p.4, p.5)))
                          (λ hash.
                            step-Yields confirmed_onchain fx_or_swap_completed released [] lease _
                              refl refl (λ row. refl)))))))
