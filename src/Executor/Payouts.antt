-- ===== src/Executor/Payouts.antt =====
-- Releasing the escrow, and paying the recipient.
use settlementos.Base.{
  ◌≡◌, refl, ap, sym, subst, ℕ, Bool, true, false, inl, inr, List, [], ◌∷◌, length, Option, none,
  some, arith,
}
use settlementos.Lifecycle.{fx_or_swap_completed, submitted_onchain, confirmed_onchain}
use settlementos.Executor.State.{
  RouteOption, State, EscrowState, released, Reply, works, lost, fails, reverts,
}
use settlementos.Executor.Steps.{
  initiate_payment, settle_payment, ensure_sender_allowance, approve_unless, send_payout,
  sent_payout,
}
use settlementos.Executor.Run.{settle_source}
use settlementos.Executor.Rules.{
  Ensures, Holds, pure-Ensures, bind-Ensures, call-Ensures, read-Ensures,
}
use settlementos.Executor.Facts.{Facts, Running, RunningAt}
use settlementos.Executor.Effects.{Facts-paid}
use settlementos.Executor.Recovered.{audit-Ensures}
use settlementos.Executor.Forward.{
  if-Ensures, operator-Ensures, initiate-released, settle-released, Unpaid, Releasing, InRun-mined,
  advance-Unpaid,
}

approve-Ensures : (b : Bool) → Ensures Unpaid (approve_unless b) (λ _. Unpaid) Running
approve-Ensures true = pure-Ensures _ (λ s p. p)
approve-Ensures false = call-Ensures (λ s p. p.0) (λ s p. p.0) (λ s a p e. p)

allowance-Ensures : Ensures Unpaid ensure_sender_allowance (λ _. Unpaid) Running
unfolding ensure_sender_allowance
allowance-Ensures =
    bind-Ensures (read-Ensures {Q = λ _. Unpaid} _ (λ s p. p.0) (λ s p. p)) approve-Ensures

-- What is known of the escrow before its release: nothing.
abbrev Any : EscrowState → Type 0
Any e = Unit {0}

abbrev pub IsReleased : EscrowState → Type 0
IsReleased e = e ≡ released

-- Steps 2 to 4 release the escrow, or leave what the `catch` relies on.
pub settle_source-Ensures :
    (route : RouteOption) → Ensures Unpaid (settle_source route) (λ _. Releasing) Running
unfolding settle_source
settle_source-Ensures route = bind-Ensures allowance-Ensures (λ granted.
    bind-Ensures {Q = λ _. Unpaid}
      (if-Ensures granted (λ e. audit-Ensures _ (λ s p. p.0) (λ s l p. p))
        (λ e. pure-Ensures _ (λ s p. p)))
      (λ u.
        bind-Ensures {Q = λ _ s. Unpaid s × Any s.chain.escrow}
          (operator-Ensures initiate_payment (λ s p. p.0)
            (λ s w p. InRun-mined _ p.0 p.1 p.2 (initiate-released s.chain.escrow))
            (λ s n w p e.
              ((InRun-mined _ p.0 p.1 p.2 (initiate-released s.chain.escrow), p.1, p.2), tt)))
          (λ hash.
            bind-Ensures
              (advance-Unpaid Any submitted_onchain _ (λ e f x. cc) refl (λ e. cc) (λ row. refl))
              (λ u.
                bind-Ensures
                  (advance-Unpaid Any confirmed_onchain _ (λ e f x. cc) refl (λ e. cc)
                    (λ row. refl))
                  (λ u.
                    bind-Ensures {Q = λ _. Releasing}
                      (operator-Ensures settle_payment (λ s p. p.0.0)
                        (λ s w p.
                          InRun-mined _ p.0.0 p.0.1 p.0.2 (settle-released s.chain.escrow).0)
                        (λ s n w p e. (
                          (
                            InRun-mined _ p.0.0 p.0.1 p.0.2 (settle-released s.chain.escrow).0,
                            p.0.1,
                            p.0.2,
                          ),
                          (settle-released s.chain.escrow).1 e,
                        )))
                      (λ hash.
                        advance-Unpaid IsReleased fx_or_swap_completed _ (λ e f x. f) refl (λ e. cc)
                          (λ row. refl)))))))

-- A payment whose one payout was sent.
abbrev pub Sent : Option ℕ → Option ℕ → State → Type 0
Sent lh hash s =
    RunningAt s.local.status lh s
    × (s.chain.escrow ≡ released)
    × (s.credit ≡ none)
    × (hash ≡ some 0)
    × ((b : Bool) × (s.chain.payouts ≡ b ∷ []))

paid-Sent :
    (b : Bool) (s : State)
    → Releasing s
    → Sent (some 0) (some 0) (record s { chain = record s.chain { payouts = b ∷ s.chain.payouts } })
paid-Sent b s ((r, unsent, unpaid), free) =
    let one : b ∷ s.chain.payouts ≡ b ∷ [] = cc in
    (
      record {
        facts =
            subst
              (λ x.
                Facts s.row.status s.chain.escrow x s.chain.makegoods s.chain.orphaned s.credit
                  s.row.destination_tx_hash)
              (sym one) (Facts-paid b s.chain.orphaned r.facts r.active free unsent unpaid);
        fresh = r.fresh;
        active = r.active;
        released_at = r.released_at;
        known = inr (inl (refl, (b, one)));
      },
      free,
      unpaid,
      refl,
      (b, one),
    )

orphaned-Running :
    (s : State)
    → Releasing s
    → Running
        (record s { chain = record s.chain { payouts = true ∷ s.chain.payouts; orphaned = true } })
orphaned-Running s ((r, unsent, unpaid), free) =
    let one : true ∷ s.chain.payouts ≡ true ∷ [] = cc in
    let forgotten : s.local.destination_tx_hash ≡ none = ground (arith, r.known, unsent) in
    record {
      facts =
          subst
            (λ x.
              Facts s.row.status s.chain.escrow x s.chain.makegoods true s.credit
                s.row.destination_tx_hash)
            (sym one) (Facts-paid true true r.facts r.active free unsent unpaid);
      fresh = r.fresh;
      active = r.active;
      released_at = r.released_at;
      known = inr (inr (one, refl, forgotten));
    }

zero_hash : (ps : List Bool) → ps ≡ [] → some (length ps) ≡ some 0
zero_hash ps h = ap (λ x. some (length x)) h

reply-Holds :
    (r : Reply) (s : State) (rs : List Reply)
    → Releasing s
    → Holds (λ hash. Sent (some hash) (some hash)) Running (sent_payout r s rs)
reply-Holds works s rs p =
    subst (λ x. Sent x x (record s { chain = record s.chain { payouts = true ∷ s.chain.payouts } }))
      (sym (zero_hash s.chain.payouts p.0.1)) (paid-Sent true s p)
reply-Holds reverts s rs p =
    subst
      (λ x. Sent x x (record s { chain = record s.chain { payouts = false ∷ s.chain.payouts } }))
      (sym (zero_hash s.chain.payouts p.0.1)) (paid-Sent false s p)
reply-Holds lost s rs p = orphaned-Running s p
reply-Holds fails s rs p = p.0.0

Holds-send :
    (s : State) (rs : List Reply)
    → Releasing s
    → Holds (λ hash. Sent (some hash) (some hash)) Running (send_payout s rs)
unfolding send_payout
Holds-send s [] p = reply-Holds works s [] p
Holds-send s (r ∷ rs) p = reply-Holds r s rs p

-- Sending a payout from a released escrow, whose hash is in hand or which is orphaned.
pub send_payout-Ensures :
    Ensures Releasing send_payout (λ hash. Sent (some hash) (some hash)) Running
send_payout-Ensures = record { run = Holds-send }
