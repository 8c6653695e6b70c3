-- ===== src/Treasury/Reserved.antt =====
-- What is reserved for payments stays in the treasury.
use settlementos.Base.{◌≡◌, subst, ℕ, ◌+◌, ◌≤◌, ◌⊎◌, false, List, Result, ok, ltb, arith}
use settlementos.Base.Texts.{String}
use settlementos.Base.Programs.{Ensures, bind-Ensures, relax, pure-Ensures, throw_when-Ensures}
use settlementos.Treasury.State.{World, Deployments, Error, Position}
use settlementos.Treasury.Calls.{current_index, shares_of, token_balance, create_position}
use settlementos.Treasury.Balance.{TreasuryBalance, free_of}
use settlementos.Treasury.Park.{ParkArgs, park, park_free, subscribe_position, accrue_daily}
use settlementos.Treasury.Recall.{redeem_position}
use settlementos.Treasury.Rules.{Blind, read-Ensures, commit-Ensures, call-Ensures, put_in-cases}
use settlementos.Treasury.Passing.{
  reserved_of, IsBalance, Passes, lift-Passes, read-Passes, pure-Passes, fund_asset_for-Passes,
  check_entity-Passes, free_treasury_balance-Ensures, current_index_of-Passes,
}
use settlementos.Treasury.Moves.{
  subscribed, redeemed, subscribe-Ensures, redeem-Ensures, accrue-Ensures,
}
use settlementos.Treasury.Requests.{Request, serve_all, serve_all-keeps}
use settlementos.Treasury.Keeping.{recall-Passes, ensure_allowance-Passes}

-- Every balance covers what is reserved against it.
abbrev pub Covered : Deployments → World → Type 0
Covered d w =
    (network asset : String) (r : ℕ)
    → reserved_of d network asset w.reservations ≡ ok r
    → r ≤ w.balances network asset

-- And one of them covers `k` more.
abbrev pub Room : Deployments → String → String → ℕ → World → Type 0
Room d network asset k w =
    Covered d w
    × ((r : ℕ)
        → reserved_of d network asset w.reservations ≡ ok r
        → r + k ≤ w.balances network asset)

ok_same : (x : Result Error ℕ) (r s : ℕ) → x ≡ ok r → x ≡ ok s → r ≡ s
ok_same x r s e h = cc

module _ (d : Deployments) (network asset : String) (k : ℕ) where
  Covered-subscribed :
      (w : World) → Room d network asset k w → Covered d (subscribed network asset k w)
  Covered-subscribed w room n a r e =
      put_in-cases (λ v. r ≤ v) network asset n a _ w.balances
        (λ h g.
          let e' : reserved_of d network asset w.reservations ≡ ok r =
            subst (λ x. reserved_of d x asset w.reservations ≡ ok r) h
              (subst (λ x. reserved_of d n x w.reservations ≡ ok r) g e) in
          omega (arith, room.1 r e'))
        (room.0 n a r e)

  Covered-redeemed : (w : World) → Covered d w → Covered d (redeemed network asset k w)
  Covered-redeemed w covered n a r e =
      put_in-cases (λ v. r ≤ v) network asset n a _ w.balances
        (λ h g.
          let e' : reserved_of d network asset w.reservations ≡ ok r =
            subst (λ x. reserved_of d x asset w.reservations ≡ ok r) h
              (subst (λ x. reserved_of d n x w.reservations ≡ ok r) g e) in
          omega (arith, covered network asset r e'))
        (covered n a r e)

  subscribe_position-Ensures :
      Ensures
        (Room d network asset k)
        (subscribe_position network asset k)
        (λ a. Covered d)
        (Covered d)
  unfolding subscribe_position current_index shares_of create_position
  subscribe_position-Ensures =
      bind-Ensures {Q = λ a. Room d network asset k}
        (read-Ensures _ _ _ _ (λ w y rs z p. p) (λ w p. p.0) (λ w p. p))
        (λ index.
          bind-Ensures {Q = λ a. Room d network asset k}
            (read-Ensures _ _ _ _ (λ w y rs z p. p) (λ w p. p.0) (λ w p. p))
            (λ before.
              bind-Ensures {Q = λ a. Covered d}
                (subscribe-Ensures _ _ _ (λ w y rs z p. p) network asset k (λ w p. p.0)
                  (λ w p g. (Covered-subscribed w p, Covered-subscribed w p)))
                (λ hash.
                  bind-Ensures {Q = λ a. Covered d} (read-Passes (Covered d) (λ w y rs z p. p) _)
                    (λ after.
                      bind-Ensures {Q = λ a. Covered d}
                        (call-Ensures _ _ _ _ _ (λ w y rs z p. p) (λ w p. p) (λ w p. p)
                          (λ w a p e. p))
                        (λ id. pure-Ensures _ (λ w p. p))))))

-- A free balance that covers an amount leaves room for it.
free-Room :
    (d : Deployments) (network asset : String) (k : ℕ) (t : TreasuryBalance) (w : World)
    → Covered d w
    → IsBalance d network asset t w
    → ltb t.free k ≡ false
    → Room d network asset k w
free-Room d network asset k t w covered is h = (
  covered,
  λ r e.
      let same : t.reserved ≡ r = ok_same _ _ _ is.reserved e in
      let free : t.free ≡ free_of t.balance t.reserved = is.free in
      let enough : k ≤ t.free = ground arith in
      ground (arith, covered network asset r e, is.balance),
)

park_free-Ensures :
    (d : Deployments) (network asset : String) (k : ℕ) (t : TreasuryBalance)
    → Ensures
        (λ w. Covered d w × IsBalance d network asset t w)
        (park_free network asset k t)
        (λ a. Covered d)
        (Covered d)
unfolding park_free
park_free-Ensures d network asset k t =
    bind-Ensures {Q = λ a. Room d network asset k}
      (throw_when-Ensures _ _ (λ w h p. free-Room d network asset k t w p.0 p.1 h) (λ w p. p.0))
      (λ u.
        bind-Ensures {Q = λ a. Room d network asset k}
          (relax
            (ensure_allowance-Passes (Room d network asset k) (λ w y rs z p. p) d network asset k
              (λ w p. p))
            (λ a w p. p) (λ w p. p.0))
          (λ u. subscribe_position-Ensures d network asset k))

module _ (d : Deployments) where
  Covered-Blind : Blind (Covered d)
  Covered-Blind w y rs z p = p

  park-Covered : (args : ParkArgs) → Passes (Covered d) Covered-Blind (park d args)
  unfolding park
  park-Covered args =
      let P = Covered d in
      bind-Ensures {Q = λ a. P} (check_entity-Passes P Covered-Blind args.entity_id) (λ u.
        bind-Ensures {Q = λ a. P}
          (fund_asset_for-Passes P Covered-Blind d args.network_id args.asset)
          (λ a. bind-Ensures {Q = λ a. P} (lift-Passes P Covered-Blind _) (λ k.
            bind-Ensures (free_treasury_balance-Ensures P Covered-Blind d args.network_id a.symbol)
              (λ t. park_free-Ensures d args.network_id a.symbol k t))))

  redeem_position-Covered : (p : Position) → Passes (Covered d) Covered-Blind (redeem_position p)
  unfolding redeem_position current_index token_balance
  redeem_position-Covered p =
      let P = Covered d in
      bind-Ensures {Q = λ a. P} (read-Passes P Covered-Blind _) (λ index.
        bind-Ensures {Q = λ a. P} (read-Passes P Covered-Blind _) (λ before.
          bind-Ensures {Q = λ a. P}
            (redeem-Ensures _ _ _ (λ w y rs z p. p) p.network p.asset p.shares (λ w p. p)
              (λ w c g.
                let after = Covered-redeemed d p.network p.asset p.shares w c in (after, after)))
            (λ hash. bind-Ensures {Q = λ a. P} (read-Passes P Covered-Blind _) (λ after.
              bind-Ensures {Q = λ a. P}
                (commit-Ensures _ _ _ _ (λ w y rs z p. p) (λ w p. p) (λ w p. p) (λ w p. p))
                (λ u. pure-Passes P Covered-Blind _)))))

  accrue_daily-Covered :
      (network : String) (rate : ℕ ⊎ ℕ)
      → Passes (Covered d) Covered-Blind (accrue_daily d network rate)
  unfolding accrue_daily
  accrue_daily-Covered network rate =
      let P = Covered d in
      bind-Ensures {Q = λ a. P} (lift-Passes P Covered-Blind _) (λ fund.
        bind-Ensures {Q = λ a. P} (current_index_of-Passes P Covered-Blind d network) (λ old.
          bind-Ensures {Q = λ a. P} (lift-Passes P Covered-Blind _) (λ new.
            bind-Ensures {Q = λ a. P}
              (accrue-Ensures _ _ _ (λ w y rs z p. p) network new (λ w p. p) (λ w p g. (p, p)))
              (λ hash.
                bind-Ensures {Q = λ a. P}
                  (commit-Ensures _ _ _ _ (λ w y rs z p. p) (λ w p. p) (λ w p. p) (λ w p. p))
                  (λ u. pure-Passes P Covered-Blind _)))))

  -- Whatever requests the treasury serves, in any order and however their calls end, every balance
  -- goes on covering what is reserved for payments against it, if each did before.
  pub parking_spares_reserved :
      (rs : List Request) (w : World) → Covered d w → Covered d (serve_all d rs w)
  parking_spares_reserved =
      serve_all-keeps (Covered d) Covered-Blind d (λ w log p. p) park-Covered
        (recall-Passes (Covered d) Covered-Blind d redeem_position-Covered) accrue_daily-Covered
