-- ===== src/Treasury/Stable.antt =====
-- A predicate that each single change keeps, whatever the amounts, is kept by every request.
use settlementos.Base.{ℕ, ◌-◌, ◌≤◌, ◌⊎◌, List, [], ◌∷◌, ◌++◌, length}
use settlementos.Base.Texts.{String}
use settlementos.Base.Programs.{bind-Ensures, relax}
use settlementos.Treasury.State.{World, Deployments, Position, Event, mark_recalled}
use settlementos.Treasury.Calls.{
  current_index, shares_of, token_balance, create_position, approve_max,
}
use settlementos.Treasury.Balance.{TreasuryBalance}
use settlementos.Treasury.Park.{
  ParkArgs, park, park_free, subscribe_position, accrue_daily, parked_row,
}
use settlementos.Treasury.Recall.{redeem_position}
use settlementos.Treasury.Rules.{Blind, call-Ensures, commit-Ensures}
use settlementos.Treasury.Passing.{
  Passes, lift-Passes, read-Passes, pure-Passes, throw_when-Passes, fund_asset_for-Passes,
  check_entity-Passes, free_treasury_balance-Ensures, current_index_of-Passes,
}
use settlementos.Treasury.Moves.{
  subscribed, redeemed, accrued, subscribe-Ensures, redeem-Ensures, accrue-Ensures,
}
use settlementos.Treasury.Requests.{Request, serve_all, serve_all-keeps}
use settlementos.Treasury.Keeping.{recall-Passes, ensure_allowance-Passes}

pub record Stable (P : World → Type 0) : Type 0 where
  pub blind : Blind P
  pub logged : (w : World) (log : List Event) → P w → P (record w { log = log })
  pub created :
      (w : World) (row : Position) (log : List Event)
      → P w
      → P (record w {
        positions = w.positions ++ record row { id = length w.positions } ∷ [];
        log = log;
      })
  pub marked :
      (w : World) (id hash : ℕ) (log : List Event)
      → P w
      → P (record w { positions = mark_recalled id hash w.positions; log = log })
  pub approved : (w : World) (network asset : String) → P w → P (approve_max network asset w)
  pub on_subscribe :
      (w : World) (network asset : String) (k : ℕ) → P w → P (subscribed network asset k w)
  pub on_redeem :
      (w : World) (network asset : String) (k : ℕ) → P w → P (redeemed network asset k w)
  pub on_accrue :
      (w : World) (network : String) (k : ℕ)
      → (w.funds network).current_index ≤ k
      → P w
      → P (accrued network k w)

module _ (P : World → Type 0) (s : Stable P) (d : Deployments) where
  subscribe_position-Passes :
      (network asset : String) (k : ℕ) → Passes P s.blind (subscribe_position network asset k)
  unfolding subscribe_position current_index shares_of create_position
  subscribe_position-Passes network asset k =
      bind-Ensures {Q = λ a. P} (read-Passes P s.blind _) (λ index.
        bind-Ensures {Q = λ a. P} (read-Passes P s.blind _) (λ before.
          bind-Ensures {Q = λ a. P}
            (subscribe-Ensures _ _ _ s.blind network asset k (λ w p. p)
              (λ w p g. let q = s.on_subscribe w network asset k p in (q, q)))
            (λ hash. bind-Ensures {Q = λ a. P} (read-Passes P s.blind _) (λ after.
              bind-Ensures {Q = λ a. P}
                (call-Ensures _ _ _ _ _ s.blind (λ w p. p)
                  (λ w p. s.created w (parked_row network asset (after - before) k index hash) _ p)
                  (λ w a p e.
                    s.created w (parked_row network asset (after - before) k index hash) _ p))
                (λ id. pure-Passes P s.blind _)))))

  park_free-Passes :
      (network asset : String) (k : ℕ) (t : TreasuryBalance)
      → Passes P s.blind (park_free network asset k t)
  unfolding park_free
  park_free-Passes network asset k t =
      bind-Ensures {Q = λ a. P} (throw_when-Passes P s.blind _ _) (λ u.
        bind-Ensures {Q = λ a. P}
          (ensure_allowance-Passes P s.blind d network asset k (λ w. s.approved w network asset))
          (λ u. subscribe_position-Passes network asset k))

  park-Passes : (args : ParkArgs) → Passes P s.blind (park d args)
  unfolding park
  park-Passes args =
      let b = s.blind in
      bind-Ensures {Q = λ a. P} (check_entity-Passes P b args.entity_id) (λ u.
        bind-Ensures {Q = λ a. P} (fund_asset_for-Passes P b d args.network_id args.asset) (λ a.
          bind-Ensures {Q = λ a. P} (lift-Passes P b _) (λ k.
            bind-Ensures {Q = λ a. P}
              (relax (free_treasury_balance-Ensures P b d args.network_id a.symbol) (λ t w p. p.0)
                (λ w p. p))
              (λ t. park_free-Passes args.network_id a.symbol k t))))

  redeem_position-Passes : (p : Position) → Passes P s.blind (redeem_position p)
  unfolding redeem_position current_index token_balance
  redeem_position-Passes p = bind-Ensures {Q = λ a. P} (read-Passes P s.blind _) (λ index.
      bind-Ensures {Q = λ a. P} (read-Passes P s.blind _) (λ before.
        bind-Ensures {Q = λ a. P}
          (redeem-Ensures _ _ _ s.blind p.network p.asset p.shares (λ w q. q)
            (λ w q g. let r = s.on_redeem w p.network p.asset p.shares q in (r, r)))
          (λ hash. bind-Ensures {Q = λ a. P} (read-Passes P s.blind _) (λ after.
            bind-Ensures {Q = λ a. P}
              (commit-Ensures _ _ _ _ s.blind (λ w q. q) (λ w q. s.marked w p.id hash _ q)
                (λ w q. s.marked w p.id hash _ q))
              (λ u. pure-Passes P s.blind _)))))

  accrue_daily-Passes :
      (network : String) (rate : ℕ ⊎ ℕ) → Passes P s.blind (accrue_daily d network rate)
  unfolding accrue_daily
  accrue_daily-Passes network rate =
      let b = s.blind in
      bind-Ensures {Q = λ a. P} (lift-Passes P b _) (λ fund.
        bind-Ensures {Q = λ a. P} (current_index_of-Passes P b d network) (λ old.
          bind-Ensures {Q = λ a. P} (lift-Passes P b _) (λ new.
            bind-Ensures {Q = λ a. P}
              (accrue-Ensures _ _ _ b network new (λ w p. p)
                (λ w p g. let q = s.on_accrue w network new g p in (q, q)))
              (λ hash.
                bind-Ensures {Q = λ a. P}
                  (commit-Ensures _ _ _ _ b (λ w p. p) (λ w. s.logged w _) (λ w. s.logged w _))
                  (λ u. pure-Passes P b _)))))

  pub stable_served : (rs : List Request) (w : World) → P w → P (serve_all d rs w)
  stable_served =
      serve_all-keeps P s.blind d s.logged park-Passes
        (recall-Passes P s.blind d redeem_position-Passes) accrue_daily-Passes
