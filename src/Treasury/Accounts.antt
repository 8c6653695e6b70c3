-- ===== src/Treasury/Accounts.antt =====
-- The rows and the fund agree after every request.
use settlementos.Base.{
  ◌≡◌, refl, ap, sym, subst, ℕ, ◌⊎◌, inl, inr, List, Option, none, some, Bool-cases,
}
use settlementos.Base.Texts.{String, str_eq, eq_iff}
use settlementos.Base.Programs.{Ensures, bind-Ensures, relax, throw-Ensures, throw_when-Ensures}
use settlementos.Treasury.State.{World, Deployments, Position, find_position}
use settlementos.Treasury.Balance.{TreasuryBalance}
use settlementos.Treasury.Park.{ParkArgs, park, park_free, accrue_daily}
use settlementos.Treasury.Recall.{recall, recall_found}
use settlementos.Treasury.Shares.{found_id}
use settlementos.Treasury.Backed.{
  Backed, Backed-Blind, Found, subscribe_position-Backed, redeem_position-Backed,
}
use settlementos.Treasury.Rules.{Blind, read-works, commit-Ensures}
use settlementos.Treasury.Passing.{
  Passes, lift-Passes, pure-Passes, throw_when-Passes, fund_asset_for-Passes, check_entity-Passes,
  free_treasury_balance-Ensures, current_index_of-Passes,
}
use settlementos.Treasury.Moves.{accrue-Ensures, accrued}
use settlementos.Treasury.Requests.{Request, serve_all, serve_all-keeps}
use settlementos.Treasury.Keeping.{ensure_allowance-Passes}

park_free-Backed :
    (d : Deployments) (network asset : String) (k : ℕ) (t : TreasuryBalance)
    → Passes Backed Backed-Blind (park_free network asset k t)
unfolding park_free
park_free-Backed d network asset k t =
    bind-Ensures {Q = λ a. Backed} (throw_when-Passes Backed Backed-Blind _ _) (λ u.
      bind-Ensures {Q = λ a. Backed}
        (ensure_allowance-Passes Backed Backed-Blind d network asset k (λ w p. p))
        (λ u. subscribe_position-Backed network asset k))

Found-Blind : (p : Position) → Blind (Found p)
Found-Blind p w y rs z f = cc (f.0.0)

module _ (d : Deployments) where
  park-Backed : (args : ParkArgs) → Passes Backed Backed-Blind (park d args)
  unfolding park
  park-Backed args =
      let P = Backed in
      let b = Backed-Blind in
      bind-Ensures {Q = λ a. P} (check_entity-Passes P b args.entity_id) (λ u.
        bind-Ensures {Q = λ a. P} (fund_asset_for-Passes P b d args.network_id args.asset) (λ a.
          bind-Ensures {Q = λ a. P} (lift-Passes P b _) (λ k.
            bind-Ensures {Q = λ a. P}
              (relax (free_treasury_balance-Ensures P b d args.network_id a.symbol) (λ t w p. p.0)
                (λ w p. p))
              (λ t. park_free-Backed d args.network_id a.symbol k t))))

  recall_found-Backed :
      (id : ℕ) (found : Option Position)
      → Ensures
          (λ w. Backed w × (find_position id w.positions ≡ found))
          (recall_found d found)
          (λ a. Backed)
          Backed
  unfolding recall_found
  recall_found-Backed id none = throw-Ensures _ (λ w p. p.0)
  recall_found-Backed id (some p) = elim (Bool-cases p.is_active) [
    | inl active ↦
        bind-Ensures {Q = λ a. Found p}
          (throw_when-Ensures _ _
            (λ w h f. (
              f.0,
              subst (λ i. find_position i w.positions ≡ some p)
                  (sym (found_id id w.positions p f.1)) f.1,
            ))
            (λ w f. f.0))
          (λ u.
            bind-Ensures {Q = λ a. Found p}
              (relax (fund_asset_for-Passes (Found p) (Found-Blind p) d p.network p.asset)
                (λ a w f. f) (λ w f. f.0))
              (λ a. redeem_position-Backed p active))
    | inr inactive ↦ rw inactive (
        bind-Ensures {Q = λ a w. ⊥} (throw-Ensures _ (λ w f. f.0))
          (λ u. record { run = λ w f. absurd f }))
  ]

  recall-Backed : (id : ℕ) → Passes Backed Backed-Blind (recall d id)
  unfolding recall
  recall-Backed id =
      bind-Ensures {Q = λ found w. Backed w × (find_position id w.positions ≡ found)}
        (read-works _ _ _ _ (λ w p. p.0) (λ w p. (p, refl))) (λ found. recall_found-Backed id found)

  accrued-Backed : (network : String) (k : ℕ) (w : World) → Backed w → Backed (accrued network k w)
  accrued-Backed network k w p = (
    p.0,
    λ n. elim (Bool-cases (str_eq n network)) [
      | inl c ↦ rw (c, p.1 n) (ap (λ x. (w.funds x).shares_of) ((eq_iff n network).0 c))
      | inr c ↦ rw c (p.1 n)
    ],
  )

  accrue_daily-Backed :
      (network : String) (rate : ℕ ⊎ ℕ) → Passes Backed Backed-Blind (accrue_daily d network rate)
  unfolding accrue_daily
  accrue_daily-Backed network rate =
      let P = Backed in
      let b = Backed-Blind in
      bind-Ensures {Q = λ a. P} (lift-Passes P b _) (λ fund.
        bind-Ensures {Q = λ a. P} (current_index_of-Passes P b d network) (λ old.
          bind-Ensures {Q = λ a. P} (lift-Passes P b _) (λ new.
            bind-Ensures {Q = λ a. P}
              (accrue-Ensures _ _ _ b network new (λ w p. p)
                (λ w p g. let after = accrued-Backed network new w p in (after, after)))
              (λ hash.
                bind-Ensures {Q = λ a. P}
                  (commit-Ensures _ _ _ _ b (λ w p. p) (λ w p. p) (λ w p. p))
                  (λ u. pure-Passes P b _)))))

  -- As long as no answer of a call is lost and no call fails on its way, the shares that the
  -- treasury holds in the fund of each network stay the sum of the shares of its active positions,
  -- whatever requests are served, if they were before.
  pub positions_backed : (rs : List Request) (w : World) → Backed w → Backed (serve_all d rs w)
  positions_backed =
      serve_all-keeps Backed Backed-Blind d (λ w log p. p) park-Backed recall-Backed
        accrue_daily-Backed
