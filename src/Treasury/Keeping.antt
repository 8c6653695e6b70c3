-- ===== src/Treasury/Keeping.antt =====
-- When a predicate survives every request of the treasury module: it does not look at the replies,
-- and each change of the rows and of the fund leaves it.
use settlementos.Base.{
  ◌≡◌, subst, ℕ, Bool, true, false, List, [], ◌∷◌, Option, none, some, leb, Bool-cases, inl, inr,
}
use settlementos.Base.Texts.{String}
use settlementos.Base.Programs.{Ensures, Holds, bind-Ensures, throw-Ensures, relax}
use settlementos.Base.{Result, ok, err}
use settlementos.Treasury.State.{World, Deployments, Error, Position}
use settlementos.Treasury.Calls.{M, ensure_treasury_allowance, approve_unless, approve_max}
use settlementos.Treasury.Recall.{
  RecallForPaymentArgs, recall, recall_found, redeem_position, recall_until, recall_shortfall,
  recall_for_payment,
}
use settlementos.Treasury.Rules.{Blind, commit-Ensures}
use settlementos.Treasury.Passing.{
  Passes, lift-Passes, read-Passes, throw_when-Passes, pure-Passes, fund_asset_for-Passes,
  parked_balance-Passes, free_treasury_balance-Ensures,
}

-- The predicate at the end of a computation, however it ended.
pub Holds-end {ℓ} :
    {A : Type ℓ} (P : World → Type 0) (o : Result Error A × World) → Holds (λ a. P) P o → P o.1
Holds-end P (ok a, w) h = h
Holds-end P (err e, w) h = h

-- What a computation that returned ensures of its value.
pub returned-Holds {ℓ} :
    {A : Type ℓ} (Q : A → World → Type 0) (R : World → Type 0) (o : Result Error A × World) (a : A)
    → o.0 ≡ ok a
    → Holds Q R o
    → Q a o.1
returned-Holds Q R (ok x, w) a e h = let e' : x ≡ a = cc in subst (λ y. Q y w) e' h
returned-Holds Q R (err x, w) a e h = cc

pub kept {ℓ} :
    {A : Type ℓ} (P : World → Type 0) (m : M A) (w : World)
    → Ensures P m (λ a. P) P
    → P w
    → P (m w).1
kept P m w e p = Holds-end P (m w) (e.run w p)

module _ (P : World → Type 0) (b : Blind P) (d : Deployments) where
  -- Of one recall, whatever the position, follows the same of the loop and of the whole.
  module _ (one : (id : ℕ) → Passes P b (recall d id))
      (logged : (w : World) (log : List _) → P w → P (record w { log = log })) where
    recall_until-Passes :
        (shortfall : ℕ) (ps : List Position) (freed : ℕ)
        → Passes P b (recall_until d shortfall ps freed)
    unfolding recall_until
    recall_until-Passes shortfall [] freed = pure-Passes P b _
    recall_until-Passes shortfall (p ∷ ps) freed = elim (Bool-cases (leb shortfall freed)) [
      | inl e ↦ rw e (pure-Passes P b _)
      | inr e ↦ rw e (
          bind-Ensures {Q = λ a. P} (one p.id) (λ r.
            bind-Ensures {Q = λ a. P} (recall_until-Passes shortfall ps _)
              (λ rest. pure-Passes P b _)))
    ]

    recall_shortfall-Passes :
        (args : RecallForPaymentArgs) (asset : String) (shortfall : ℕ)
        → Passes P b (recall_shortfall d args asset shortfall)
    unfolding recall_shortfall
    recall_shortfall-Passes args asset shortfall =
        bind-Ensures {Q = λ a. P} (parked_balance-Passes P b d args.network_id asset) (λ parked.
          bind-Ensures {Q = λ a. P} (throw_when-Passes P b _ _) (λ u.
            bind-Ensures {Q = λ a. P} (read-Passes P b _) (λ ps.
              bind-Ensures {Q = λ a. P} (recall_until-Passes shortfall ps 0) (λ result.
                bind-Ensures {Q = λ a. P} (throw_when-Passes P b _ _) (λ u.
                  bind-Ensures {Q = λ a. P}
                    (commit-Ensures P (λ a. P) P _ b (λ w p. p) (λ w. logged w _) (λ w. logged w _))
                    (λ u. pure-Passes P b _))))))

    pub recall_for_payment-Passes :
        (args : RecallForPaymentArgs) → Passes P b (recall_for_payment d args)
    unfolding recall_for_payment
    recall_for_payment-Passes args =
        bind-Ensures {Q = λ a. P} (fund_asset_for-Passes P b d args.network_id args.asset) (λ asset.
          bind-Ensures {Q = λ a. P} (lift-Passes P b _) (λ needed.
            bind-Ensures {Q = λ t. P}
              (relax (free_treasury_balance-Ensures P b d args.network_id asset.symbol)
                (λ t w p. p.0) (λ w p. p))
              (λ t. elim (Bool-cases (leb needed t.free)) [
                | inl e ↦ rw e (pure-Passes P b _)
                | inr e ↦ rw e (recall_shortfall-Passes args asset.symbol _)
              ])))

  found-Passes :
      ((p : Position) → Passes P b (redeem_position p))
      → (found : Option Position) → Passes P b (recall_found d found)
  unfolding recall_found
  found-Passes redeems none = throw-Ensures _ (λ w p. p)
  found-Passes redeems (some p) = bind-Ensures {Q = λ a. P} (throw_when-Passes P b _ _) (λ u.
      bind-Ensures {Q = λ a. P} (fund_asset_for-Passes P b d p.network p.asset)
        (λ asset. redeems p))

  -- A recall is its reads and the redeeming of the row that was found.
  pub recall-Passes :
      ((p : Position) → Passes P b (redeem_position p)) → (id : ℕ) → Passes P b (recall d id)
  unfolding recall
  recall-Passes redeems id =
      bind-Ensures {Q = λ a. P} (read-Passes P b _) (λ found. found-Passes redeems found)

  approve-Passes :
      (network asset : String) (c : Bool)
      → ((w : World) → P w → P (approve_max network asset w))
      → Passes P b (approve_unless network asset c)
  approve-Passes network asset true approved = pure-Passes P b tt
  approve-Passes network asset false approved =
      commit-Ensures P (λ a. P) P _ b (λ w p. p) approved approved

  pub ensure_allowance-Passes :
      (network asset : String) (amount : ℕ)
      → ((w : World) → P w → P (approve_max network asset w))
      → Passes P b (ensure_treasury_allowance network asset amount)
  unfolding ensure_treasury_allowance
  ensure_allowance-Passes network asset amount approved =
      bind-Ensures {Q = λ a. P} (read-Passes P b _)
        (λ allowed. approve-Passes network asset (leb amount allowed) approved)
