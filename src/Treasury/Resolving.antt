-- ===== src/Treasury/Resolving.antt =====
-- The amount that a payment needs, and the rows that a recall finds.
use settlementos.Base.{
  ◌≡◌, refl, ap, ◌∙◌, sym, subst, ℕ, ◌+◌, ◌-◌, ◌≤◌, ◌<◌, Bool, true, false, ◌&&◌, not, ltb, leb,
  List, [], ◌∷◌, map, if◌then◌else◌, Option, none, some, Bool-cases, inl, inr, leb→le, Result, ok,
  err, arith, All,
}
use settlementos.Base
use settlementos.Base.Texts.{String, str_eq, eq_iff}
use settlementos.Decimal.{Text}
use settlementos.Base.Programs.{
  Ensures, bind-Ensures, pure-Ensures, lift-Ensures, throw_when-Ensures,
}
use settlementos.Treasury.State.{
  World, Deployments, Network, Token, Error, Position, find_position, active_positions,
}
use settlementos.Treasury.Calls.{network_contracts, token_on}
use settlementos.Treasury.Balance.{FundAsset, fund_asset_for, parse_positive_asset_units}
use settlementos.Treasury.Rules.{Blind, read-Ensures}
use settlementos.Treasury.Freed.{Placed}

-- What the arguments ask for, in base units.
abbrev pub needed_of : Deployments → String → String → Text → Result Error ℕ
needed_of d network asset amount =
    Base.◌>>=◌ (network_contracts d network)
      λ n. Base.◌>>=◌ (token_on n asset) λ t. parse_positive_asset_units amount t.decimals

-- Each row is the one that is found by its id, as the key of a table has it.
abbrev pub Keyed : List Position → List Position → Type 0
Keyed rows ps = All (λ (p : Position). find_position p.id rows ≡ some p) ps

all_true : (a b c : Bool) → (a && b && c) ≡ true → (b ≡ true) × (c ≡ true)
all_true a b c h = (ground arith, ground arith)

pub active_positions-Placed :
    (network asset : String) (rows ps : List Position)
    → Keyed rows ps
    → All (Placed network asset rows) (active_positions network asset ps)
unfolding active_positions
active_positions-Placed network asset rows [] k = tt
active_positions-Placed network asset rows (p ∷ ps) (k, ks) =
    elim (Bool-cases (p.is_active && str_eq p.network network && str_eq p.asset asset)) [
      | inl e ↦
          let same = all_true p.is_active (str_eq p.network network) (str_eq p.asset asset) e in
          rw e (
            (p, k, (eq_iff p.network network).0 same.0, (eq_iff p.asset asset).0 same.1),
            active_positions-Placed network asset rows ps ks,
          )
      | inr e ↦ rw e (active_positions-Placed network asset rows ps ks)
    ]

module _ (d : Deployments) (network asset : String) where
  -- Of the asset that is resolved.
  abbrev pub Resolved : FundAsset → Type 0
  Resolved a =
      (a.symbol ≡ asset)
      × ((amount : Text)
          → needed_of d network asset amount ≡ parse_positive_asset_units amount a.decimals)

  pub fund_asset_for-Resolved :
      (P : World → Type 0)
      → Blind P
      → Ensures P (fund_asset_for d network asset) (λ a w. P w × Resolved a) P
  unfolding fund_asset_for
  fund_asset_for-Resolved P b =
      bind-Ensures {Q = λ a. P} (lift-Ensures _ (λ a w e p. p) (λ w p. p)) (λ fund.
        bind-Ensures {Q = λ a. P} (throw_when-Ensures _ _ (λ w e p. p) (λ w p. p)) (λ u.
          bind-Ensures {Q = λ (n : Network) w. P w × (network_contracts d network ≡ ok n)}
            (lift-Ensures _ (λ n w e p. (p, e)) (λ w p. p))
            (λ n.
              bind-Ensures
                {Q = λ (t : Token) w.
                  P w × (network_contracts d network ≡ ok n) × (token_on n asset ≡ ok t)}
                (lift-Ensures _ (λ t w e p. (p.0, p.1, e)) (λ w p. p.0))
                (λ t.
                  bind-Ensures
                    {Q = λ backed w.
                      P w × (network_contracts d network ≡ ok n) × (token_on n asset ≡ ok t)}
                    (read-Ensures _ _ _ _ (λ w y rs z p. (b w y rs z p.0, p.1, p.2)) (λ w p. p.0)
                      (λ w p. p))
                    (λ backed.
                      bind-Ensures
                        {Q = λ u w.
                          P w × (network_contracts d network ≡ ok n) × (token_on n asset ≡ ok t)}
                        (throw_when-Ensures _ _ (λ w e p. p) (λ w p. p.0))
                        (λ u.
                          pure-Ensures _ (λ w p. (p.0, (refl, λ amount. rw (p.1, p.2) refl)))))))))
