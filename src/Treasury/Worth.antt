-- ===== src/Treasury/Worth.antt =====
-- What positions are worth: never more than the shares behind them, never less from one request to
-- the next, and on redeeming what was paid in, grown by the index.
use settlementos.Base.{
  ◌≡◌, refl, ◌∙◌, sym, subst, ℕ, ◌+◌, ◌*◌, ◌/◌, ◌≤◌, inl, inr, true, ◌&&◌, List, [], ◌∷◌, Option,
  none, some, Bool-cases, ok, arith,
}
use settlementos.Base.Texts.{String, str_eq, eq_iff, eq_refl}
use settlementos.Base.Programs.{Ensures, bind-Ensures, relax, pure-Ensures}
use settlementos.Treasury.State.{World, Deployments, Position, active_positions}
use settlementos.Treasury.Fund.{index_scale}
use settlementos.Treasury.Balance.{
  value_of_shares, total_value, parked_value, parked_of, parked_balance, current_index_of,
}
use settlementos.Treasury.Calls.{current_index, mmf_address}
use settlementos.Treasury.Shares.{parked_shares, held_in}
use settlementos.Treasury.Backed.{Backed}
use settlementos.Treasury.Rules.{Blind, read-Ensures}
use settlementos.Treasury.Passing.{lift-Passes}
use settlementos.Treasury.Keeping.{returned-Holds}

value-add : (x y i : ℕ) → x * i / index_scale + y * i / index_scale ≤ (x + y) * i / index_scale
value-add x y i = omega arith

str_eq-swap : (s t : String) → str_eq s t ≡ true → str_eq t s ≡ true
str_eq-swap s t h = subst (λ x. str_eq t x ≡ true) (sym ((eq_iff s t).0 h)) (eq_refl t)

held_in-active :
    (network asset : String) (p : Position)
    → (p.is_active && str_eq p.network network && str_eq p.asset asset) ≡ true
    → held_in network p ≡ p.shares
held_in-active network asset p h = let same = str_eq-swap p.network network in ground (arith, same)

-- The value of the positions of an asset is at most that of all the shares of its network.
total_value-le :
    (network asset : String) (i : ℕ) (ps : List Position) (sum : ℕ)
    → total_value i (active_positions network asset ps) sum
      ≤ sum + parked_shares network ps * i / index_scale
unfolding total_value active_positions parked_shares value_of_shares
total_value-le network asset i [] sum = omega arith
total_value-le network asset i (p ∷ ps) sum =
    elim (Bool-cases (p.is_active && str_eq p.network network && str_eq p.asset asset)) [
      | inl e ↦
          rw (e, held_in-active network asset p e)
            (omega (
              arith,
              total_value-le network asset i ps (sum + p.shares * i / index_scale),
              value-add p.shares (parked_shares network ps) i,
            ))
      | inr e ↦ rw e (
          omega (
            arith,
            total_value-le network asset i ps sum,
            value-add (held_in network p) (parked_shares network ps) i,
          ))
    ]

-- A balance that is read where the rows and the fund agree.
abbrev At : String → ℕ → ℕ → World → Type 0
At network s i w =
    Backed w × ((w.funds network).shares_of ≡ s) × ((w.funds network).current_index ≡ i)

At-Blind : (network : String) (s i : ℕ) → Blind (At network s i)
At-Blind network s i w y rs z p = cc (p.0.0)

module _ (d : Deployments) (network : String) (s i : ℕ) where
  parked_value-le :
      (ps : List Position)
      → ((i : ℕ) → total_value i ps 0 ≤ s * i / index_scale)
      → Ensures
          (At network s i)
          (parked_value d network ps)
          (λ x w. x ≤ s * i / index_scale)
          (λ w. Unit)
  unfolding current_index_of current_index
  parked_value-le [] h = pure-Ensures _ (λ w p. omega arith)
  parked_value-le (p ∷ ps) h =
      bind-Ensures {Q = λ a w. a ≡ i}
        (bind-Ensures {Q = λ a. At network s i}
          (relax (lift-Passes (At network s i) (At-Blind network s i) _) (λ a w p. p) (λ w p. tt))
          (λ fund. read-Ensures _ _ _ _ (At-Blind network s i) (λ w p. tt) (λ w p. p.2)))
        (λ a.
          pure-Ensures _
            (λ w e. subst (λ x. total_value x (p ∷ ps) 0 ≤ s * i / index_scale) (sym e) (h i)))

  parked_of-le :
      (asset : String) (fund : Option _)
      → Ensures
          (At network s i)
          (parked_of d network asset fund)
          (λ x w. x ≤ s * i / index_scale)
          (λ w. Unit)
  parked_of-le asset none = pure-Ensures _ (λ w p. omega arith)
  parked_of-le asset (some fund) =
      bind-Ensures
        {Q = λ (ps : List Position) w.
          At network s i w × ((i : ℕ) → total_value i ps 0 ≤ s * i / index_scale)}
        (read-Ensures _ _ _ _ (At-Blind network s i) (λ w p. tt)
          (λ w p. (
            p,
            λ j.
                let held : parked_shares network w.positions ≡ s = p.0.1 network ∙ p.1 in
                subst
                  (λ x.
                    total_value j (active_positions network asset w.positions) 0
                    ≤ x * j / index_scale)
                  held (omega (arith, total_value-le network asset j w.positions 0)),
          )))
        (λ ps. record { run = λ w q. (parked_value-le ps q.1).run w q.0 })

-- `parked_balance`, where it returns, is at most what the treasury's shares of the fund are worth,
-- while the shares of the active positions are the treasury's.
pub parked_balance-le :
    (d : Deployments) (network asset : String) (w : World) (x : ℕ)
    → Backed w
    → (parked_balance d network asset w).0 ≡ ok x
    → x ≤ value_of_shares (w.funds network).shares_of (w.funds network).current_index
unfolding parked_balance value_of_shares
parked_balance-le d network asset w x b e =
    returned-Holds _ _ (parked_balance d network asset w) x e (
      (parked_of-le d network (w.funds network).shares_of (w.funds network).current_index asset
          (mmf_address d network)).run
        w (b, refl, refl))
