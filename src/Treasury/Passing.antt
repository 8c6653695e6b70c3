-- ===== src/Treasury/Passing.antt =====
-- The steps that only read: what they say of the world, which stays as it is but for the replies.
use settlementos.Base.{
  ◌≡◌, refl, ℕ, Bool, true, false, not, leb, List, [], ◌∷◌, Option, none, some, Result, ok, err,
  ◌>>=◌,
}
use settlementos.Base
use settlementos.Base.Texts.{String, str_eq}
use settlementos.Base.Programs.{
  Ensures, pure, throw_when, lift, bind-Ensures, pure-Ensures, lift-Ensures, throw_when-Ensures,
}
use settlementos.Treasury.State.{
  World, Deployments, Network, Token, Error, Reservation, Position, reserved_rows,
}
use settlementos.Treasury.Calls.{
  M, read, network_contracts, token_on, token_balance, current_index, mmf_address,
}
use settlementos.Treasury.Balance.{
  fund_asset_for, TreasuryBalance, free_treasury_balance, free_of, sum_reserved, current_index_of,
  parked_value, parked_of, parked_balance,
}
use settlementos.Treasury.Park.{check_entity, assert_eligible}
use settlementos.Treasury.Rules.{Blind, read-Ensures}

-- What `free_treasury_balance` counts as reserved.
abbrev pub reserved_of : Deployments → String → String → List Reservation → Result Error ℕ
reserved_of d network asset rows = network_contracts d network >>= λ n.
    token_on n asset >>= λ t. sum_reserved t.decimals (reserved_rows network asset rows) 0

pub record IsBalance (d : Deployments) (network asset : String) (b : TreasuryBalance) (w : World)
    : Type 0 where
  pub balance : b.balance ≡ w.balances network asset
  pub reserved : reserved_of d network asset w.reservations ≡ ok b.reserved
  pub free : b.free ≡ free_of b.balance b.reserved

module _ (P : World → Type 0) (b : Blind P) where
  abbrev pub Passes {ℓ} : {A : Type ℓ} → M A → Type 0
  Passes m = Ensures P m (λ a. P) P

  pub lift-Passes {ℓ} : {A : Type ℓ} (r : Result Error A) → Passes (lift r)
  lift-Passes r = lift-Ensures r (λ a w e p. p) (λ w p. p)

  pub read-Passes {ℓ} : {A : Type ℓ} (value : World → A) → Passes (read value)
  read-Passes value = read-Ensures P (λ a. P) P value b (λ w p. p) (λ w p. p)

  pub throw_when-Passes : (c : Bool) (e : Error) → Passes (throw_when c e)
  throw_when-Passes c e = throw_when-Ensures c e (λ w h p. p) (λ w p. p)

  pub pure-Passes {ℓ} : {A : Type ℓ} (a : A) → Passes (pure a)
  pure-Passes a = pure-Ensures a (λ w p. p)

  pub fund_asset_for-Passes :
      (d : Deployments) (network asset : String) → Passes (fund_asset_for d network asset)
  unfolding fund_asset_for
  fund_asset_for-Passes d network asset = bind-Ensures {Q = λ a. P} (lift-Passes _) (λ fund.
      bind-Ensures {Q = λ a. P} (throw_when-Passes _ _) (λ u.
        bind-Ensures {Q = λ a. P} (lift-Passes _) (λ contracts.
          bind-Ensures {Q = λ a. P} (lift-Passes _) (λ token.
            bind-Ensures {Q = λ a. P} (read-Passes _)
              (λ backed. bind-Ensures {Q = λ a. P} (throw_when-Passes _ _) (λ u. pure-Passes _))))))

  pub check_entity-Passes : (id : Option String) → Passes (check_entity id)
  unfolding assert_eligible
  check_entity-Passes none = pure-Passes tt
  check_entity-Passes (some id) = elim (Base.Bool-cases (str_eq id "")) [
    | Base.inl e ↦ rw e (pure-Passes tt)
    | Base.inr e ↦
        rw e (bind-Ensures {Q = λ a. P} (read-Passes _) (λ entity. throw_when-Passes _ _))
  ]

  pub current_index_of-Passes :
      (d : Deployments) (network : String) → Passes (current_index_of d network)
  unfolding current_index_of current_index
  current_index_of-Passes d network =
      bind-Ensures {Q = λ a. P} (lift-Passes _) (λ fund. read-Passes _)

  parked_value-Passes :
      (d : Deployments) (network : String) (ps : List Position) → Passes (parked_value d network ps)
  parked_value-Passes d network [] = pure-Passes _
  parked_value-Passes d network (p ∷ ps) =
      bind-Ensures {Q = λ a. P} (current_index_of-Passes d network) (λ index. pure-Passes _)

  parked_of-Passes :
      (d : Deployments) (network asset : String) (fund : Option _)
      → Passes (parked_of d network asset fund)
  parked_of-Passes d network asset none = pure-Passes _
  parked_of-Passes d network asset (some fund) =
      bind-Ensures {Q = λ a. P} (read-Passes _) (λ ps. parked_value-Passes d network ps)

  pub parked_balance-Passes :
      (d : Deployments) (network asset : String) → Passes (parked_balance d network asset)
  unfolding parked_balance
  parked_balance-Passes d network asset = parked_of-Passes d network asset (mmf_address d network)

  -- The free balance, with what it is made of.
  pub free_treasury_balance-Ensures :
      (d : Deployments) (network asset : String)
      → Ensures P
          (free_treasury_balance d network asset)
          (λ t w. P w × IsBalance d network asset t w)
          P
  unfolding free_treasury_balance token_balance
  free_treasury_balance-Ensures d network asset =
      bind-Ensures {Q = λ (n : Network) w. P w × (network_contracts d network ≡ ok n)}
        (lift-Ensures _ (λ n w e p. (p, e)) (λ w p. p))
        (λ n.
          bind-Ensures
            {Q = λ (t : Token) w.
              P w × (network_contracts d network ≡ ok n) × (token_on n asset ≡ ok t)}
            (lift-Ensures _ (λ t w e p. (p.0, p.1, e)) (λ w p. p.0))
            (λ t.
              bind-Ensures
                {Q = λ (x : ℕ) w.
                  P w
                  × (network_contracts d network ≡ ok n)
                  × (token_on n asset ≡ ok t)
                  × (x ≡ w.balances network asset)}
                (read-Ensures _ _ _ _ (λ w y rs z p. (b w y rs z p.0, p.1, p.2)) (λ w p. p.0)
                  (λ w p. (p.0, p.1, p.2, refl)))
                (λ x.
                  bind-Ensures
                    {Q = λ (rows : List Reservation) w.
                      P w
                      × (network_contracts d network ≡ ok n)
                      × (token_on n asset ≡ ok t)
                      × (x ≡ w.balances network asset)
                      × (rows ≡ reserved_rows network asset w.reservations)}
                    (read-Ensures _ _ _ _ (λ w y rs z p. (b w y rs z p.0, p.1, p.2, p.3))
                      (λ w p. p.0) (λ w p. (p.0, p.1, p.2, p.3, refl)))
                    (λ rows.
                      bind-Ensures
                        {Q = λ (r : ℕ) w.
                          P w
                          × (reserved_of d network asset w.reservations ≡ ok r)
                          × (x ≡ w.balances network asset)}
                        (lift-Ensures _ (λ r w e p. (p.0, rw (p.1, p.2, ← p.4) e, p.3))
                          (λ w p. p.0))
                        (λ r.
                          pure-Ensures _ (λ w p.
                            (p.0, record { balance = p.2; reserved = p.1; free = refl })))))))
