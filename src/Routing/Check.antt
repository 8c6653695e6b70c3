-- ===== src/Routing/Check.antt =====
-- The verdict of the liquidity check where every call works.
use settlementos.Base.{
  ℕ, ◌+◌, ◌≡◌, refl, Result-cases, true, false, ◌&&◌, inl, inr, Bool-cases, List, [], ◌∷◌, ltb, leb,
  Option, none, some, Result, ok, err, arith,
}
use settlementos.Base.Texts.{String}
use settlementos.Base.Programs.{continue, recovered, pure, throw, bind, lift, with_error, try_catch}
use settlementos.Decimal.{Text}
use settlementos.Money.{MoneyError, text, parse_scaled_units}
use settlementos.Treasury.State.{
  World, Deployments, Network, Token, Error, treasury_error, invalid_amount, Position, Reservation,
  active_positions, reserved_rows,
}
use settlementos.Treasury.Calls.{
  mmf_address, call, network_contracts, token_on, token_balance, current_index,
}
use settlementos.Treasury.Balance.{
  TreasuryBalance, free_of, sum_reserved, total_value, free_treasury_balance, parked_balance,
  current_index_of, fund_for, parked_of, parked_value, parse_asset_units,
}
use settlementos.Routing.Quote.{
  RouteError, from_money, from_treasury, LiquidityCheck, verdict, liquidity_check, measure,
  available_liquidity, destination_units, token_of, check_free, with_parked,
  offer_unless_unreadable,
}

-- A world where no call fails.
abbrev pub idle : World → World
idle w = record w { replies = [] }

-- What is parked on a network in an asset, at the index of the fund.
abbrev pub parked_in : Deployments → String → String → World → ℕ
parked_in d network asset w = elim (mmf_address d network) [
  | none ↦ 0
  | some fund ↦
      total_value (w.funds network).current_index (active_positions network asset w.positions) 0
]

-- A payment can be funded if and only if the free balance and what is parked cover it, and it needs
-- a recall if and only if it can be funded and the free balance falls short.
abbrev pub funding : ℕ → ℕ → ℕ → LiquidityCheck
funding free parked needed =
    verdict (leb needed (free + parked)) (ltb free needed && leb needed (free + parked))

-- The verdict by the sum of the reserved amounts and the amount that is needed.
abbrev pub judged :
    Result Error ℕ → Result MoneyError ℕ → (balance parked : ℕ) → Result RouteError LiquidityCheck
judged (err e) _ balance parked = err (from_treasury e)
judged (ok reserved) (err e) balance parked = err (from_money e)
judged (ok reserved) (ok needed) balance parked =
    ok (funding (free_of balance reserved) parked needed)

token_of_known :
    (d : Deployments) (asset network : String) (n : Network) (t : Token)
    → d network ≡ some n
    → n.tokens asset ≡ some t
    → token_of d asset network ≡ ok t
unfolding token_of
token_of_known d asset network n t e e' = rw (token_of, e, e') refl

abbrev balance_of : Result Error ℕ → ℕ → Result Error TreasuryBalance
balance_of (err e) balance = err e
balance_of (ok reserved) balance =
    ok (record { balance = balance; reserved = reserved; free = free_of balance reserved })

balance_then :
    (r : Result Error ℕ) (balance : ℕ) (w : World)
    → continue (lift r w) (λ reserved.
      pure (record { balance = balance; reserved = reserved; free = free_of balance reserved }))
      ≡ (balance_of r balance, w)
unfolding pure throw
balance_then (ok r) balance w = refl
balance_then (err e) balance w = refl

free_idle :
    (d : Deployments) (asset network : String) (w : World) (n : Network) (t : Token)
    → d network ≡ some n
    → n.tokens asset ≡ some t
    → free_treasury_balance d network asset (idle w) ≡ (
      balance_of
          (sum_reserved t.decimals (reserved_rows network asset w.reservations) 0)
          (w.balances network asset),
      idle w,
    )
unfolding bind pure call token_balance free_treasury_balance sum_reserved network_contracts
    reserved_rows token_on
free_idle d asset network w n t e e' =
    rw (free_treasury_balance, network_contracts, e, token_on, e')
      (balance_then (sum_reserved t.decimals (reserved_rows network asset w.reservations) 0)
        (w.balances network asset) (idle w))

index_idle :
    (d : Deployments) (network : String) (w : World) (f : Text)
    → mmf_address d network ≡ some f
    → current_index_of d network (idle w) ≡ (ok (w.funds network).current_index, idle w)
unfolding bind pure call current_index_of fund_for current_index
index_idle d network w f e = rw (current_index_of, fund_for, e) refl

total_idle :
    (d : Deployments) (network : String) (w : World) (ps : List Position) (f : Text)
    → mmf_address d network ≡ some f
    → parked_value d network ps (idle w)
      ≡ (ok (total_value (w.funds network).current_index ps 0), idle w)
unfolding bind pure total_value
total_idle d network w [] f e = refl
total_idle d network w (p ∷ ps) f e = rw (parked_value, bind, index_idle d network w f e) refl

parked_of-idle :
    (d : Deployments) (asset network : String) (w : World) (o : Option Text)
    → mmf_address d network ≡ o
    → parked_of d network asset o (idle w) ≡ (ok (parked_in d network asset w), idle w)
unfolding bind pure call active_positions
parked_of-idle d asset network w none e = rw (parked_in, e) refl
parked_of-idle d asset network w (some f) e =
    rw (parked_in, e) (total_idle d network w (active_positions network asset w.positions) f e)

parked_idle :
    (d : Deployments) (asset network : String) (w : World)
    → parked_balance d network asset (idle w) ≡ (ok (parked_in d network asset w), idle w)
unfolding parked_balance
parked_idle d asset network w = parked_of-idle d asset network w (mmf_address d network) refl

-- A sum of reserved amounts fails only by an amount that cannot be read.
sum_reserved-err :
    (decimals : ℕ) (rows : List Reservation) (sum : ℕ) (e : Error)
    → sum_reserved decimals rows sum ≡ err e
    → e ≡ treasury_error invalid_amount
unfolding sum_reserved parse_asset_units
sum_reserved-err decimals [] sum e h = cc
sum_reserved-err decimals (r ∷ rs) sum e h =
    elim (Result-cases (parse_scaled_units (text r.amount) decimals)) [
      | inl (u, k) ↦
          sum_reserved-err decimals rs (sum + u) e (rw (sum_reserved, parse_asset_units, k) at h)
      | inr (x, k) ↦
          let e' : err (treasury_error invalid_amount) ≡ err e =
            rw (sum_reserved, parse_asset_units, k) at h in
          cc
    ]

funding_free : (f p u : ℕ) → leb u f ≡ true → funding f p u ≡ verdict true false
funding_free f p u e =
    let covers : leb u (f + p) ≡ true = ground arith in
    let enough : ltb f u ≡ false = ground arith in rw (covers, enough) refl

funding_short : (f p u : ℕ) → leb u f ≡ false → funding f p u ≡ with_parked f u p
funding_short f p u e =
    let short : ltb f u ≡ true = ground arith in
    rw short (elim (Bool-cases (leb u (f + p))) [ inl k ↦ rw k refl | inr k ↦ rw k refl ])

module _ (d : Deployments) (asset network : String) (needed : Text) (w : World) (n : Network)
    (t : Token) (known : d network ≡ some n) (known' : n.tokens asset ≡ some t) where
  covered :
      (r u : ℕ)
      → recovered
          (check_free d asset network (free_of (w.balances network asset) r) u (idle w))
          offer_unless_unreadable
        ≡ (
          ok (funding (free_of (w.balances network asset) r) (parked_in d network asset w) u),
          idle w,
        )
  unfolding bind pure with_error
  covered r u =
      let f : ℕ = free_of (w.balances network asset) r in
      let p : ℕ = parked_in d network asset w in
      elim (Bool-cases (leb u f)) [
        | inl e ↦ rw (e, funding_free f p u e) refl
        | inr e ↦ rw (e, parked_idle d asset network w, funding_short f p u e) refl
      ]

  judge :
      (sum : Result Error ℕ) (units : Result MoneyError ℕ)
      → sum_reserved t.decimals (reserved_rows network asset w.reservations) 0 ≡ sum
      → parse_scaled_units (text needed) t.decimals ≡ units
      → liquidity_check d true asset network needed (idle w)
        ≡ (judged sum units (w.balances network asset) (parked_in d network asset w), idle w)
  unfolding liquidity_check measure available_liquidity bind pure throw with_error try_catch
      destination_units
  judge (err x) units e e' =
      rw
        (
          token_of_known d asset network n t known known',
          free_idle d asset network w n t known known',
          e,
          sum_reserved-err t.decimals _ 0 x e,
        )
        refl
  judge (ok r) (err x) e e' =
      rw
        (
          token_of_known d asset network n t known known',
          free_idle d asset network w n t known known',
          e,
          destination_units,
          e',
        )
        refl
  judge (ok r) (ok u) e e' =
      rw
        (
          token_of_known d asset network n t known known',
          free_idle d asset network w n t known known',
          e,
          destination_units,
          e',
        )
        (covered r u)

-- Where every call works, and the network and the token are deployed, the liquidity check throws if
-- a reserved amount, or the amount that is needed, cannot be read. Otherwise a payment can be
-- funded if and only if the free balance and what is parked cover it, and it needs a recall if and
-- only if besides the free balance alone falls short; nothing is changed.
pub liquidity_check_lem :
    (d : Deployments) (asset network : String) (needed : Text) (w : World) (n : Network) (t : Token)
    → d network ≡ some n
    → n.tokens asset ≡ some t
    → liquidity_check d true asset network needed (idle w) ≡ (
      judged
          (sum_reserved t.decimals (reserved_rows network asset w.reservations) 0)
          (parse_scaled_units (text needed) t.decimals)
          (w.balances network asset)
          (parked_in d network asset w),
      idle w,
    )
liquidity_check_lem d asset network needed w n t known known' =
    judge d asset network needed w n t known known' _ _ refl refl
