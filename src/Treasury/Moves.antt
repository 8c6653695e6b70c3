-- ===== src/Treasury/Moves.antt =====
-- The three transactions of the fund, by the world that each leaves when it is mined.
use settlementos.Base.{
  ◌≡◌, refl, subst, sym, ℕ, ◌≤◌, ◌<◌, Bool, true, false, ◌||◌, ltb, if◌then◌else◌, [], Option, none,
  some, arith,
}
use mathlib.Core.Option
use settlementos.Base.Texts.{String}
use settlementos.Base.Programs.{Ensures}
use settlementos.Treasury.State.{World}
use settlementos.Treasury.Fund.{
  Ledger, subscribe, subscribe_reverts, minted, redeem, redeem_reverts, burned, accrue, uint256_max,
  asset_for,
}
use settlementos.Treasury.Calls.{
  mmf_operator_write, on_ledger, on_fund, ledger, keep, keep_fund, mined,
}
use settlementos.Treasury.Rules.{Blind, write-Ensures, write-works}

abbrev pub subscribed : String → String → ℕ → World → World
subscribed network asset amount w =
    mined w (some (keep network asset w (minted amount (ledger network asset w))))

abbrev pub redeemed : String → String → ℕ → World → World
redeemed network asset shares w =
    mined w (some (keep network asset w (burned shares (ledger network asset w))))

abbrev pub accrued : String → ℕ → World → World
accrued network index w =
    mined w (some (keep_fund network w (record (w.funds network) { current_index = index })))

guarded {ℓ} :
    {A : Type ℓ} (b : Bool) (a v : A)
    → (if b then none else some a) ≡ some v
    → (b ≡ false) × (a ≡ v)
guarded true a v h = cc
guarded false a v h = (refl, let e : a ≡ v = cc in e)

map-some {ℓ κ} :
    {A : Type ℓ} {B : Type κ} (f : A → B) (o : Option A) (v : B)
    → Option.map f o ≡ some v
    → (a : A) × (o ≡ some a) × (f a ≡ v)
map-some f none v h = cc
map-some f (some a) v h = (a, refl, let e : f a ≡ v = cc in e)

subscribe-some :
    (network asset : String) (k : ℕ) (w v : World)
    → on_ledger network asset (subscribe k) w ≡ some v
    → (subscribe_reverts k (ledger network asset w) ≡ false)
      × (keep network asset w (minted k (ledger network asset w)) ≡ v)
unfolding subscribe
subscribe-some network asset k w v h =
    let m = map-some (keep network asset w) (subscribe k (ledger network asset w)) v h in
    let g =
      guarded (subscribe_reverts k (ledger network asset w)) (minted k (ledger network asset w)) m.0
        m.1 in
    (g.0, subst (λ l. keep network asset w l ≡ v) (sym g.1) m.2)

redeem-some :
    (network asset : String) (k : ℕ) (w v : World)
    → on_ledger network asset (redeem k) w ≡ some v
    → (redeem_reverts k (ledger network asset w) ≡ false)
      × (keep network asset w (burned k (ledger network asset w)) ≡ v)
unfolding redeem
redeem-some network asset k w v h =
    let m = map-some (keep network asset w) (redeem k (ledger network asset w)) v h in
    let g =
      guarded (redeem_reverts k (ledger network asset w)) (burned k (ledger network asset w)) m.0
        m.1 in
    (g.0, subst (λ l. keep network asset w l ≡ v) (sym g.1) m.2)

accrue-some :
    (network : String) (k : ℕ) (w v : World)
    → on_fund network (accrue k) w ≡ some v
    → ((w.funds network).current_index ≤ k)
      × (keep_fund network w (record (w.funds network) { current_index = k }) ≡ v)
unfolding accrue
accrue-some network k w v h =
    let m = map-some (keep_fund network w) (accrue k (w.funds network)) v h in
    let g =
      guarded (ltb uint256_max k || ltb k (w.funds network).current_index)
        (record (w.funds network) { current_index = k }) m.0 m.1 in
    let guard = g.0 in (ground (arith, guard), subst (λ l. keep_fund network w l ≡ v) (sym g.1) m.2)

module _ (P : World → Type 0) (Q : ℕ → World → Type 0) (R : World → Type 0) (b : Blind P)
    (network asset : String) (k : ℕ) where
  pub subscribe-Ensures :
      ((w : World) → P w → R w)
      → ((w : World)
          → P w
          → subscribe_reverts k (ledger network asset w) ≡ false
          → R (subscribed network asset k w) × Q w.transactions (subscribed network asset k w))
      → Ensures P (mmf_operator_write (on_ledger network asset (subscribe k))) Q R
  subscribe-Ensures h l =
      write-Ensures P Q R _ b h
        (λ w v p e.
          let g = subscribe-some network asset k w v e in
          subst (λ x. R (mined w (some x))) g.1 (l w p g.0).0)
        (λ w v p e.
          let g = subscribe-some network asset k w v e in
          subst (λ x. Q w.transactions (mined w (some x))) g.1 (l w p g.0).1)

  pub redeem-Ensures :
      ((w : World) → P w → R w)
      → ((w : World)
          → P w
          → redeem_reverts k (ledger network asset w) ≡ false
          → R (redeemed network asset k w) × Q w.transactions (redeemed network asset k w))
      → Ensures P (mmf_operator_write (on_ledger network asset (redeem k))) Q R
  redeem-Ensures h l =
      write-Ensures P Q R _ b h
        (λ w v p e.
          let g = redeem-some network asset k w v e in
          subst (λ x. R (mined w (some x))) g.1 (l w p g.0).0)
        (λ w v p e.
          let g = redeem-some network asset k w v e in
          subst (λ x. Q w.transactions (mined w (some x))) g.1 (l w p g.0).1)

-- The same where no reply is left.
module _ (P : World → Type 0) (Q : ℕ → World → Type 0) (R : World → Type 0)
    (n : (w : World) → P w → w.replies ≡ []) (network asset : String) (k : ℕ) where
  pub subscribe-works :
      ((w : World) → P w → R w)
      → ((w : World)
          → P w
          → subscribe_reverts k (ledger network asset w) ≡ false
          → Q w.transactions (subscribed network asset k w))
      → Ensures P (mmf_operator_write (on_ledger network asset (subscribe k))) Q R
  subscribe-works h l = write-works P Q R _ n h (λ w v p e.
      let g = subscribe-some network asset k w v e in
      subst (λ x. Q w.transactions (mined w (some x))) g.1 (l w p g.0))

  pub redeem-works :
      ((w : World) → P w → R w)
      → ((w : World)
          → P w
          → redeem_reverts k (ledger network asset w) ≡ false
          → Q w.transactions (redeemed network asset k w))
      → Ensures P (mmf_operator_write (on_ledger network asset (redeem k))) Q R
  redeem-works h l = write-works P Q R _ n h (λ w v p e.
      let g = redeem-some network asset k w v e in
      subst (λ x. Q w.transactions (mined w (some x))) g.1 (l w p g.0))

module _ (P : World → Type 0) (Q : ℕ → World → Type 0) (R : World → Type 0) (b : Blind P)
    (network : String) (k : ℕ) where
  pub accrue-Ensures :
      ((w : World) → P w → R w)
      → ((w : World)
          → P w
          → (w.funds network).current_index ≤ k
          → R (accrued network k w) × Q w.transactions (accrued network k w))
      → Ensures P (mmf_operator_write (on_fund network (accrue k))) Q R
  accrue-Ensures h l =
      write-Ensures P Q R _ b h
        (λ w v p e.
          let g = accrue-some network k w v e in
          subst (λ x. R (mined w (some x))) g.1 (l w p g.0).0)
        (λ w v p e.
          let g = accrue-some network k w v e in
          subst (λ x. Q w.transactions (mined w (some x))) g.1 (l w p g.0).1)

-- What a transaction that was mined says of the world before it.
pub subscribe_guard :
    (k : ℕ) (l : Ledger)
    → subscribe_reverts k l ≡ false
    → (k ≤ l.balance) × (0 < l.fund.current_index)
unfolding subscribe_reverts
subscribe_guard k l h = (ground arith, ground arith)

pub redeem_guard :
    (k : ℕ) (l : Ledger)
    → redeem_reverts k l ≡ false
    → (0 < k)
      × (k ≤ l.fund.shares_of)
      × (k ≤ l.fund.total_shares)
      × (asset_for k l.fund ≤ l.fund.held)
unfolding redeem_reverts
redeem_guard k l h = (ground arith, ground arith, ground arith, ground arith)
