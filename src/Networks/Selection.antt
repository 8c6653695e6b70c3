-- ===== src/Networks/Selection.antt =====
-- lib/wallets.ts and lib/network-selection.ts.
use settlementos.Base.{
  ℕ, ◌≡◌, refl, Bool, true, false, List, [], ◌∷◌, if◌then◌else◌, any, Option, none, some,
}
use settlementos.Base.Texts.{String, str_eq, eq_refl}
use settlementos.Decimal.{Text}

-- model Wallet, the columns read here. A score is at least 0.
pub record Wallet : Type 0 where
  pub address : Text
  pub network : String
  pub allowlisted : Bool
  pub risk_score : ℕ

unfoldable pub find_wallet : String → List Wallet → Option Wallet
find_wallet network [] = none
find_wallet network (w ∷ ws) = if str_eq w.network network then some w else find_wallet network ws

abbrev pub first_wallet : List Wallet → Option Wallet
first_wallet [] = none
first_wallet (w ∷ ws) = some w

unfoldable pub wallet_on_network : List Wallet → String → Option Wallet
wallet_on_network wallets network = elim (find_wallet network wallets) [
  | none ↦ first_wallet wallets
  | some w ↦ some w
]

pub record NetworkSelection : Type 0 where
  pub source : String
  pub destination : String

abbrev pub among : List String → String → Bool
among available id = any (λ a. str_eq a id) available

unfoldable pub reconcile_network_selection : NetworkSelection → List String → NetworkSelection
reconcile_network_selection current [] = current
reconcile_network_selection current (fallback ∷ rest) = record {
  source = if among (fallback ∷ rest) current.source then current.source else fallback;
  destination =
      if among (fallback ∷ rest) current.destination then current.destination else fallback;
}

either :
    (C : String → Type 0) (b : Bool) (x y : String)
    → (b ≡ true → C x)
    → C y
    → C (if b then x else y)
either C true x y h k = h refl
either C false x y h k = k

kept_or_first :
    (fallback : String) (rest : List String) (id : String)
    → among (fallback ∷ rest) (if among (fallback ∷ rest) id then id else fallback) ≡ true
kept_or_first fallback rest id =
    either (λ x. among (fallback ∷ rest) x ≡ true) (among (fallback ∷ rest) id) id fallback (λ e. e)
      (rw (eq_refl fallback) refl)

-- Where any network is available, both legs that come out are available, and a leg that was available
-- stays as it was.
pub selection_available :
    (current : NetworkSelection) (fallback : String) (rest : List String)
    → let chosen = reconcile_network_selection current (fallback ∷ rest) in
      (among (fallback ∷ rest) chosen.source ≡ true)
      × (among (fallback ∷ rest) chosen.destination ≡ true)
      × (among (fallback ∷ rest) current.source ≡ true → chosen.source ≡ current.source)
      × (among (fallback ∷ rest) current.destination ≡ true
          → chosen.destination ≡ current.destination)
unfolding reconcile_network_selection
selection_available current fallback rest = (
  kept_or_first fallback rest current.source,
  kept_or_first fallback rest current.destination,
  λ e. rw e refl,
  λ e. rw e refl,
)
