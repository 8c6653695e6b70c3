-- ===== src/Treasury/Fund.antt =====
-- contracts/TokenizedMMF.sol, by what each function requires and leaves: `none` is a revert. The
-- arithmetic is checked, as Solidity's is, so a number that does not fit 256 bits reverts. The
-- operator calls, and the account is the treasury.
use settlementos.Base.{
  ℕ, ◌+◌, ◌-◌, ◌*◌, ◌/◌, ◌^◌, Bool, ◌||◌, ltb, ◌==◌, if◌then◌else◌, Option, none, some,
}
use settlementos.Treasury.State.{Fund}

abbrev pub index_scale : ℕ
index_scale = 10 ^ 18

unfoldable pub uint256_max : ℕ
uint256_max = 2 ^ 256 - 1

-- What one call of the treasury changes: the fund, and the treasury's balance and allowance.
pub record Ledger : Type 0 where
  pub fund : Fund
  pub balance : ℕ
  pub allowance : ℕ

-- An allowance of the largest number is never used up.
abbrev pub spend : ℕ → ℕ → ℕ
spend amount allowance = if allowance == uint256_max then allowance else allowance - amount

abbrev pub shares_for : ℕ → Fund → ℕ
shares_for amount f = amount * index_scale / f.current_index

abbrev pub minted : ℕ → Ledger → Ledger
minted amount l = record {
  fund = record l.fund {
    shares_of = l.fund.shares_of + shares_for amount l.fund;
    total_shares = l.fund.total_shares + shares_for amount l.fund;
    held = l.fund.held + amount;
  };
  balance = l.balance - amount;
  allowance = spend amount l.allowance;
}

-- The amount and the shares are positive, the numbers fit, and `transferFrom` can pay.
unfoldable pub subscribe_reverts : ℕ → Ledger → Bool
subscribe_reverts amount l =
    amount == 0
    || ltb uint256_max (amount * index_scale)
    || l.fund.current_index == 0
    || shares_for amount l.fund == 0
    || ltb uint256_max (l.fund.shares_of + shares_for amount l.fund)
    || ltb uint256_max (l.fund.total_shares + shares_for amount l.fund)
    || ltb l.allowance amount
    || ltb l.balance amount

unfoldable pub subscribe : ℕ → Ledger → Option Ledger
subscribe amount l = if subscribe_reverts amount l then none else some (minted amount l)

abbrev pub asset_for : ℕ → Fund → ℕ
asset_for shares f = shares * f.current_index / index_scale

abbrev pub burned : ℕ → Ledger → Ledger
burned shares l = record l {
  fund = record l.fund {
    shares_of = l.fund.shares_of - shares;
    total_shares = l.fund.total_shares - shares;
    held = l.fund.held - asset_for shares l.fund;
  };
  balance = l.balance + asset_for shares l.fund;
}

unfoldable pub redeem_reverts : ℕ → Ledger → Bool
redeem_reverts shares l =
    shares == 0
    || ltb l.fund.shares_of shares
    || ltb uint256_max (shares * l.fund.current_index)
    || ltb l.fund.total_shares shares
    || ltb l.fund.held (asset_for shares l.fund)

unfoldable pub redeem : ℕ → Ledger → Option Ledger
redeem shares l = if redeem_reverts shares l then none else some (burned shares l)

-- The index never moves down, and fits its type.
unfoldable pub accrue : ℕ → Fund → Option Fund
accrue new_index f =
    if ltb uint256_max new_index || ltb new_index f.current_index
    then none
    else some (record f { current_index = new_index })
