-- ===== src/Treasury/Worlds.antt =====
-- A small world for the tests: one network, its fund, and two positions.
use settlementos.Base.{ℕ, true, false, [], ◌∷◌, Option, none, some, if◌then◌else◌}
use settlementos.Base.Texts.{String, codes, str_eq}
use settlementos.Treasury.State.{World, Deployments, Network, Token, Fund, Position, put}
use settlementos.Treasury.Park.{ParkArgs}
use settlementos.Treasury.Recall.{RecallResult, RecallForPaymentArgs}

abbrev pub usdc : Token
usdc = record { address = b'0' ∷ b'a' ∷ []; decimals = 6 }

abbrev pub only_usdc : String → Option Token
only_usdc asset = if str_eq asset "mockUSDC" then some usdc else none

abbrev pub local_network : Network
local_network = record {
  fund = some (b'0' ∷ b'f' ∷ []);
  tokens = only_usdc;
  backing = b'0' ∷ b'A' ∷ [];
}

abbrev pub deployed : Deployments
deployed network = if str_eq network "base-local" then some local_network else none

abbrev pub holding : ℕ → ℕ → Position
holding id shares = record {
  id = id;
  network = "base-local";
  asset = "mockUSDC";
  shares = shares;
  asset_amount_in = shares;
  index_at_entry = 1_000_000_000_000_000_000;
  is_active = true;
  tx_hash_park = id;
  tx_hash_recall = none;
}

abbrev pub new_fund : Fund
new_fund = record {
  current_index = 1_000_000_000_000_000_000;
  total_shares = 0;
  shares_of = 0;
  held = 0;
}

abbrev pub grown_fund : Fund
grown_fund = record {
  current_index = 1_100_000_000_000_000_000;
  total_shares = 100_000_000;
  shares_of = 100_000_000;
  held = 200_000_000;
}

-- 100 in the treasury, 30 of them reserved, and positions of 40 and 60 that have grown by a tenth.
abbrev pub small_world : World
small_world = record {
  funds = put "base-local" grown_fund (λ n. new_fund);
  balances = λ n a. 100_000_000;
  allowances = λ n a. 0;
  transactions = 2;
  reservations =
      record {
        asset = "mockUSDC";
        network = "base-local";
        amount = codes "30.00";
        is_reserved = true;
      }
      ∷ [];
  entities =
      record { id = "e1"; external_id = "acme"; mmf_eligible = true; mmf_opt_in = false } ∷ [];
  positions = holding 0 40_000_000 ∷ holding 1 60_000_000 ∷ [];
  log = [];
  replies = [];
}

abbrev pub park_args : String → Option String → ParkArgs
park_args amount entity = record {
  network_id = "base-local";
  asset = "mockUSDC";
  amount = codes amount;
  entity_id = entity;
}

abbrev pub pay_args : String → RecallForPaymentArgs
pay_args amount = record {
  network_id = "base-local";
  asset = "mockUSDC";
  amount = codes amount;
  payment_id = "pay_1";
}

abbrev pub first_recall : RecallResult
first_recall = record {
  position_id = 0;
  shares = 40_000_000;
  asset_amount = 44_000_000;
  index_at_exit = 1_100_000_000_000_000_000;
  tx_hash = 2;
}

abbrev pub short_world : World
short_world = record small_world { balances = λ n a. 20_000_000 }
