-- ===== src/Networks/Registry.antt =====
-- lib/networks.ts and lib/assets.ts.
use settlementos.Base.{
  ℕ, ◌+◌, Bool, true, false, ◌||◌, List, [], ◌∷◌, ◌++◌, ◌==◌, ltb, if◌then◌else◌, Option, none,
  some,
}
use settlementos.Base.Texts.{String, str_eq}
use settlementos.Decimal.{Text, to_text, pad_start, drop_last, take_last}

-- NetworkInfo, without the addresses of its endpoints.
pub record NetworkInfo : Type 0 where
  pub id : String
  pub label : String
  pub chain_id : ℕ
  pub explorer_url : Option String
  pub live : Bool

abbrev pub networks : List NetworkInfo
networks =
    record {
      id = "base-local";
      label = "Base (local)";
      chain_id = 31_337;
      explorer_url = none;
      live = false;
    }
    ∷ record {
      id = "polygon-local";
      label = "Polygon Amoy (local)";
      chain_id = 31_338;
      explorer_url = none;
      live = false;
    }
    ∷ record {
      id = "base-sepolia";
      label = "Base Sepolia";
      chain_id = 84_532;
      explorer_url = some "https://sepolia.basescan.org";
      live = true;
    }
    ∷ record {
      id = "polygon-amoy";
      label = "Polygon Amoy";
      chain_id = 80_002;
      explorer_url = some "https://amoy.polygonscan.com";
      live = true;
    }
    ∷ record {
      id = "fortel2-sepolia";
      label = "ForteL2 Sepolia";
      chain_id = 852;
      explorer_url = none;
      live = true;
    }
    ∷ record {
      id = "fortel2-local";
      label = "ForteL2 (local)";
      chain_id = 901;
      explorer_url = none;
      live = false;
    }
    ∷ []

unfoldable pub find_network : String → List NetworkInfo → Option NetworkInfo
find_network id [] = none
find_network id (n ∷ ns) = if str_eq n.id id then some n else find_network id ns

-- `networkInfo`, where `none` is the error that it throws.
unfoldable pub network_info : String → Option NetworkInfo
network_info id = find_network id networks

-- FORTEL2_SEPOLIA_REGENESIS_AT, in milliseconds.
abbrev pub regenesis_ms : ℕ
regenesis_ms = 1_787_433_288_000

-- A time is in milliseconds, or missing or unreadable.
unfoldable pub is_superseded_by_regenesis : String → Option ℕ → Bool
is_superseded_by_regenesis network none = false
is_superseded_by_regenesis network (some at) =
    if str_eq network "fortel2-sepolia" then ltb at regenesis_ms else false

-- The columns of a payment that are read here.
pub record Legs : Type 0 where
  pub source_network : String
  pub destination_network : Option String
  pub created_at : Option ℕ

unfoldable pub is_source_superseded_by_regenesis : Legs → Bool
is_source_superseded_by_regenesis p = is_superseded_by_regenesis p.source_network p.created_at

unfoldable pub is_payment_superseded_by_regenesis : Legs → Bool
is_payment_superseded_by_regenesis p =
    is_source_superseded_by_regenesis p || (elim p.destination_network [
      | none ↦ false
      | some n ↦ is_superseded_by_regenesis n p.created_at
    ])

-- A row of ASSETS.
pub record AssetInfo : Type 0 where
  pub symbol : String
  pub currency : String
  pub decimals : ℕ

-- `assetForCurrency`, where `none` is the error that it throws.
unfoldable pub asset_for_currency : String → Option AssetInfo
asset_for_currency currency =
    if str_eq currency "USD"
    then some (record { symbol = "mockUSDC"; currency = "USD"; decimals = 6 })
    else if str_eq currency "JPY"
    then some (record { symbol = "mockJPY"; currency = "JPY"; decimals = 0 })
    else if str_eq currency "SGD"
    then some (record { symbol = "mockSGD"; currency = "SGD"; decimals = 6 })
    else none

-- `replace(/0+$/, "")`.
abbrev pub zero_end : ℕ → Text → Text
zero_end c [] = if c == b'0' then [] else c ∷ []
zero_end c (d ∷ s) = c ∷ d ∷ s

unfoldable pub strip_zeros : Text → Text
strip_zeros [] = []
strip_zeros (c ∷ s) = zero_end c (strip_zeros s)

abbrev pub with_fraction : Text → Text → Text
with_fraction whole [] = whole
with_fraction whole (c ∷ s) = whole ++ b'.' ∷ c ∷ s

unfoldable pub from_base_units : ℕ → ℕ → Text
from_base_units amount decimals =
    let digits = pad_start (decimals + 1) b'0' (to_text amount) in
    if decimals == 0
    then to_text amount
    else with_fraction (drop_last decimals digits) (strip_zeros (take_last decimals digits))
