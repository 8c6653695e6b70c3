-- ===== src/Treasury/State.antt =====
-- What the treasury module reads and writes: the deployments, the funds and the tokens on the
-- chains, and the rows of the database.
use settlementos.Base.{ℕ, Bool, false, ◌&&◌, List, [], ◌∷◌, ◌==◌, if◌then◌else◌, Option, none, some}
use settlementos.Base.Texts.{String, str_eq}
use settlementos.Decimal.{Text}

-- TreasuryErrorCode.
pub data TreasuryError : Type 0 where
  no_fund unsupported_asset invalid_amount invalid_rate insufficient_free_balance : TreasuryError
  not_eligible position_not_found position_not_active : TreasuryError

-- Any error that the module's functions throw: their own, the one of `networkContracts`, and the
-- failure of an awaited call, which a revert of the contract is too.
pub data Error : Type 0 where
  treasury_error : TreasuryError → Error
  unknown_network call_failed : Error

-- A token of the deployment file.
pub record Token : Type 0 where
  pub address : Text
  pub decimals : ℕ

-- A network of the deployment file, with what `asset()` of its fund says, which never changes.
pub record Network : Type 0 where
  pub fund : Option Text
  pub tokens : String → Option Token
  pub backing : Text

abbrev pub Deployments : Type 0
Deployments = String → Option Network

-- The state of TokenizedMMF, with the shares of the treasury and the balance of the fund.
pub record Fund : Type 0 where
  pub current_index : ℕ
  pub total_shares : ℕ
  pub shares_of : ℕ
  pub held : ℕ

-- model LiquidityReservation, the columns read here.
pub record Reservation : Type 0 where
  pub asset : String
  pub network : String
  pub amount : Text
  pub is_reserved : Bool

-- model Entity, the columns read here.
pub record Entity : Type 0 where
  pub id : String
  pub external_id : String
  pub mmf_eligible : Bool
  pub mmf_opt_in : Bool

-- model TreasuryPosition. A row's id is its number, and the hash of a transaction likewise; the
-- numerals of the columns are numbers.
pub record Position : Type 0 where
  pub id : ℕ
  pub network : String
  pub asset : String
  pub shares : ℕ
  pub asset_amount_in : ℕ
  pub index_at_entry : ℕ
  pub is_active : Bool
  pub tx_hash_park : ℕ
  pub tx_hash_recall : Option ℕ

-- The module's audit events.
pub data Event : Type 0 where
  treasury_parked : (id amount shares : ℕ) → Event
  treasury_recalled : (id shares amount : ℕ) → Event
  treasury_accrued : String → (old_index new_index : ℕ) → Event
  treasury_auto_recalled : (payment_id : String) → (positions : List ℕ) → Event

-- How an awaited call ends: it works, it takes effect and its answer is lost, or it does nothing.
pub data Reply : Type 0 where
  works lost fails : Reply

-- The chains and the database. A balance and an allowance are the treasury's, by network and asset;
-- the allowance is the one for the network's fund. Rows stand in the order of their creation. Calls
-- past the end of the replies work.
pub record World : Type 0 where
  pub funds : String → Fund
  pub balances : String → String → ℕ
  pub allowances : String → String → ℕ
  pub transactions : ℕ
  pub reservations : List Reservation
  pub entities : List Entity
  pub positions : List Position
  pub log : List Event
  pub replies : List Reply

-- A map with one entry set.
abbrev pub put {ℓ} : {A : Type ℓ} → String → A → (String → A) → String → A
put key value f k = if str_eq k key then value else f k

abbrev pub put_in {ℓ} :
    {A : Type ℓ} → String → String → A → (String → String → A) → String → String → A
put_in key inner value f k j = if str_eq k key && str_eq j inner then value else f k j

-- `where: { network, asset, status: "ACTIVE" }`.
unfoldable pub active_positions : String → String → List Position → List Position
active_positions network asset [] = []
active_positions network asset (p ∷ ps) =
    let rest = active_positions network asset ps in
    if p.is_active && str_eq p.network network && str_eq p.asset asset then p ∷ rest else rest

-- `findUnique({ where: { id } })`.
unfoldable pub find_position : ℕ → List Position → Option Position
find_position id [] = none
find_position id (p ∷ ps) = if p.id == id then some p else find_position id ps

-- The update of `recall`.
unfoldable pub mark_recalled : ℕ → ℕ → List Position → List Position
mark_recalled id hash [] = []
mark_recalled id hash (p ∷ ps) =
    if p.id == id
    then record p { is_active = false; tx_hash_recall = some hash } ∷ ps
    else p ∷ mark_recalled id hash ps

-- `where: { asset, network, status: "RESERVED" }`.
unfoldable pub reserved_rows : String → String → List Reservation → List Reservation
reserved_rows network asset [] = []
reserved_rows network asset (r ∷ rs) =
    let rest = reserved_rows network asset rs in
    if r.is_reserved && str_eq r.network network && str_eq r.asset asset then r ∷ rest else rest
