-- ===== src/Treasury/Calls.antt =====
-- The calls that the treasury module awaits: the reads and the writes of lib/chain.ts and of the
-- database.
use settlementos.Base.{
  ℕ, ◌+◌, Bool, true, false, List, [], ◌∷◌, ◌++◌, leb, length, Option, none, some, Result, ok, err,
}
use mathlib.Core.Option
use settlementos.Base.Texts.{String}
use settlementos.Decimal.{Text}
use settlementos.Base.Programs.{Program, pure, ◌>>=◌}
use settlementos.Treasury.State.{
  World, Deployments, Network, Token, Fund, Position, Event, Error, treasury_error, call_failed,
  unknown_network, unsupported_asset, TreasuryError, Reply, works, lost, fails, put, put_in,
}
use settlementos.Treasury.Fund.{Ledger, uint256_max}

abbrev pub M {ℓ} : Type ℓ → Type ℓ
M A = Program World Error A

abbrev pub fail_with {ℓ} : {A : Type ℓ} → TreasuryError → Result Error A
fail_with e = err (treasury_error e)

-- A call by its effect, and by what it returns or throws, which it reads from the world before.
abbrev pub answer {ℓ} :
    {A : Type ℓ}
    → Reply
    → (World → World)
    → (World → Result Error A)
    → World
    → Result Error A × World
answer works effect value w = (value w, effect w)
answer lost effect value w = (err call_failed, effect w)
answer fails effect value w = (err call_failed, w)

abbrev pub called {ℓ} :
    {A : Type ℓ}
    → List Reply
    → (World → World)
    → (World → Result Error A)
    → World
    → Result Error A × World
called [] effect value w = answer works effect value w
called (r ∷ rs) effect value w = answer r effect value (record w { replies = rs })

unfoldable pub call {ℓ} : {A : Type ℓ} → (World → World) → (World → Result Error A) → M A
call effect value w = called w.replies effect value w

abbrev pub read {ℓ} : {A : Type ℓ} → (World → A) → M A
read value = call (λ w. w) (λ w. ok (value w))

-- A database transaction, which takes effect whole.
abbrev pub commit : (World → World) → M (Unit {0})
commit effect = call effect (λ w. ok tt)

-- `mmfAddress`.
unfoldable pub mmf_address : Deployments → String → Option Text
mmf_address d network = elim (d network) [ none ↦ none | some n ↦ n.fund ]

-- `networkContracts`.
unfoldable pub network_contracts : Deployments → String → Result Error Network
network_contracts d network = elim (d network) [ none ↦ err unknown_network | some n ↦ ok n ]

unfoldable pub token_on : Network → String → Result Error Token
token_on n asset = elim (n.tokens asset) [ none ↦ fail_with unsupported_asset | some t ↦ ok t ]

-- `tokenBalance` of the treasury.
unfoldable pub token_balance : String → String → M ℕ
token_balance network asset = read (λ w. w.balances network asset)

unfoldable pub current_index : String → M ℕ
current_index network = read (λ w. (w.funds network).current_index)

-- `sharesOf(treasury)`.
unfoldable pub shares_of : String → M ℕ
shares_of network = read (λ w. (w.funds network).shares_of)

-- What a call of the contract sees of the world, and what it leaves there.
abbrev pub ledger : String → String → World → Ledger
ledger network asset w = record {
  fund = w.funds network;
  balance = w.balances network asset;
  allowance = w.allowances network asset;
}

abbrev pub keep : String → String → World → Ledger → World
keep network asset w l = record w {
  funds = put network l.fund w.funds;
  balances = put_in network asset l.balance w.balances;
  allowances = put_in network asset l.allowance w.allowances;
}

-- A function of the contract that moves the asset, and one that changes the fund alone.
abbrev pub on_ledger : String → String → (Ledger → Option Ledger) → World → Option World
on_ledger network asset function w =
    Option.map (keep network asset w) (function (ledger network asset w))

abbrev pub keep_fund : String → World → Fund → World
keep_fund network w f = record w { funds = put network f w.funds }

abbrev pub on_fund : String → (Fund → Option Fund) → World → Option World
on_fund network function w = Option.map (keep_fund network w) (function (w.funds network))

abbrev pub mined : World → Option World → World
mined w none = w
mined w (some v) = record v { transactions = w.transactions + 1 }

abbrev pub hash_of : World → Option World → Result Error ℕ
hash_of w none = err call_failed
hash_of w (some v) = ok w.transactions

-- `mmfOperatorWrite`: a function of the contract, sent by the operator and confirmed. A revert
-- throws.
unfoldable pub mmf_operator_write : (World → Option World) → M ℕ
mmf_operator_write function = call (λ w. mined w (function w)) (λ w. hash_of w (function w))

abbrev pub approve_max : String → String → World → World
approve_max network asset w = record w {
  allowances = put_in network asset uint256_max w.allowances;
  transactions = w.transactions + 1;
}

abbrev pub approve_unless : String → String → Bool → M (Unit {0})
approve_unless network asset true = pure tt
approve_unless network asset false = commit (approve_max network asset)

-- `ensureTreasuryAllowance`, for the fund of the network.
unfoldable pub ensure_treasury_allowance : String → String → ℕ → M (Unit {0})
ensure_treasury_allowance network asset amount = do
  allowed ← read (λ w. w.allowances network asset)
  approve_unless network asset (leb amount allowed)

-- A new row with its event, in one transaction; the row's id is returned.
unfoldable pub create_position : Position → (ℕ → Event) → M ℕ
create_position row event =
    call
      (λ w. record w {
        positions = w.positions ++ record row { id = length w.positions } ∷ [];
        log = w.log ++ event (length w.positions) ∷ [];
      })
      (λ w. ok (length w.positions))

abbrev pub audit : Event → M (Unit {0})
audit event = commit (λ w. record w { log = w.log ++ event ∷ [] })
