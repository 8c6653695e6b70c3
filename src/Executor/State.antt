-- ===== src/Executor/State.antt =====
-- What the executor reads and writes: one payment's rows, the executor's variable, and what the
-- chains hold of it.
use settlementos.Base.{ℕ, Bool, List, Option}
use settlementos.Base.Texts.{String}
use settlementos.Lifecycle.{PaymentStatus}

-- The columns of RouteOption that the executor reads.
pub record RouteOption : Type 0 where
  pub route_id : String
  pub source_network : String
  pub destination_network : String
  pub estimated_fx_rate : String
  pub estimated_destination_amount : String

-- model Payment, with its parsed quote. The hash of a transaction is its number on its chain.
pub record Payment : Type 0 where
  pub status : PaymentStatus
  pub quote : Option (List RouteOption)
  pub selected_route_id : Option String
  pub source_network : String
  pub destination_network : String
  pub tx_hash : Option ℕ
  pub settle_tx_hash : Option ℕ
  pub fx_rate : Option String
  pub destination_amount : Option String
  pub destination_tx_hash : Option ℕ
  pub compensation_tx_hash : Option ℕ
  pub failure_reason : Option String
  pub execution_lease_id : Option ℕ

-- OnchainPaymentState, by the names of the contract's states.
pub data EscrowState : Type 0 where
  absent initiated released returned : EscrowState

-- What the chains hold of the payment: the escrow, the payouts to the recipient and the make-goods
-- to the sender, newest first, each with whether its transaction succeeds. `orphaned` says that a
-- payout was sent whose hash never came back; no code reads it. `allowed` is whether the sender's
-- allowance covers the amount.
pub record Chain : Type 0 where
  pub escrow : EscrowState
  pub payouts : List Bool
  pub makegoods : List Bool
  pub orphaned : Bool
  pub allowed : Bool
  pub writes : ℕ

pub data Reservation : Type 0 where
  reserved consumed freed : Reservation

-- An audit event: a change of status, or another one by its action.
pub data Event : Type 0 where
  status_change : PaymentStatus → PaymentStatus → Event
  note : String → Event

-- The row, the executor's variable `payment` or `compensating`, the chains, the rows that hang on
-- the payment, and the liquidity of its destination.
pub record State : Type 0 where
  pub row : Payment
  pub local : Payment
  pub chain : Chain
  pub credit : Option String
  pub reservation : Option Reservation
  pub log : List Event
  pub available : ℕ
  pub parked : ℕ
  pub next_lease : ℕ

pub data Error : Type 0 where
  call_failed no_quote no_route no_wallet not_approved : Error
  execution_lease stale_transition invalid_transition : Error
  insufficient_liquidity insufficient_free_balance recall_failed : Error
  conflict : String → Error

-- How a call of the database or of a chain ends: it works; its effect happens and the reply is
-- lost; nothing happens; or the transaction is sent and reverts.
pub data Reply : Type 0 where
  works lost fails reverts : Reply

-- TransactionOutcome. `absent` has no source in the code but the test hooks.
pub data TransactionOutcome : Type 0 where
  confirmed reverted unknown : TransactionOutcome

-- What the executor learns from deployments and wallets, and from lib/treasury: an amount in base
-- units, who has a wallet, and what redeeming leaves free and parked.
pub record Setting : Type 0 where
  pub base_units : String → ℕ
  pub has_sender_wallet : Bool
  pub has_recipient_wallet : Bool
  pub recall : ℕ → ℕ → ℕ × ℕ
