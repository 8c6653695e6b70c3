-- ===== src/Executor/Reserve.antt =====
-- The start of an execution: the route, the recall of parked funds, and the reservation.
use settlementos.Base.{
  ℕ, Bool, true, false, ◌&&◌, List, [], ◌∷◌, ltb, if◌then◌else◌, Option, none, some, Result, ok,
  err,
}
use settlementos.Base.Texts.{String, str_eq}
use settlementos.Lifecycle.{same, approved, liquidity_reserved, failed}
use settlementos.Executor.State.{
  RouteOption, Payment, State, reserved, freed, Error, call_failed, no_quote, no_route, no_wallet,
  not_approved, execution_lease, stale_transition, invalid_transition, insufficient_liquidity,
  insufficient_free_balance, recall_failed, conflict, Setting,
}
use settlementos.Executor.Calls.{
  M, pure, throw, call, read, payment, try_catch, quietly, ◌>>=◌, ◌>>◌,
}
use settlementos.Executor.Steps.{
  set_status, advance, update_columns, update_reservation, holds_lease,
}

-- The text of a thrown error, as `failureReason` stores it.
abbrev pub message : Error → String
message call_failed = "call failed"
message no_quote = "Payment has no quote"
message no_route = "No route available on quote"
message no_wallet = "Sender and recipient must have registered wallets"
message not_approved = "Payment must be APPROVED to execute"
message execution_lease = "payment is already being executed"
message stale_transition = "payment status changed while the request was in flight"
message invalid_transition = "Invalid payment state transition"
message insufficient_liquidity = "Insufficient liquidity"
message insufficient_free_balance = "INSUFFICIENT_FREE_BALANCE"
message recall_failed = "Auto-recall failed"
message (conflict m) = m

abbrev pub names_route : Option String → RouteOption → Bool
names_route none r = false
names_route (some id) r = str_eq r.route_id id

-- `routes.find(…)`.
unfoldable pub find_route : Option String → List RouteOption → Option RouteOption
find_route id [] = none
find_route id (r ∷ rs) = if names_route id r then some r else find_route id rs

abbrev pub found_or_first : Option RouteOption → List RouteOption → Result Error RouteOption
found_or_first (some r) routes = ok r
found_or_first none [] = err no_route
found_or_first none (r ∷ rs) = ok r

unfoldable pub selected_route : Payment → Result Error RouteOption
selected_route p = elim p.quote [
  | none ↦ err no_quote
  | some routes ↦ found_or_first (find_route p.selected_route_id routes) routes
]

abbrev pub lift {ℓ} : {A : Type ℓ} → Result Error A → M A
lift (ok a) = pure a
lift (err e) = throw e

-- The route decides the destination network.
abbrev pub adopt_network : String → M (Unit {0})
adopt_network network = do
  p ← payment
  if str_eq p.destination_network network
      then pure tt
      else update_columns (λ row. record row { destination_network = network })

-- `recallForPayment`: redeem parked funds, or throw that it stays short or that a redemption failed.
abbrev pub redeem : Setting → State → State
redeem x s = record s {
  available = (x.recall s.available s.parked).0;
  parked = (x.recall s.available s.parked).1;
}

unfoldable pub recall_for_payment : Setting → ℕ → M (Unit {0})
recall_for_payment x needed =
    call (redeem x)
      (λ s. if ltb (redeem x s).available needed then err insufficient_free_balance else ok tt)

abbrev pub recall_refused : Error → M (Unit {0})
recall_refused insufficient_free_balance = pure tt
recall_refused e = do
  quietly (update_reservation freed)
  _ ← set_status failed (λ p. record p { failure_reason = some (message recall_failed) })
  throw recall_failed

abbrev pub recall_if : Setting → ℕ → Bool → M (Unit {0})
recall_if x needed false = pure tt
recall_if x needed true = try_catch (recall_for_payment x needed) recall_refused

abbrev pub recall_if_short : Setting → ℕ → Bool → M (Unit {0})
recall_if_short x needed false = pure tt
recall_if_short x needed true = do parked ← read (λ s. s.parked); recall_if x needed (ltb 0 parked)

-- Step 0: redeem parked positions where the free balance is short.
unfoldable pub auto_recall : Setting → ℕ → M (Unit {0})
auto_recall x needed = do
  available ← read (λ s. s.available)
  recall_if_short x needed (ltb available needed)

-- The transaction that re-asserts the lease and upserts the reservation.
abbrev pub still_ours : ℕ → State → Bool
still_ours lease s = same s.row.status approved && holds_lease lease s.row.execution_lease_id

unfoldable pub reserve_rows : ℕ → M (Unit {0})
reserve_rows lease =
    call (λ s. if still_ours lease s then record s { reservation = some reserved } else s)
      (λ s. if still_ours lease s then ok tt else err execution_lease)

abbrev pub fail_short : Bool → M (Unit {0})
fail_short false = pure tt
fail_short true = do
  _ ← set_status failed (λ p. record p { failure_reason = some (message insufficient_liquidity) })
  throw insufficient_liquidity

-- Step 1: reserve the destination's liquidity.
unfoldable pub reserve_liquidity : ℕ → ℕ → M (Unit {0})
reserve_liquidity lease needed = do
  available ← read (λ s. s.available)
  fail_short (ltb available needed)
  reserve_rows lease
  advance liquidity_reserved (λ p. p)
