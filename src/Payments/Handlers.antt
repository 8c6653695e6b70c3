-- ===== src/Payments/Handlers.antt =====
-- app/api/payments/[id]: quote, execute, review and cancel. What the routing, the compliance checks and
-- the executor end with are arguments, and the wording of a refusal leaves out what it quotes.
use settlementos.Base.{
  Bool, true, false, ◌&&◌, not, List, [], ◌∷◌, map, if◌then◌else◌, Option, none, some, Result, ok,
  err,
}
use settlementos.Base.Texts.{String, str_eq}
use settlementos.Base.Programs.{pure, lift, try_catch, ◌>>=◌, ◌>>◌}
use settlementos.Money.{text, parse_amount}
use settlementos.Lifecycle.{
  PaymentStatus, quoted, compliance_pending, manual_review, approved, rejected, cancelled, same,
  includes, cancellable_states,
}
use settlementos.Access.Keys.{Principal}
use settlementos.Access.Guard.{
  ApiError, Thrown, unknown, api_error, error_response, from_thrown, authorize_payment_write,
  actor_of, not_found, conflict, invalid_request, internal, execution_failed,
}
use settlementos.Compliance.Providers.{Numbers}
use settlementos.Compliance.Checks
use settlementos.Compliance.Checks.{
  Entity, ComplianceOutcome, Overall, CheckRow, Screens, ScreenedPayment, run_compliance_checks,
}
use settlementos.Payments.Rows.{
  M, Row, Offer, Written, nothing, a_selection, a_quote, find_payment, after_others, status_at,
  landed, transition_status, find_or_throw,
}

pub data Answer : Type 0 where
  refused : ApiError → Answer
  moved_to settled_as : PaymentStatus → Answer
  screened_to : PaymentStatus → ComplianceOutcome → Answer
  offered : List Offer → Answer
  failed_at : Option PaymentStatus → ApiError → Answer

abbrev pub told : ApiError → M Answer
told e = pure (refused e)

abbrev pub said : String → ApiError
said message = api_error conflict (some message)

-- The row that a handler starts from, once the caller may write it.
abbrev pub permitted : Principal → (Row → M Answer) → Row → M Answer
permitted principal go r =
    elim (authorize_payment_write principal
      (record { sender_id = r.sender_id; recipient_id = r.recipient_id })) [
        | none ↦ go r
        | some denied ↦ told denied
      ]

abbrev pub when_found : (Row → M Answer) → Option Row → M Answer
when_found go none = told (error_response not_found)
when_found go (some r) = go r

-- A quoted route, with whether it is recommended.
pub record QuotedRoute : Type 0 where
  pub offer : Offer
  pub recommended : Bool

-- `routes.find((r) => r.recommended) ?? routes[0]`.
abbrev pub find_recommended : List QuotedRoute → Option Offer
find_recommended [] = none
find_recommended (r ∷ rs) = if r.recommended then some r.offer else find_recommended rs

abbrev pub first_offer : List QuotedRoute → Option Offer
first_offer [] = none
first_offer (r ∷ rs) = some r.offer

abbrev pub chosen_offer : List QuotedRoute → Result Thrown Offer
chosen_offer rs = elim (find_recommended rs) [
  | some o ↦ ok o
  | none ↦ elim (first_offer rs) [ some o ↦ ok o | none ↦ err (unknown "no routes") ]
]

abbrev pub offers_of : List QuotedRoute → List Offer
offers_of rs = map (λ (r : QuotedRoute). r.offer) rs

unfoldable pub quote_row : Result Thrown (List QuotedRoute) → Principal → Row → M Answer
quote_row routing principal r =
    try_catch
      (do
        routes ← lift routing
        o ← lift (chosen_offer routes)
        moved ←
            transition_status r quoted (some "payment.quoted") (actor_of principal)
              (a_quote (offers_of routes) o)
        pure (offered (offers_of routes)))
      (λ e. told (from_thrown e conflict))

unfoldable pub run_quote : Result Thrown (List QuotedRoute) → Principal → M Answer
run_quote routing principal = do
  found ← find_payment
  when_found (permitted principal (quote_row routing principal)) found

unfoldable pub cancel_row : Principal → Row → M Answer
cancel_row principal r =
    if not (includes cancellable_states r.status)
    then told (said "payment cannot be cancelled")
    else try_catch
        (do
          updated ← transition_status r cancelled none (actor_of principal) nothing
          pure (moved_to updated.status))
        (λ e. told (from_thrown e internal))

unfoldable pub run_cancel : Principal → M Answer
run_cancel principal = do
  found ← find_payment
  when_found (permitted principal (cancel_row principal)) found

-- The decision of a reviewer: to approve, or to reject.
abbrev pub decided : Bool → PaymentStatus
decided true = approved
decided false = rejected

abbrev pub review_action : Bool → String
review_action true = "payment.review.approved"
review_action false = "payment.review.rejectd"

unfoldable pub review_row : Bool → Principal → Row → M Answer
review_row approve principal r =
    if not (same r.status manual_review)
    then told (said "payment is not in MANUAL_REVIEW")
    else try_catch
        (do
          updated ←
              transition_status r (decided approve) (some (review_action approve))
                (actor_of principal) nothing
          pure (moved_to updated.status))
        (λ e. told (from_thrown e internal))

unfoldable pub run_review : Option Bool → Principal → M Answer
run_review none principal =
    told (api_error invalid_request (some "decision must be 'approve' or 'reject'"))
run_review (some approve) principal = do
  found ← find_payment
  when_found (review_row approve principal) found

-- The payment with its parties, as the compliance checks read it.
abbrev pub payment_of : (String → Entity) → Row → ScreenedPayment
payment_of entities r = record {
  id = r.id;
  amount = r.amount;
  source_currency = r.source_currency;
  destination_currency = r.destination_currency;
  source_network = r.source_network;
  destination_network = r.destination_network;
  from = entities r.sender_id;
  to = entities r.recipient_id;
}

-- `runComplianceChecks` of a row, with what it throws.
abbrev pub Gate : Type 0
Gate = Row → Result Thrown ComplianceOutcome

unfoldable pub compliance_gate :
    (n : Numbers) → Screens n → (String → Entity) → List CheckRow → Gate
compliance_gate n screens entities rows r =
    elim (run_compliance_checks n screens (payment_of entities r) rows) [
      | ok done ↦ ok done.0
      | err e ↦ err (unknown "compliance")
    ]

pub data Gated : Type 0 where
  answered : Answer → Gated
  passed : Row → Gated

unfoldable pub apply_outcome : ComplianceOutcome → Overall → Principal → Row → M Gated
apply_outcome outcome Checks.rejected principal pending = do
  moved ← transition_status pending rejected none (actor_of principal) nothing
  pure (answered (screened_to moved.status outcome))
apply_outcome outcome Checks.needs_review principal pending = do
  moved ← transition_status pending manual_review none (actor_of principal) nothing
  pure (answered (screened_to moved.status outcome))
apply_outcome outcome Checks.approved principal pending = do
  moved ← transition_status pending approved none (actor_of principal) nothing
  pure (passed moved)

unfoldable pub enter_gate : Gate → Principal → Written → Row → M Gated
enter_gate gate principal selection r = do
  pending ← transition_status r compliance_pending none (actor_of principal) selection
  current ← find_or_throw
  outcome ← lift (gate current)
  apply_outcome outcome outcome.overall principal pending

abbrev pub gate_quoted : Gate → Principal → Written → Row → M Gated
gate_quoted gate principal selection r =
    if same r.status quoted
    then try_catch (enter_gate gate principal selection r)
        (λ e. pure (answered (refused (from_thrown e internal))))
    else pure (passed r)

-- The caller's pick of a route: none for a missing or an empty id, and only of a quoted payment.
unfoldable pub find_offer : String → List Offer → Option Offer
find_offer id [] = none
find_offer id (o ∷ os) = if str_eq o.route_id id then some o else find_offer id os

abbrev pub picked : Option Offer → Option Written
picked none = none
picked (some o) = some (a_selection o)

unfoldable pub selection_of : Option String → Row → Option Written
selection_of none r = some nothing
selection_of (some id) r =
    if not (str_eq id "") && same r.status quoted
    then picked (find_offer id r.quote)
    else some nothing

-- `executePayment`, which the ghost notes, by what it ends with; and the status after it threw.
abbrev pub noted : M (Unit {0})
noted s = (ok tt, record s { executed = true })

abbrev pub current_status : M (Option PaymentStatus)
current_status s = (ok (status_at (after_others s)), landed s)

abbrev pub ended : Result Thrown PaymentStatus → M Answer
ended (ok status) = pure (settled_as status)
ended (err e) = do
  current ← current_status
  pure (failed_at current (from_thrown e execution_failed))

unfoldable pub execute_approved : Result Thrown PaymentStatus → Row → M Answer
execute_approved executor r =
    if not (same r.status approved)
    then told (said "payment cannot be executed")
    else noted >> ended executor

abbrev pub after_gate : Result Thrown PaymentStatus → Gated → M Answer
after_gate executor (answered a) = pure a
after_gate executor (passed r) = execute_approved executor r

abbrev pub with_selection :
    Gate → Result Thrown PaymentStatus → Principal → Row → Option Written → M Answer
with_selection gate executor principal r none =
    told (api_error invalid_request (some "unknown route_id"))
with_selection gate executor principal r (some selection) =
    gate_quoted gate principal selection r >>= after_gate executor

unfoldable pub execute_row :
    Gate → Result Thrown PaymentStatus → Option String → Principal → Row → M Answer
execute_row gate executor route_id principal r =
    elim (parse_amount (text r.amount) r.source_currency) [
      | err e ↦ told (said "payment cannot be executed")
      | ok units ↦ with_selection gate executor principal r (selection_of route_id r)
    ]

unfoldable pub run_execute :
    Gate → Result Thrown PaymentStatus → Option String → Principal → M Answer
run_execute gate executor route_id principal = do
  found ← find_payment
  when_found (permitted principal (execute_row gate executor route_id principal)) found
