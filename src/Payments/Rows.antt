-- ===== src/Payments/Rows.antt =====
-- The payment's row, and its reads and moves.
use settlementos.Base.{
  Bool, List, [], ◌∷◌, ◌++◌, not, if◌then◌else◌, Option, none, some, Result, ok, err,
}
use settlementos.Base.Texts.{String}
use settlementos.Base.Programs.{Program, throw}
use settlementos.Decimal.{Text}
use settlementos.Lifecycle.{PaymentStatus, same, can_transition}
use settlementos.Access.Guard.{Thrown, chosen, unknown, conflict}

-- What a quote offers, as far as a selection keeps it.
pub record Offer : Type 0 where
  pub route_id : String
  pub fx_rate : Text
  pub destination_amount : Text

-- model Payment, the columns that these handlers use. `selected` is selectedRouteId with its rate and
-- its amount.
pub record Row : Type 0 where
  pub id : String
  pub sender_id : String
  pub recipient_id : String
  pub amount : Text
  pub source_currency : String
  pub destination_currency : String
  pub source_network : String
  pub destination_network : String
  pub status : PaymentStatus
  pub quote : List Offer
  pub selected : Option Offer

-- An event of the audit log.
pub record Moved : Type 0 where
  pub action : Option String
  pub from : PaymentStatus
  pub to : PaymentStatus
  pub actor : String

-- The row, what others do to it before each of our calls, and the log. Of the two ghosts, which no code
-- reads, one is the status at which the handler found the payment, the other whether it went on to
-- execute it.
pub record Shared : Type 0 where
  pub row : Option Row
  pub others : List (Option Row → Option Row)
  pub log : List Moved
  pub found_at : Option PaymentStatus
  pub executed : Bool

abbrev pub M {ℓ} : Type ℓ → Type ℓ
M A = Program Shared Thrown A

abbrev pub after_others : Shared → Option Row
after_others s = elim s.others [ [] ↦ s.row | f ∷ fs ↦ f s.row ]

abbrev pub later : Shared → List (Option Row → Option Row)
later s = elim s.others [ [] ↦ [] | f ∷ fs ↦ fs ]

-- `findUnique` at the start of a handler.
abbrev pub status_at : Option Row → Option PaymentStatus
status_at none = none
status_at (some r) = some r.status

unfoldable pub find_payment : M (Option Row)
find_payment s = (
  ok (after_others s),
  record s { row = after_others s; others = later s; found_at = status_at (after_others s) },
)

-- What a move writes besides the status.
pub data Written : Type 0 where
  nothing : Written
  a_selection : Offer → Written
  a_quote : List Offer → Offer → Written

abbrev pub write : Written → Row → Row
write nothing r = r
write (a_selection o) r = record r { selected = some o }
write (a_quote offers o) r = record r { quote = offers; selected = some o }

abbrev pub swapped : PaymentStatus → Written → Row → Row
swapped to w r = write w (record r { status = to })

abbrev pub stale : Thrown
stale = chosen conflict "payment status changed while the request was in flight"

abbrev pub swap_in :
    PaymentStatus → Moved → Written → Option Row → Shared → Result Thrown Row × Shared
swap_in from e w none s = (err stale, s)
swap_in from e w (some r) s =
    if same r.status from
    then (ok (swapped e.to w r), record s { row = some (swapped e.to w r); log = s.log ++ e ∷ [] })
    else (err stale, s)

abbrev pub landed : Shared → Shared
landed s = record s { row = after_others s; others = later s }

-- The compare-and-swap with its event.
unfoldable pub compare_and_swap : PaymentStatus → Moved → Written → M Row
compare_and_swap from e w s = swap_in from e w (after_others s) (landed s)

-- `transitionStatus`, without the columns of the lease.
unfoldable pub transition_status : Row → PaymentStatus → Option String → String → Written → M Row
transition_status payment to action actor w =
    if not (can_transition payment.status to)
    then throw (unknown "Invalid payment state transition")
    else compare_and_swap payment.status
        (record { action = action; from = payment.status; to = to; actor = actor }) w

abbrev pub row_or_throw : Option Row → Shared → Result Thrown Row × Shared
row_or_throw none s = (err (unknown "No Payment found"), s)
row_or_throw (some r) s = (ok r, s)

-- `findUniqueOrThrow`.
unfoldable pub find_or_throw : M Row
find_or_throw s = row_or_throw (after_others s) (landed s)
