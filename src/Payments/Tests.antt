-- ===== src/Payments/Tests.antt =====
-- A quoted payment that is executed, by its sender.
use settlementos.Base.{◌≡◌, ◌⊎◌, refl, true, false, [], ◌∷◌, none, some, ok}
use settlementos.Base.Programs.{bind, pure, throw, try_catch}
use settlementos.Base.Texts.{String, codes}
use settlementos.Lifecycle.{
  can_transition, transitions, quoted, compliance_pending, approved, settled,
}
use settlementos.Money.{parse_amount, currency_decimals, parse_scaled_units, canonical_decimal}
use settlementos.Decimal.{split, value}
use settlementos.Access.Guard.{authorize_payment_write, actor_of}
use settlementos.Access.Keys.{Principal, entity}
use settlementos.Compliance.Checks.{Entity}
use settlementos.Compliance.Outcome.{Cleared}
use settlementos.Compliance.Samples.{
  known, hundredths, screens, small_payment, all_passed, run_small,
}
use settlementos.Payments.Rows.{
  find_payment, transition_status, compare_and_swap, find_or_throw, Shared, Row, Offer,
}
use settlementos.Payments.Handlers.{
  execute_row, selection_of, find_offer, enter_gate, apply_outcome, execute_approved, run_execute,
  compliance_gate,
}
use settlementos.Payments.Gate.{Authorized, run_execute_gated}

abbrev instant : Offer
instant = record {
  route_id = "route_pay_1_instant";
  fx_rate = codes "156.838440";
  destination_amount = codes "3917040";
}

abbrev quoted_row : Row
quoted_row = record {
  id = "pay_1";
  sender_id = "acme";
  recipient_id = "tanaka";
  amount = codes "25000.00";
  source_currency = "USD";
  destination_currency = "JPY";
  source_network = "base-local";
  destination_network = "polygon-local";
  status = quoted;
  quote = instant ∷ [];
  selected = some instant;
}

abbrev start : Shared
start = record {
  row = some quoted_row;
  others = (λ o. o) ∷ (λ o. o) ∷ [];
  log = [];
  found_at = none;
  executed = false;
}

abbrev parties : String → Entity
parties id = known

abbrev acme : Principal
acme = record { key_id = "k1"; role = entity; entity_id = some "acme"; label = "Acme" }

screened_small :
    compliance_gate hundredths screens parties []
      (record quoted_row { status = compliance_pending })
    ≡ ok all_passed
unfolding compliance_gate
screened_small = rw (compliance_gate, run_small) refl

executed_start :
    (run_execute
      (compliance_gate hundredths screens parties [])
      (ok settled)
      (some "route_pay_1_instant")
      acme
      start).1.executed
    ≡ true
unfolding run_execute find_or_throw bind find_payment authorize_payment_write execute_row
    parse_amount currency_decimals parse_scaled_units split value selection_of find_offer try_catch
    enter_gate transition_status can_transition compare_and_swap pure throw apply_outcome
    execute_approved actor_of transitions canonical_decimal
executed_start = rw screened_small refl

run_execute_gated_example :
    Authorized acme (some quoted_row)
    × ((some quoted ≡ some approved) ⊎ Cleared hundredths screens small_payment)
run_execute_gated_example =
    run_execute_gated hundredths screens parties small_payment [] (ok settled)
      (some "route_pay_1_instant") acme start refl refl ((λ o d. d), ((λ o d. d), tt))
      executed_start
