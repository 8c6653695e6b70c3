-- ===== src/Compliance/Samples.antt =====
-- A payment that every check clears, for the tests.
use settlementos.Base.{
  ◌≡◌, refl, [], ok, map, List, ℕ, true, false, ◌∷◌, Option, leb, if◌then◌else◌, some, none,
}
use settlementos.Decimal.{split, value}
use settlementos.Money.{parse_amount, currency_decimals, parse_scaled_units, canonical_decimal}
use settlementos.Fx.{usd_equivalent, corridor_code}
use settlementos.Networks.Selection.{wallet_on_network, find_wallet}
use settlementos.Compliance.Providers.{
  open_sanctions_screen, screen_parties, screen_results, chainalysis_oracle_screen, pass, PartyKind,
  sender, recipient, provider_result, Numbers, MatchResult, holding,
}
use settlementos.Compliance.Checks.{
  checks_of, transaction_risk_provider, notional, corridor_risk_provider, corridor_ok,
  sanctions_check, wallet_risk_check, kyb_provider, overall_of, CheckRow, Check, approved,
  run_compliance_checks, Entity, Screens, ScreenedPayment, ComplianceOutcome,
}
use settlementos.Base.Texts.{codes}

-- Scores in hundredths.
abbrev pub hundredths : Numbers
hundredths = record {
  number = ℕ;
  zero_score = 0;
  max_of = λ a b. if leb a b then b else a;
  is_possible = λ s. leb 50 s;
  percent = λ s. s;
}

abbrev pub weak_match : PartyKind → Option (List (MatchResult hundredths))
weak_match sender = some (record { score = some 12; matches = false } ∷ [])
weak_match recipient = none

abbrev pub screens : Screens hundredths
screens = record {
  open_sanctions =
      some (λ ps. some (record { http_status = 200; body = holding (some weak_match) }));
  oracle = some (record { is_address = λ a. true; is_sanctioned = λ a. some false });
}

abbrev pub known : Entity
known = record {
  name = codes "Acme";
  country = none;
  kyb_status = "PASSED";
  approved_corridors = some ("USD-JPY" ∷ []);
  wallets =
      record { address = codes "0xAB"; network = "base-local"; allowlisted = true; risk_score = 0 }
      ∷ [];
}

abbrev pub small_payment : ScreenedPayment
small_payment = record {
  id = "pay_1";
  amount = codes "25000.00";
  source_currency = "USD";
  destination_currency = "JPY";
  source_network = "base-local";
  destination_network = "polygon-local";
  from = known;
  to = known;
}

abbrev pub all_passed : ComplianceOutcome
all_passed = record {
  overall = approved;
  checks =
      record { check_type = "KYB_SENDER"; result = provider_result "mock_kyb" pass 5 [] }
      ∷ record { check_type = "KYC_RECIPIENT"; result = provider_result "mock_kyb" pass 5 [] }
      ∷ record { check_type = "SANCTIONS"; result = provider_result "opensanctions" pass 12 [] }
      ∷ record {
        check_type = "WALLET_RISK_SENDER";
        result = provider_result "chainalysis_oracle" pass 0 [];
      }
      ∷ record {
        check_type = "WALLET_RISK_RECIPIENT";
        result = provider_result "chainalysis_oracle" pass 0 [];
      }
      ∷ record { check_type = "TX_RISK"; result = provider_result "mock_tx_monitoring" pass 2 [] }
      ∷ record {
        check_type = "CORRIDOR_RISK";
        result = provider_result "mock_corridor_risk" pass 10 [];
      }
      ∷ [];
}

abbrev pub stored : List CheckRow
stored = map (λ (c : Check). record { payment_id = "pay_1"; check = c }) all_passed.checks

pub run_small : run_compliance_checks hundredths screens small_payment [] ≡ ok (all_passed, stored)
unfolding run_compliance_checks checks_of transaction_risk_provider notional parse_amount
    currency_decimals parse_scaled_units split value usd_equivalent canonical_decimal
    corridor_risk_provider corridor_ok corridor_code sanctions_check open_sanctions_screen
    screen_parties screen_results wallet_risk_check wallet_on_network find_wallet
    chainalysis_oracle_screen kyb_provider overall_of
run_small = refl
