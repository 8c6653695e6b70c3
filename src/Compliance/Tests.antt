-- ===== src/Compliance/Tests.antt =====
-- A payment that every check clears, with an oracle and with the screening service.
use settlementos.Base.{◌≡◌, ◌↔◌, refl, [], some, none}
use settlementos.Compliance.Providers.{
  pass, holding, open_sanctions_screen, screen_parties, screen_results,
}
use settlementos.Compliance.Checks.{approved, Screens, sanctions_check}
use settlementos.Compliance.Outcome.{Cleared, run_compliance_checks_approves}
use settlementos.Compliance.Samples.{
  stored, run_small, known, hundredths, screens, small_payment, all_passed,
}

run_compliance_checks_approves_example :
    (all_passed.overall ≡ approved) ↔ Cleared hundredths screens small_payment
run_compliance_checks_approves_example =
    run_compliance_checks_approves hundredths screens small_payment [] stored all_passed run_small

-- An answer whose body is no JSON, or has no results, passes the screening.
abbrev unscreened : Screens hundredths
unscreened = record screens {
  open_sanctions = some (λ ps. some (record { http_status = 200; body = holding none }));
}

empty_body_passes : (sanctions_check hundredths unscreened known known).status ≡ pass
unfolding sanctions_check open_sanctions_screen screen_parties screen_results
empty_body_passes = refl
