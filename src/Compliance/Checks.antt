-- ===== src/Compliance/Checks.antt =====
-- lib/compliance.ts: each check, and the outcome of all of them.
use settlementos.Base.{
  ℕ, Bool, true, false, ◌&&◌, ◌||◌, not, List, [], ◌∷◌, ◌++◌, ◌==◌, ◌/◌, ltb, any, map,
  if◌then◌else◌, Option, none, some, Result, ok, err, ◌>>=◌,
}
use settlementos.Base.Texts.{String, str_eq, codes}
use Prim.Native.String
use settlementos.Decimal.{Text}
use settlementos.Money.{MoneyError, text, parse_amount}
use settlementos.Fx.{FxError, usd_equivalent, corridor_code}
use settlementos.Networks.Selection.{Wallet, wallet_on_network}
use settlementos.Treasury.Balance.{lower}
use settlementos.Compliance.Providers.{
  ComplianceStatus, pass, fail, manual_review, ProviderResult, provider_result, code, PartyKind,
  sender, recipient, kind_text, ScreeningParty, Oracle, Numbers, Fetched, open_sanctions_screen,
  chainalysis_oracle_screen,
}

abbrev pub tx_review_threshold_minor : ℕ
tx_review_threshold_minor = 250_000_00

abbrev pub tx_fail_threshold_minor : ℕ
tx_fail_threshold_minor = 1_000_000_00

abbrev pub wallet_review_score : ℕ
wallet_review_score = 40

abbrev pub wallet_fail_score : ℕ
wallet_fail_score = 70

-- What the checks throw.
pub data ComplianceError : Type 0 where
  bad_amount : MoneyError → ComplianceError
  bad_corridor : FxError → ComplianceError
  unparsable_corridors : ComplianceError

-- model Entity, the columns read here. The list of corridors is the column once it is parsed, or
-- `none` where that throws.
pub record Entity : Type 0 where
  pub name : Text
  pub country : Option Text
  pub kyb_status : String
  pub approved_corridors : Option (List String)
  pub wallets : List Wallet

unfoldable pub kyb_provider : Entity → PartyKind → ProviderResult
kyb_provider entity kind =
    if str_eq entity.kyb_status "PASSED"
    then provider_result "mock_kyb" pass 5 []
    else if str_eq entity.kyb_status "PENDING"
    then provider_result "mock_kyb" manual_review 50
        (code (String.◌++◌ (kind_text kind) "_kyb_pending") ∷ [])
    else provider_result "mock_kyb" fail 95 (code (String.◌++◌ (kind_text kind) "_kyb_failed") ∷ [])

-- `startsWith` and `includes` of a text.
abbrev pub starts : Text → Text → Bool
starts [] s = true
starts (c ∷ p) [] = false
starts (c ∷ p) (d ∷ s) = c == d && starts p s

abbrev pub text_includes : Text → Text → Bool
text_includes p [] = starts p []
text_includes p (c ∷ s) = starts p (c ∷ s) || text_includes p s

abbrev pub named_sanctioned : Entity → Bool
named_sanctioned e = text_includes (codes "sanctioned") (lower e.name)

unfoldable pub sanctions_provider : Entity → Entity → ProviderResult
sanctions_provider s r =
    if any named_sanctioned (s ∷ r ∷ [])
    then provider_result "mock_sanctions" fail 100 (code "sanctions_list_match" ∷ [])
    else provider_result "mock_sanctions" pass 0 []

unfoldable pub wallet_risk_provider : Wallet → ProviderResult
wallet_risk_provider w =
    if ltb wallet_fail_score w.risk_score
    then provider_result "mock_wallet_risk" fail w.risk_score (code "wallet_high_risk" ∷ [])
    else if ltb wallet_review_score w.risk_score
    then provider_result "mock_wallet_risk" manual_review w.risk_score
        (code "wallet_elevated_risk" ∷ [])
    else provider_result "mock_wallet_risk" pass w.risk_score []

-- One point for each 10,000 dollars, at most 30.
abbrev pub notional_score : ℕ → ℕ
notional_score usd = if ltb (usd / 10_000_00) 30 then usd / 10_000_00 else 30

abbrev pub usd_risk : ℕ → ProviderResult
usd_risk usd =
    if ltb tx_fail_threshold_minor usd
    then provider_result "mock_tx_monitoring" fail 90 (code "amount_exceeds_hard_limit" ∷ [])
    else if ltb tx_review_threshold_minor usd
    then provider_result "mock_tx_monitoring" manual_review 65
        (code "amount_exceeds_review_threshold" ∷ [])
    else provider_result "mock_tx_monitoring" pass (notional_score usd) []

abbrev pub amount_checked {ℓ} : {A : Type ℓ} → Result MoneyError A → Result ComplianceError A
amount_checked (ok a) = ok a
amount_checked (err e) = err (bad_amount e)

abbrev pub fx_checked {ℓ} : {A : Type ℓ} → Result FxError A → Result ComplianceError A
fx_checked (ok a) = ok a
fx_checked (err e) = err (bad_corridor e)

unfoldable pub notional : Text → String → Result ComplianceError ℕ
notional amount source = do
  minor ← amount_checked (parse_amount (text amount) source)
  fx_checked (usd_equivalent minor source)

unfoldable pub transaction_risk_provider : Text → String → Result ComplianceError ProviderResult
transaction_risk_provider amount source = do usd ← notional amount source; ok (usd_risk usd)

-- `source === dest || JSON.parse(…).includes(corridor)`.
unfoldable pub corridor_ok : Entity → String → String → Result ComplianceError Bool
corridor_ok e source dest = if str_eq source dest then ok true else elim e.approved_corridors [
  | none ↦ err unparsable_corridors
  | some corridors ↦ ok (any (λ c. str_eq c (corridor_code source dest)) corridors)
]

abbrev pub corridor_verdict : Bool → ProviderResult
corridor_verdict true = provider_result "mock_corridor_risk" pass 10 []
corridor_verdict false =
    provider_result "mock_corridor_risk" manual_review 60 (code "corridor_not_pre_approved" ∷ [])

unfoldable pub corridor_risk_provider :
    Entity → Entity → String → String → Result ComplianceError ProviderResult
corridor_risk_provider s r source dest = do
  sender_ok ← corridor_ok s source dest
  recipient_ok ← corridor_ok r source dest
  ok (corridor_verdict (sender_ok && recipient_ok))

-- The providers that the environment enables, by how their calls end.
pub record Screens (n : Numbers) : Type 0 where
  pub open_sanctions : Option (List ScreeningParty → Option (Fetched n))
  pub oracle : Option Oracle

abbrev pub parties : Entity → Entity → List ScreeningParty
parties s r =
    record { kind = sender; name = s.name; country = s.country }
    ∷ record { kind = recipient; name = r.name; country = r.country }
    ∷ []

abbrev pub screened_by :
    (n : Numbers)
    → Option (List ScreeningParty → Option (Fetched n))
    → Entity
    → Entity
    → ProviderResult
screened_by n none s r = sanctions_provider s r
screened_by n (some fetch) s r = open_sanctions_screen n fetch (parties s r)

unfoldable pub sanctions_check : (n : Numbers) → Screens n → Entity → Entity → ProviderResult
sanctions_check n screens s r = screened_by n screens.open_sanctions s r

abbrev pub screened_wallet : Option Oracle → Wallet → ProviderResult
screened_wallet none w = wallet_risk_provider w
screened_wallet (some o) w = chainalysis_oracle_screen (some o) w.address

unfoldable pub wallet_risk_check : Option Oracle → Option Wallet → ProviderResult
wallet_risk_check oracle none =
    provider_result "platform_policy" manual_review 60 (code "wallet_not_registered" ∷ [])
wallet_risk_check oracle (some w) =
    if not w.allowlisted
    then provider_result "platform_policy" manual_review 55 (code "wallet_not_allowlisted" ∷ [])
    else screened_wallet oracle w

pub data Overall : Type 0 where
  approved needs_review rejected : Overall

pub record Check : Type 0 where
  pub check_type : String
  pub result : ProviderResult

pub record ComplianceOutcome : Type 0 where
  pub overall : Overall
  pub checks : List Check

-- The payment with its parties.
pub record ScreenedPayment : Type 0 where
  pub id : String
  pub amount : Text
  pub source_currency : String
  pub destination_currency : String
  pub source_network : String
  pub destination_network : String
  pub from : Entity
  pub to : Entity

-- model ComplianceCheck, a row of which is a check of a payment.
pub record CheckRow : Type 0 where
  pub payment_id : String
  pub check : Check

abbrev pub is_fail : ComplianceStatus → Bool
is_fail fail = true
is_fail _ = false

abbrev pub is_review : ComplianceStatus → Bool
is_review manual_review = true
is_review _ = false

unfoldable pub overall_of : List Check → Overall
overall_of checks =
    if any (λ (c : Check). is_fail c.result.status) checks
    then rejected
    else if any (λ (c : Check). is_review c.result.status) checks
    then needs_review
    else approved

unfoldable pub checks_of :
    (n : Numbers) → Screens n → ScreenedPayment → Result ComplianceError (List Check)
checks_of n screens p = do
  let sanctions = sanctions_check n screens p.from p.to
  let sender_wallet =
      wallet_risk_check screens.oracle (wallet_on_network p.from.wallets p.source_network)
  let recipient_wallet =
      wallet_risk_check screens.oracle (wallet_on_network p.to.wallets p.destination_network)
  tx ← transaction_risk_provider p.amount p.source_currency
  corridor ← corridor_risk_provider p.from p.to p.source_currency p.destination_currency
  ok (
      record { check_type = "KYB_SENDER"; result = kyb_provider p.from sender }
      ∷ record { check_type = "KYC_RECIPIENT"; result = kyb_provider p.to recipient }
      ∷ record { check_type = "SANCTIONS"; result = sanctions }
      ∷ record { check_type = "WALLET_RISK_SENDER"; result = sender_wallet }
      ∷ record { check_type = "WALLET_RISK_RECIPIENT"; result = recipient_wallet }
      ∷ record { check_type = "TX_RISK"; result = tx }
      ∷ record { check_type = "CORRIDOR_RISK"; result = corridor }
      ∷ [])

-- The outcome, and the table of checks with the new rows.
unfoldable pub run_compliance_checks :
    (n : Numbers)
    → Screens n
    → ScreenedPayment
    → List CheckRow
    → Result ComplianceError (ComplianceOutcome × List CheckRow)
run_compliance_checks n screens p rows = do
  checks ← checks_of n screens p
  ok (
    record { overall = overall_of checks; checks = checks },
    rows ++ map (λ (c : Check). record { payment_id = p.id; check = c }) checks,
  )
