-- ===== src/Compliance/Providers.antt =====
-- lib/providers: the result of a check, and the two screenings by others, given how their calls end.
use settlementos.Base.{
  ℕ, Bool, true, false, ◌&&◌, not, List, [], ◌∷◌, ◌++◌, ◌==◌, any, map, if◌then◌else◌, Option, none,
  some,
}
use settlementos.Base.Texts.{String, str_eq}
use Prim.Native.String
use settlementos.Decimal.{Text}
use settlementos.Treasury.Balance.{lower}

pub data ComplianceStatus : Type 0 where
  pass fail manual_review exempt_testnet : ComplianceStatus

-- A code of `reason_codes`: a text, or `provider_http_` with a status.
pub data Reason : Type 0 where
  code : String → Reason
  provider_http : ℕ → Reason

pub record ProviderResult : Type 0 where
  pub provider : String
  pub status : ComplianceStatus
  pub score : ℕ
  pub reason_codes : List Reason

abbrev pub provider_result : String → ComplianceStatus → ℕ → List Reason → ProviderResult
provider_result provider status score reasons = record {
  provider = provider;
  status = status;
  score = score;
  reason_codes = reasons;
}

-- `httpStatus ?`, for which 0 is no status.
abbrev pub http_reason : Option ℕ → Reason
http_reason none = code "provider_unreachable"
http_reason (some status) =
    if status == 0 then code "provider_unreachable" else provider_http status

abbrev pub fail_safe : String → Option ℕ → ProviderResult
fail_safe provider status =
    provider_result provider manual_review 60 (code "provider_error" ∷ http_reason status ∷ [])

-- `isAddress` of viem, and what the call of the oracle's `isSanctioned` returns, where it does not fail.
pub record Oracle : Type 0 where
  pub is_address : Text → Bool
  pub is_sanctioned : Text → Option Bool

abbrev pub oracle_verdict : Option Bool → ProviderResult
oracle_verdict none = fail_safe "chainalysis_oracle" none
oracle_verdict (some true) =
    provider_result "chainalysis_oracle" fail 100 (code "wallet_sanctioned" ∷ [])
oracle_verdict (some false) = provider_result "chainalysis_oracle" pass 0 []

unfoldable pub chainalysis_oracle_screen : Option Oracle → Text → ProviderResult
chainalysis_oracle_screen none address = fail_safe "chainalysis_oracle" none
chainalysis_oracle_screen (some o) address =
    if not (o.is_address (lower address))
    then fail_safe "chainalysis_oracle" none
    else oracle_verdict (o.is_sanctioned (lower address))

pub data PartyKind : Type 0 where
  sender recipient : PartyKind

abbrev pub kind_text : PartyKind → String
kind_text sender = "sender"
kind_text recipient = "recipient"

pub record ScreeningParty : Type 0 where
  pub kind : PartyKind
  pub name : Text
  pub country : Option Text

-- The language's numbers, as far as a score is one: `Math.max`, `>= 0.5` and `Math.round` of a
-- hundredfold.
pub record Numbers : Type 1 where
  pub number : Type 0
  pub zero_score : number
  pub max_of : number → number → number
  pub is_possible : number → Bool
  pub percent : number → ℕ

module _ (n : Numbers) where
  pub record MatchResult : Type 0 where
    pub score : Option n.number
    pub matches : Bool

  -- A body as the loop below reads it: one that it throws on, or one with `responses`, or without; a
  -- party has `results` there, or not. A body that is no JSON is null, which has none.
  pub data Body : Type 0 where
    unusable : Body
    holding : Option (PartyKind → Option (List MatchResult)) → Body

  -- What `fetchJson` returns, where it does not throw.
  pub record Fetched : Type 0 where
    pub http_status : ℕ
    pub body : Body

  abbrev pub Screened : Type 0
  Screened = n.number × List String

  abbrev pub score_of : Option n.number → n.number
  score_of none = n.zero_score
  score_of (some s) = s

  abbrev pub match_reason : PartyKind → String
  match_reason kind = String.◌++◌ (kind_text kind) "_sanctions_list_match"

  -- The loop over the results of one party.
  unfoldable pub screen_results : PartyKind → List MatchResult → Screened → Screened
  screen_results kind [] acc = acc
  screen_results kind (r ∷ rs) acc = screen_results kind rs (
    n.max_of acc.0 (score_of r.score),
    if r.matches && not (any (λ m. str_eq m (match_reason kind)) acc.1)
        then acc.1 ++ match_reason kind ∷ []
        else acc.1,
  )

  unfoldable pub screen_parties :
      (PartyKind → List MatchResult) → List ScreeningParty → Screened → Screened
  screen_parties responses [] acc = acc
  screen_parties responses (p ∷ ps) acc =
      screen_parties responses ps (screen_results p.kind (responses p.kind) acc)

  abbrev pub match_verdict : Screened → ProviderResult
  match_verdict (score, m ∷ ms) = provider_result "opensanctions" fail 100 (map code (m ∷ ms))
  match_verdict (score, []) =
      if n.is_possible score
      then provider_result "opensanctions" manual_review (n.percent score)
          (code "sanctions_possible_match" ∷ [])
      else provider_result "opensanctions" pass (n.percent score) []

  -- `?.responses ?? {}`, and `?.results ?? []` of a party.
  abbrev pub results_or_empty : Option (List MatchResult) → List MatchResult
  results_or_empty none = []
  results_or_empty (some rs) = rs

  abbrev pub results_of :
      Option (PartyKind → Option (List MatchResult)) → PartyKind → List MatchResult
  results_of none kind = []
  results_of (some responses) kind = results_or_empty (responses kind)

  abbrev pub screened_body : Body → List ScreeningParty → ProviderResult
  screened_body unusable parties = fail_safe "opensanctions" none
  screened_body (holding responses) parties =
      match_verdict (screen_parties (results_of responses) parties (n.zero_score, []))

  abbrev pub screened : Option Fetched → List ScreeningParty → ProviderResult
  screened none parties = fail_safe "opensanctions" none
  screened (some f) parties =
      if not (f.http_status == 200)
      then fail_safe "opensanctions" (some f.http_status)
      else screened_body f.body parties

  unfoldable pub open_sanctions_screen :
      (List ScreeningParty → Option Fetched) → List ScreeningParty → ProviderResult
  open_sanctions_screen fetch parties = screened (fetch parties) parties
