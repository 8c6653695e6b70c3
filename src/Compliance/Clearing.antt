-- ===== src/Compliance/Clearing.antt =====
-- What each check has to find for a payment to be cleared by it.
use settlementos.Base.{
  ℕ, ◌≤◌, ◌≡◌, refl, sym, ◌∙◌, ◌↔◌, inl, inr, Bool, true, false, ◌&&◌, ◌||◌, not, List, [], ◌∷◌,
  ◌++◌, ◌==◌, all, any, if◌then◌else◌, Option, none, some, Bool-cases, arith,
}
use settlementos.Base.Texts.{String, str_eq, eq_iff}
use settlementos.Networks.Selection.{Wallet}
use settlementos.Treasury.Balance.{lower}
use settlementos.Compliance.Providers.{
  ComplianceStatus, pass, fail, ProviderResult, PartyKind, sender, recipient, fail_safe,
  oracle_verdict, MatchResult, ScreeningParty, Oracle, Numbers, Fetched, Screened, match_verdict,
  match_reason, score_of, screen_results, screen_parties, screened, screened_body, Body, unusable,
  holding, results_of, provider_result, code, open_sanctions_screen, chainalysis_oracle_screen,
}
use settlementos.Compliance.Checks.{
  is_fail, is_review, Entity, kyb_provider, named_sanctioned, sanctions_provider, sanctions_check,
  wallet_risk_provider, wallet_risk_check, usd_risk, Screens, parties, screened_by, screened_wallet,
}

abbrev pub is_clear : ComplianceStatus → Bool
is_clear s = not (is_fail s) && not (is_review s)

abbrev pub passes : ProviderResult → Bool
passes r = is_clear r.status

-- What the screening of a wallet finds, without an oracle and with one.
abbrev pub CleanWallet : Option Oracle → Wallet → Type 0
CleanWallet none w = w.risk_score ≤ 40
CleanWallet (some o) w =
    (o.is_address (lower w.address) ≡ true) × (o.is_sanctioned (lower w.address) ≡ some false)

abbrev pub CleanLeg : Option Oracle → Option Wallet → Type 0
CleanLeg oracle none = ⊥
CleanLeg oracle (some w) = (w.allowlisted ≡ true) × CleanWallet oracle w

pub kyb_provider_clear :
    (e : Entity) (k : PartyKind) → (passes (kyb_provider e k) ≡ true) ↔ (e.kyb_status ≡ "PASSED")
unfolding kyb_provider
kyb_provider_clear e k = elim (Bool-cases (str_eq e.kyb_status "PASSED")) [
  | inl h ↦ rw h (λ x. (eq_iff e.kyb_status "PASSED").0 h, λ x. refl)
  | inr h ↦ (
    λ x. elim (Bool-cases (str_eq e.kyb_status "PENDING")) [
      | inl y ↦ let no : false ≡ true = rw (h, y) at x in cc
      | inr y ↦ let no : false ≡ true = rw (h, y) at x in cc
    ],
    λ x. cc (sym h ∙ (eq_iff e.kyb_status "PASSED").1 x),
  )
]

wallet_risk_provider_clear :
    (w : Wallet) → (passes (wallet_risk_provider w) ≡ true) ↔ (w.risk_score ≤ 40)
unfolding wallet_risk_provider
wallet_risk_provider_clear w = ground arith

pub usd_risk_clear : (usd : ℕ) → (passes (usd_risk usd) ≡ true) ↔ (usd ≤ 250_000_00)
usd_risk_clear usd = ground arith

-- Behind a condition, and a result that clears nothing where it does not hold.
guarded_clear :
    (b : Bool) (bad r : ProviderResult) (C : Type 0)
    → passes bad ≡ false
    → ((passes r ≡ true) ↔ C)
    → (passes (if not b then bad else r) ≡ true) ↔ ((b ≡ true) × C)
guarded_clear true bad r C h k = (λ x. (refl, k.0 x), λ x. k.1 x.1)
guarded_clear false bad r C h k = (λ x. let no : false ≡ true = sym h ∙ x in cc, λ x. cc x.0)

told : (r : Option Bool) → (passes (oracle_verdict r) ≡ true) ↔ (r ≡ some false)
told none = (λ x. cc, λ x. cc)
told (some true) = (λ x. cc, λ x. cc)
told (some false) = (λ x. refl, λ x. refl)

screened_wallet_clear :
    (o : Option Oracle) (w : Wallet) → (passes (screened_wallet o w) ≡ true) ↔ CleanWallet o w
unfolding chainalysis_oracle_screen
screened_wallet_clear none w = wallet_risk_provider_clear w
screened_wallet_clear (some o) w =
    guarded_clear (o.is_address (lower w.address)) (fail_safe "chainalysis_oracle" none)
      (oracle_verdict (o.is_sanctioned (lower w.address)))
      (o.is_sanctioned (lower w.address) ≡ some false) refl
      (told (o.is_sanctioned (lower w.address)))

-- A wallet is cleared if it is registered, allowlisted and found clean.
pub wallet_risk_check_clear :
    (o : Option Oracle) (w : Option Wallet) → (passes (wallet_risk_check o w) ≡ true) ↔ CleanLeg o w
unfolding wallet_risk_check
wallet_risk_check_clear o none = (λ x. cc, λ x. elim x [ ])
wallet_risk_check_clear o (some w) =
    guarded_clear w.allowlisted _ (screened_wallet o w) (CleanWallet o w) refl
      (screened_wallet_clear o w)

pub ands : {a b : Bool} → a ≡ true → b ≡ true → (a && b) ≡ true
ands {a} {b} h k = ground arith

pub both_of : {a b : Bool} → (a && b) ≡ true → (a ≡ true) × (b ≡ true)
both_of {a} {b} h = ground arith

-- No result of a party is a match.
abbrev pub NoMatch : (n : Numbers) → List (MatchResult n) → Type 0
NoMatch n rs = all (λ (r : MatchResult n). not r.matches) rs ≡ true

module _ (n : Numbers) where
  pushed : (c : Bool) (x : String) (ms ns : List String) → (if c then x ∷ ms else x ∷ ns) ≡ [] → ⊥
  pushed true x ms ns h = cc
  pushed false x ms ns h = cc

  noted_empty :
      (k : PartyKind) (b : Bool) (ms : List String)
      → ((if b && not (any (λ m. str_eq m (match_reason n k)) ms)
            then ms ++ match_reason n k ∷ []
            else ms)
          ≡ [])
        ↔ ((ms ≡ []) × (not b ≡ true))
  noted_empty k false ms = (λ x. (x, refl), λ x. x.0)
  noted_empty k true [] = (λ x. cc, λ x. cc x.1)
  noted_empty k true (m ∷ ms) =
      (λ x. elim (pushed _ m (ms ++ match_reason n k ∷ []) ms x) [ ], λ x. cc x.1)

  screen_results_empty :
      (k : PartyKind) (rs : List (MatchResult n)) (acc : Screened n)
      → ((screen_results n k rs acc).1 ≡ []) ↔ ((acc.1 ≡ []) × NoMatch n rs)
  unfolding screen_results
  screen_results_empty k [] acc = (λ x. (x, refl), λ x. x.0)
  screen_results_empty k (r ∷ rs) acc =
      let step = noted_empty k r.matches acc.1 in
      let rest = screen_results_empty k rs (n.max_of acc.0 (score_of n r.score), _) in
      (
        λ x. ((step.0 (rest.0 x).0).0, ands (step.0 (rest.0 x).0).1 (rest.0 x).1),
        λ x. rest.1 (step.1 (x.0, (both_of x.1).0), (both_of x.1).1),
      )

  match_verdict_clear :
      (acc : Screened n)
      → (passes (match_verdict n acc) ≡ true) ↔ ((acc.1 ≡ []) × (n.is_possible acc.0 ≡ false))
  match_verdict_clear (score, m ∷ ms) = (λ x. cc, λ x. cc x.0)
  match_verdict_clear (score, []) = elim (Bool-cases (n.is_possible score)) [
    | inl h ↦ rw h (λ x. cc, λ x. cc x.1)
    | inr h ↦ rw h (λ x. (refl, refl), λ x. refl)
  ]

  -- A body in which the loop finds no match for either party, and no score that makes one possible. A
  -- body without results is one too.
  abbrev pub CleanBody : Body n → Entity → Entity → Type 0
  CleanBody unusable s r = ⊥
  CleanBody (holding responses) s r =
      NoMatch n (results_of n responses sender)
      × NoMatch n (results_of n responses recipient)
      × (n.is_possible
            (screen_parties n (results_of n responses) (parties s r) (n.zero_score, [])).0
          ≡ false)

  screened_body_clear :
      (o : Body n) (s r : Entity)
      → (passes (screened_body n o (parties s r)) ≡ true) ↔ CleanBody o s r
  unfolding screen_parties
  screened_body_clear unusable s r = (λ x. cc, λ x. elim x [ ])
  screened_body_clear (holding responses) s r =
      let found : PartyKind → List (MatchResult n) = results_of n responses in
      let start : Screened n = (n.zero_score, []) in
      let mid : Screened n = screen_results n sender (found sender) start in
      let first = screen_results_empty sender (found sender) start in
      let second = screen_results_empty recipient (found recipient) mid in
      let verdict = match_verdict_clear (screen_results n recipient (found recipient) mid) in
      (
        λ x. (
          (first.0 (second.0 (verdict.0 x).0).0).1,
          (second.0 (verdict.0 x).0).1,
          (verdict.0 x).1,
        ),
        λ x. verdict.1 (second.1 (first.1 (refl, x.0), x.1), x.2),
      )

  abbrev pub CleanFetch : Option (Fetched n) → Entity → Entity → Type 0
  CleanFetch none s r = ⊥
  CleanFetch (some f) s r = (f.http_status == 200 ≡ true) × CleanBody f.body s r

  -- What the screening of both parties finds, without and with the service.
  abbrev pub CleanParties :
      Option (List ScreeningParty → Option (Fetched n)) → Entity → Entity → Type 0
  CleanParties none s r = (named_sanctioned s ≡ false) × (named_sanctioned r ≡ false)
  CleanParties (some fetch) s r = CleanFetch (fetch (parties s r)) s r

  fetch_clear :
      (o : Option (Fetched n)) (s r : Entity)
      → (passes (screened n o (parties s r)) ≡ true) ↔ CleanFetch o s r
  fetch_clear none s r = (λ x. cc, λ x. elim x [ ])
  fetch_clear (some f) s r =
      guarded_clear (f.http_status == 200) (fail_safe "opensanctions" (some f.http_status)) _ _ refl
        (screened_body_clear f.body s r)

  neither_clear :
      (a b : Bool)
      → (passes (
            if a || (b || false)
            then provider_result "mock_sanctions" fail 100 (code "sanctions_list_match" ∷ [])
            else provider_result "mock_sanctions" pass 0 [])
          ≡ true)
        ↔ ((a ≡ false) × (b ≡ false))
  neither_clear true b = (λ x. cc, λ x. cc x.0)
  neither_clear false true = (λ x. cc, λ x. cc x.1)
  neither_clear false false = (λ x. (refl, refl), λ x. refl)

  service_clear :
      (o : Option (List ScreeningParty → Option (Fetched n))) (s r : Entity)
      → (passes (screened_by n o s r) ≡ true) ↔ CleanParties o s r
  unfolding sanctions_provider open_sanctions_screen
  service_clear none s r = neither_clear (named_sanctioned s) (named_sanctioned r)
  service_clear (some fetch) s r = fetch_clear (fetch (parties s r)) s r

  pub sanctions_check_clear :
      (screens : Screens n) (s r : Entity)
      → (passes (sanctions_check n screens s r) ≡ true) ↔ CleanParties screens.open_sanctions s r
  unfolding sanctions_check
  sanctions_check_clear screens s r = service_clear screens.open_sanctions s r
