-- ===== src/Compliance/Outcome.antt =====
-- Which payments the checks approve.
use settlementos.Base.{
  ℕ, ◌≤◌, ◌≡◌, refl, sym, ap, subst, ◌∙◌, ◌↔◌, ◌⊎◌, inl, inr, Bool, true, false, ◌&&◌, ◌||◌, not,
  List, [], ◌∷◌, all, any, if◌then◌else◌, Option, none, some, Result, ok, err, >>=-eq-ok,
  Bool-cases, arith,
}
use settlementos.Base.Texts.{String, str_eq, eq_iff}
use settlementos.Decimal.{Text}
use settlementos.Fx.{corridor_code}
use settlementos.Networks.Selection.{wallet_on_network}
use settlementos.Compliance.Providers.{ProviderResult, sender, recipient, Numbers}
use settlementos.Compliance.Checks
use settlementos.Compliance.Checks.{
  is_fail, is_review, Entity, kyb_provider, sanctions_check, wallet_risk_check, usd_risk, Screens,
  Check, CheckRow, Overall, approved, needs_review, rejected, overall_of, checks_of,
  run_compliance_checks, ComplianceOutcome, ComplianceError, ScreenedPayment, notional,
  transaction_risk_provider, corridor_ok, corridor_verdict, corridor_risk_provider,
}
use settlementos.Compliance.Clearing.{
  passes, ands, both_of, CleanLeg, CleanParties, kyb_provider_clear, usd_risk_clear,
  wallet_risk_check_clear, sanctions_check_clear,
}

abbrev cleared_by : Check → Bool
cleared_by c = passes c.result

step_clear :
    (a b x y c : Bool) → (x || y) ≡ not c → ((a || x) || (b || y)) ≡ not ((not a && not b) && c)
step_clear a b x y c h = ground arith

-- Some check fails or needs a review exactly if not all are clear.
flagged_not_clear :
    (cs : List Check)
    → (any (λ (c : Check). is_fail c.result.status) cs
        || any (λ (c : Check). is_review c.result.status) cs)
      ≡ not (all cleared_by cs)
flagged_not_clear [] = refl
flagged_not_clear (c ∷ cs) =
    step_clear (is_fail c.result.status) (is_review c.result.status) _ _ _ (flagged_not_clear cs)

verdict_of :
    (f r clear : Bool)
    → (f || r) ≡ not clear
    → ((if f then rejected else if r then needs_review else approved) ≡ approved) ↔ (clear ≡ true)
verdict_of true r true h = (λ x. refl, λ x. cc)
verdict_of true r false h = (λ x. cc, λ x. cc)
verdict_of false true true h = (λ x. refl, λ x. cc)
verdict_of false true false h = (λ x. cc, λ x. cc)
verdict_of false false true h = (λ x. refl, λ x. refl)
verdict_of false false false h = (λ x. cc, λ x. cc)

overall_of_clear : (cs : List Check) → (overall_of cs ≡ approved) ↔ (all cleared_by cs ≡ true)
unfolding overall_of
overall_of_clear cs = verdict_of _ _ (all cleared_by cs) (flagged_not_clear cs)

-- A party that the corridor is open for.
abbrev pub Approves : Entity → String → String → Type 0
Approves e source dest =
    (source ≡ dest)
    ⊎ ((cs : List String) × (e.approved_corridors ≡ some cs)
        × (any (λ c. str_eq c (corridor_code source dest)) cs ≡ true))

-- A payment that every check clears.
pub record Cleared (n : Numbers) (screens : Screens n) (p : ScreenedPayment) : Type 0 where
  pub sender_known : p.from.kyb_status ≡ "PASSED"
  pub recipient_known : p.to.kyb_status ≡ "PASSED"
  pub sanctions : CleanParties n screens.open_sanctions p.from p.to
  pub sender_leg : CleanLeg screens.oracle (wallet_on_network p.from.wallets p.source_network)
  pub recipient_leg : CleanLeg screens.oracle (wallet_on_network p.to.wallets p.destination_network)
  pub usd : ℕ
  pub usd_known : notional p.amount p.source_currency ≡ ok usd
  pub bounded : usd ≤ 250_000_00
  pub sender_corridor : Approves p.from p.source_currency p.destination_currency
  pub recipient_corridor : Approves p.to p.source_currency p.destination_currency

looked_up :
    (o : Option (List String)) (source dest : String) (b : Bool)
    → (elim o [
      | none ↦ err Checks.unparsable_corridors
      | some cs ↦ ok (any (λ c. str_eq c (corridor_code source dest)) cs)
    ])
      ≡ ok b
    → (b ≡ true) ↔ (
        (cs : List String) × (o ≡ some cs)
        × (any (λ c. str_eq c (corridor_code source dest)) cs ≡ true))
looked_up none source dest b h = cc
looked_up (some cs) source dest b h =
    let found : any (λ c. str_eq c (corridor_code source dest)) cs ≡ b = cc in
    (
      λ x. (cs, refl, found ∙ x),
      λ x.
          let same : x.0 ≡ cs = cc (sym x.1) in
          sym found
          ∙ subst (λ (ds : List String). any (λ c. str_eq c (corridor_code source dest)) ds ≡ true)
              same x.2,
    )

same_ok : (a b : Bool) (m : Result ComplianceError Bool) → m ≡ ok a → m ≡ ok b → a ≡ b
same_ok a b m h k = cc

corridor_ok_iff :
    (e : Entity) (source dest : String) (b : Bool)
    → corridor_ok e source dest ≡ ok b
    → (b ≡ true) ↔ Approves e source dest
unfolding corridor_ok
corridor_ok_iff e source dest b h = elim (Bool-cases (str_eq source dest)) [
  | inl k ↦ (
    λ x. inl ((eq_iff source dest).0 k),
    λ x. sym (same_ok true b (corridor_ok e source dest) (rw k refl) h),
  )
  | inr k ↦
      let known = looked_up e.approved_corridors source dest b (rw k at h) in
      (
        λ x. inr (known.0 x),
        λ x. elim x [ inl same ↦ cc (sym k ∙ (eq_iff source dest).1 same) | inr y ↦ known.1 y ],
      )
]

corridor_verdict_clear : (b : Bool) → (passes (corridor_verdict b) ≡ true) ↔ (b ≡ true)
corridor_verdict_clear true = (λ x. refl, λ x. refl)
corridor_verdict_clear false = (λ x. cc, λ x. cc)

corridor_clear :
    (s r : Entity) (source dest : String) (v : ProviderResult)
    → corridor_risk_provider s r source dest ≡ ok v
    → (passes v ≡ true) ↔ (Approves s source dest × Approves r source dest)
unfolding corridor_risk_provider
corridor_clear s r source dest v h =
    let (a, ha, rest) = >>=-eq-ok (corridor_ok s source dest) _ h in
    let (b, hb, last) = >>=-eq-ok (corridor_ok r source dest) _ rest in
    let same : corridor_verdict (a && b) ≡ v = cc in
    let from = corridor_ok_iff s source dest a ha in
    let to = corridor_ok_iff r source dest b hb in
    let verdict = corridor_verdict_clear (a && b) in
    rw (← same) (
      λ x. let k = both_of (verdict.0 x) in (from.0 k.0, to.0 k.1),
      λ x. verdict.1 (ands (from.1 x.0) (to.1 x.1)),
    )

transaction_clear :
    (amount : Text) (source : String) (v : ProviderResult)
    → transaction_risk_provider amount source ≡ ok v
    → (passes v ≡ true) ↔ ((usd : ℕ) × (notional amount source ≡ ok usd) × (usd ≤ 250_000_00))
unfolding transaction_risk_provider
transaction_clear amount source v h =
    let (usd, known, last) = >>=-eq-ok (notional amount source) _ h in
    let same : usd_risk usd ≡ v = cc in
    rw (← same) (
      λ x. (usd, known, (usd_risk_clear usd).0 x),
      λ x.
          let equal : x.0 ≡ usd = cc (x.1, known) in
          (usd_risk_clear usd).1 (subst (λ (k : ℕ). k ≤ 250_000_00) equal x.2),
    )

abbrev ok_checks : List Check → Result ComplianceError (List Check)
ok_checks cs = ok cs

abbrev ok_outcome :
    ComplianceOutcome → List CheckRow → Result ComplianceError (ComplianceOutcome × List CheckRow)
ok_outcome o rs = ok (o, rs)

ok_list : {cs ds : List Check} → ok_checks cs ≡ ok ds → cs ≡ ds
ok_list h = cc

outcome_same :
    {o q : ComplianceOutcome} {rs ss : List CheckRow} → ok_outcome o rs ≡ ok (q, ss) → o ≡ q
outcome_same h = cc

checks_of_clear :
    (n : Numbers) (screens : Screens n) (p : ScreenedPayment) (cs : List Check)
    → checks_of n screens p ≡ ok cs
    → (all cleared_by cs ≡ true) ↔ Cleared n screens p
unfolding checks_of
checks_of_clear n screens p cs h =
    let (tx, tx_known, rest) =
      >>=-eq-ok (transaction_risk_provider p.amount p.source_currency) _ h in
    let (corridor, corridor_known, last) =
      >>=-eq-ok (corridor_risk_provider p.from p.to p.source_currency p.destination_currency) _
        rest in
    let from = kyb_provider_clear p.from sender in
    let to = kyb_provider_clear p.to recipient in
    let listed = sanctions_check_clear n screens p.from p.to in
    let from_leg =
      wallet_risk_check_clear screens.oracle (wallet_on_network p.from.wallets p.source_network) in
    let to_leg =
      wallet_risk_check_clear screens.oracle
        (wallet_on_network p.to.wallets p.destination_network) in
    let amount = transaction_clear p.amount p.source_currency tx tx_known in
    let open_for =
      corridor_clear p.from p.to p.source_currency p.destination_currency corridor corridor_known in
    subst (λ (ds : List Check). (all cleared_by ds ≡ true) ↔ Cleared n screens p) (ok_list last)
      (
        λ x.
            let a = both_of x in
            let b = both_of a.1 in
            let c = both_of b.1 in
            let d = both_of c.1 in
            let e = both_of d.1 in
            let f = both_of e.1 in
            let g = both_of f.1 in
            let money = amount.0 f.0 in
            let corridors = open_for.0 g.0 in
            record {
              sender_known = from.0 a.0;
              recipient_known = to.0 b.0;
              sanctions = listed.0 c.0;
              sender_leg = from_leg.0 d.0;
              recipient_leg = to_leg.0 e.0;
              usd = money.0;
              usd_known = money.1;
              bounded = money.2;
              sender_corridor = corridors.0;
              recipient_corridor = corridors.1;
            },
        λ c. ands (from.1 c.sender_known) (
            ands (to.1 c.recipient_known) (
              ands (listed.1 c.sanctions) (
                ands (from_leg.1 c.sender_leg) (
                  ands (to_leg.1 c.recipient_leg) (
                    ands (amount.1 (c.usd, c.usd_known, c.bounded))
                      (ands (open_for.1 (c.sender_corridor, c.recipient_corridor)) refl)))))),
      )

-- A run of the compliance checks that returns approves the payment if and only if both parties have
-- passed KYB; their screening was answered with status 200 and a body in which no match and no
-- possible match is found, which a body without results is too, or, without the service, neither
-- name says sanctioned; the wallet of each leg is registered, allowlisted, and found not sanctioned
-- by an oracle that answered or, without one, scored at most 40; the payment is worth at most
-- 250,000 dollars; and both parties have the corridor approved, unless the currencies are the same.
pub run_compliance_checks_approves :
    (n : Numbers) (screens : Screens n) (p : ScreenedPayment) (rows after : List CheckRow)
    (outcome : ComplianceOutcome)
    → run_compliance_checks n screens p rows ≡ ok (outcome, after)
    → (outcome.overall ≡ approved) ↔ Cleared n screens p
unfolding run_compliance_checks
run_compliance_checks_approves n screens p rows after outcome h =
    let (cs, known, last) = >>=-eq-ok (checks_of n screens p) _ h in
    let same : overall_of cs ≡ outcome.overall =
      ap (λ (o : ComplianceOutcome). o.overall) (outcome_same last) in
    let verdict = overall_of_clear cs in
    let checked = checks_of_clear n screens p cs known in
    rw (← same) (λ x. checked.0 (verdict.0 x), λ x. verdict.1 (checked.1 x))
