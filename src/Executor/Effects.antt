-- ===== src/Executor/Effects.antt =====
-- How each step that moves money changes the facts of a payment.
use settlementos.Base.{
  ◌≡◌, ◌≢◌, refl, ℕ, Bool, true, false, ◌⊎◌, inl, inr, List, [], ◌∷◌, Option, none, some, arith,
}
use settlementos.Base.Texts.{String}
use settlementos.Lifecycle.{PaymentStatus, compensation_pending, compensated}
use settlementos.Executor.State.{EscrowState, released}
use settlementos.Executor.Facts.{Facts, landed, compensating, under_way, under_way-compensating}

module _ {st : PaymentStatus} {ps ms : List Bool} {o : Bool} {h : Option ℕ} where
  -- What a payment must be for its sender to be owed a make-good.
  pub Facts-pending :
      {e : EscrowState} {c : Option String}
      → Facts st e ps ms o c h
      → e ≡ released
      → c ≡ none
      → (o ≡ true) ⊎ (landed ps ≡ false)
      → Facts compensation_pending e ps ms o c h
  Facts-pending f free unpaid failed_payout = record {
    early = λ x. cc;
    payouts = f.payouts;
    credit = f.credit;
    makegoods = inr refl;
    owed = λ x. (free, unpaid, failed_payout);
    hash = f.hash;
    paid = λ x. cc;
    repaid = λ x. cc;
    given_back = λ x. cc;
  }

  -- A make-good that landed pays the sender back.
  pub Facts-compensated :
      {e : EscrowState} {c : Option String}
      → Facts st e ps ms o c h
      → compensating st ≡ true
      → landed ms ≡ true
      → Facts compensated e ps ms o c h
  Facts-compensated f owing back = record {
    early = λ x. cc;
    payouts = f.payouts;
    credit = f.credit;
    makegoods = inr refl;
    owed = λ x. f.owed owing;
    hash = f.hash;
    paid = λ x. cc;
    repaid = λ x. back;
    given_back = λ x. cc;
  }

  -- Sending one leaves the facts of a payment that is owed one.
  pub Facts-sent :
      {e : EscrowState} {c : Option String} (b : Bool)
      → Facts st e ps ms o c h
      → compensating st ≡ true
      → Facts st e ps (b ∷ ms) o c h
  Facts-sent b f owing = record {
    early = f.early;
    payouts = f.payouts;
    credit = f.credit;
    makegoods = inr owing;
    owed = f.owed;
    hash = f.hash;
    paid = f.paid;
    repaid = λ x. ground (arith, f.repaid x);
    given_back = f.given_back;
  }

  -- The contract's steps change the escrow of a payment under way.
  pub Facts-mined :
      {e : EscrowState} {c : Option String} (after : EscrowState)
      → Facts st e ps ms o c h
      → under_way st ≡ true
      → ps ≡ []
      → c ≡ none
      → Facts st after ps ms o c h
  Facts-mined after f k unsent unpaid = record {
    early = λ x. cc;
    payouts = inl unsent;
    credit = inl unpaid;
    makegoods = f.makegoods;
    owed = λ x. cc (under_way-compensating st k);
    hash = f.hash;
    paid = f.paid;
    repaid = f.repaid;
    given_back = λ x. cc;
  }

  -- An escrow that is not released has neither a payout nor a credit.
  pub unreleased :
      {e : EscrowState} {c : Option String}
      → Facts st e ps ms o c h
      → e ≢ released
      → (ps ≡ []) × (c ≡ none)
  unreleased f held = (ground (arith, f.payouts, held), ground (arith, f.credit, held))

  -- The credit of a payment whose escrow is released and whose payout, if any, landed.
  pub Facts-credited :
      {e : EscrowState} {c : Option String} (amount : String)
      → Facts st e ps ms o c h
      → under_way st ≡ true
      → e ≡ released
      → (ps ≡ []) ⊎ (ps ≡ true ∷ [])
      → Facts st e ps ms o (some amount) h
  Facts-credited amount f k free good = record {
    early = λ x. cc;
    payouts = inr free;
    credit = inr (free, good);
    makegoods = f.makegoods;
    owed = λ x. cc (under_way-compensating st k);
    hash = f.hash;
    paid = λ x. refl;
    repaid = f.repaid;
    given_back = f.given_back;
  }

  -- A payout from a released escrow.
  pub Facts-paid :
      {e : EscrowState} {c : Option String} (b p : Bool)
      → Facts st e ps ms o c h
      → under_way st ≡ true
      → e ≡ released
      → ps ≡ []
      → c ≡ none
      → Facts st e (b ∷ []) ms p c h
  Facts-paid b p f k free unsent unpaid = record {
    early = λ x. cc;
    payouts = inr free;
    credit = inl unpaid;
    makegoods = f.makegoods;
    owed = λ x. cc (under_way-compensating st k);
    hash = ground (arith, f.hash, unsent);
    paid = f.paid;
    repaid = f.repaid;
    given_back = f.given_back;
  }

  -- Writing the payout's hash on the row.
  pub Facts-recorded :
      {e : EscrowState} {c : Option String}
      → Facts st e ps ms o c h
      → ((b : Bool) × (ps ≡ b ∷ []))
      → Facts st e ps ms o c (some 0)
  Facts-recorded f one = record {
    early = f.early;
    payouts = f.payouts;
    credit = f.credit;
    makegoods = f.makegoods;
    owed = f.owed;
    hash = inr (refl, one);
    paid = f.paid;
    repaid = f.repaid;
    given_back = f.given_back;
  }
