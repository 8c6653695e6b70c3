-- ===== src/Executor/Facts.antt =====
-- What the rows and the chains have to do with each other, and how each step of money changes it.
use settlementos.Base.{
  ◌≡◌, refl, ℕ, Bool, true, false, ◌||◌, ◌⊎◌, inl, List, [], ◌∷◌, Option, none, some,
}
use settlementos.Base.Texts.{String}
use settlementos.Lifecycle.{
  PaymentStatus, includes, approved, liquidity_reserved, submitted_onchain, confirmed_onchain,
  fx_or_swap_completed, payout_pending, settled, compensation_pending, compensated, failed,
  refunded,
}
use settlementos.Executor.State.{State, EscrowState, absent, released, returned}
use settlementos.Executor.Steps.{is_none}

-- Whether a transfer of the list succeeds.
abbrev pub landed : List Bool → Bool
landed [] = false
landed (b ∷ bs) = b || landed bs

-- A status at which the sender is owed, or has, a make-good.
abbrev pub compensating : PaymentStatus → Bool
compensating s = includes (compensation_pending ∷ compensated ∷ []) s

-- A status of a payment under way.
abbrev pub under_way : PaymentStatus → Bool
under_way s =
    includes
      (liquidity_reserved ∷ submitted_onchain ∷ confirmed_onchain ∷ fx_or_swap_completed
        ∷ payout_pending ∷ settled ∷ [])
      s

-- A status that follows the release of the escrow.
abbrev pub after_release : PaymentStatus → Bool
after_release s = includes (fx_or_swap_completed ∷ payout_pending ∷ []) s

-- The facts that hold between any two operations: of the status, the escrow, the payouts, the
-- make-goods, whether a payout is orphaned, the credit, and the payout's hash on the row.
pub record Facts (st : PaymentStatus) (e : EscrowState) (ps ms : List Bool) (o : Bool)
    (c : Option String) (h : Option ℕ) : Type 0 where
  pub early : st ≡ approved → (e ≡ absent) × (ps ≡ []) × (c ≡ none)
  pub payouts : (ps ≡ []) ⊎ (e ≡ released)
  pub credit : (c ≡ none) ⊎ ((e ≡ released) × ((ps ≡ []) ⊎ (ps ≡ true ∷ [])))
  pub makegoods : (ms ≡ []) ⊎ (compensating st ≡ true)
  pub owed :
      compensating st ≡ true → (e ≡ released) × (c ≡ none) × ((o ≡ true) ⊎ (landed ps ≡ false))
  pub hash : (h ≡ none) ⊎ ((h ≡ some 0) × ((b : Bool) × (ps ≡ b ∷ [])))
  pub paid : st ≡ settled → is_none c ≡ false
  pub repaid : st ≡ compensated → landed ms ≡ true
  pub given_back : st ≡ refunded → e ≡ returned

abbrev pub Sound : State → Type 0
Sound s =
    Facts s.row.status s.chain.escrow s.chain.payouts s.chain.makegoods s.chain.orphaned s.credit
      s.row.destination_tx_hash

-- How the hash that the executor remembers stands to the payouts.
abbrev pub Known : List Bool → Bool → Option ℕ → Type 0
Known ps o h =
    ((ps ≡ []) × (h ≡ none))
    ⊎ (((h ≡ some 0) × ((b : Bool) × (ps ≡ b ∷ []))) ⊎ ((ps ≡ true ∷ []) × (o ≡ true) × (h ≡ none)))

-- The facts inside the `try` of an execution, with the variable's status and hash.
pub record InRun (st : PaymentStatus) (e : EscrowState) (ps ms : List Bool) (o : Bool)
    (c : Option String) (h : Option ℕ) (lst : PaymentStatus) (lh : Option ℕ) : Type 0 where
  pub facts : Facts st e ps ms o c h
  pub fresh : ms ≡ []
  pub active : under_way st ≡ true
  pub released_at : after_release lst ≡ true → e ≡ released
  pub known : Known ps o lh

abbrev pub RunningAt : PaymentStatus → Option ℕ → State → Type 0
RunningAt lst lh s =
    InRun s.row.status s.chain.escrow s.chain.payouts s.chain.makegoods s.chain.orphaned s.credit
      s.row.destination_tx_hash lst lh

abbrev pub Running : State → Type 0
Running s = RunningAt s.local.status s.local.destination_tx_hash s

pub under_way-compensating : (s : PaymentStatus) → under_way s ≡ true → compensating s ≡ false
under_way-compensating approved h = cc
under_way-compensating compensation_pending h = cc
under_way-compensating compensated h = cc
under_way-compensating _ h = refl

module _ {st : PaymentStatus} {ps ms : List Bool} {o : Bool} where
  -- A payment without make-goods may be under way at any status, once it has its credit if it is
  -- settled there.
  pub Facts-moved :
      {e : EscrowState} {c : Option String} {h : Option ℕ} (to : PaymentStatus)
      → Facts st e ps ms o c h
      → ms ≡ []
      → under_way to ≡ true
      → (to ≡ settled → is_none c ≡ false)
      → Facts to e ps ms o c h
  Facts-moved to f fresh k p = record {
    early = λ x. cc;
    payouts = f.payouts;
    credit = f.credit;
    makegoods = inl fresh;
    owed = λ x. cc (under_way-compensating to k);
    hash = f.hash;
    paid = p;
    repaid = λ x. cc;
    given_back = λ x. cc;
  }

  pub Facts-failed :
      {e : EscrowState} {c : Option String} {h : Option ℕ}
      → Facts st e ps ms o c h
      → ms ≡ []
      → Facts failed e ps ms o c h
  Facts-failed f fresh = record {
    early = λ x. cc;
    payouts = f.payouts;
    credit = f.credit;
    makegoods = inl fresh;
    owed = λ x. cc;
    hash = f.hash;
    paid = λ x. cc;
    repaid = λ x. cc;
    given_back = λ x. cc;
  }

  pub Facts-refunded :
      {e : EscrowState} {c : Option String} {h : Option ℕ}
      → Facts st e ps ms o c h
      → ms ≡ []
      → e ≡ returned
      → Facts refunded e ps ms o c h
  Facts-refunded f fresh back = record {
    early = λ x. cc;
    payouts = f.payouts;
    credit = f.credit;
    makegoods = inl fresh;
    owed = λ x. cc;
    hash = f.hash;
    paid = λ x. cc;
    repaid = λ x. cc;
    given_back = λ x. back;
  }
