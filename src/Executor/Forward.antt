-- ===== src/Executor/Forward.antt =====
-- The steps forward of an execution keep what its `catch` relies on.
use settlementos.Base.{
  ◌≡◌, ◌≢◌, refl, sym, subst, ℕ, Bool, true, false, inl, List, [], if◌then◌else◌, Option, none,
  arith,
}
use settlementos.Base.Texts.{String}
use settlementos.Lifecycle.{PaymentStatus, settled}
use settlementos.Executor.State.{State, Payment, EscrowState, absent, initiated, released, returned}
use settlementos.Executor.Calls.{M}
use settlementos.Executor.Steps.{
  is_none, mined, initiate_payment, settle_payment, operator_write, advance,
}
use settlementos.Executor.Rules.{Ensures, call-Ensures}
use settlementos.Executor.Moves.{advance-Ensures}
use settlementos.Executor.Facts.{
  Facts, InRun, Known, Running, under_way, after_release, Facts-moved,
}
use settlementos.Executor.Effects.{Facts-mined}

pub if-Ensures {ℓ} :
    {A : Type ℓ} {P R : State → Type 0} {Q : A → State → Type 0} (b : Bool) {m n : M A}
    → (b ≡ true → Ensures P m Q R)
    → (b ≡ false → Ensures P n Q R)
    → Ensures P (if b then m else n) Q R
if-Ensures true h k = h refl
if-Ensures false h k = k refl

-- A call of the contract.
pub operator-Ensures :
    {P R : State → Type 0} {Q : ℕ → State → Type 0} (contract : EscrowState → Option EscrowState)
    → ((s : State) → P s → R s)
    → ((s : State) (w : ℕ)
        → P s
        → R (record s {
          chain = record s.chain {
            escrow = mined (contract s.chain.escrow) s.chain.escrow;
            writes = w;
          };
        }))
    → ((s : State) (n w : ℕ)
        → P s
        → is_none (contract s.chain.escrow) ≡ false
        → Q n (record s {
          chain = record s.chain {
            escrow = mined (contract s.chain.escrow) s.chain.escrow;
            writes = w;
          };
        }))
    → Ensures P (operator_write contract) Q R
unfolding operator_write
operator-Ensures contract h k l =
    call-Ensures h (λ s p. k s _ p) (λ s n p e. l s n _ p (ground arith))

pub initiate-released : (e : EscrowState) → e ≡ released → mined (initiate_payment e) e ≡ released
initiate-released absent h = cc
initiate-released initiated h = cc
initiate-released released h = refl
initiate-released returned h = cc

pub settle-released :
    (e : EscrowState)
    → (e ≡ released → mined (settle_payment e) e ≡ released)
      × (is_none (settle_payment e) ≡ false → mined (settle_payment e) e ≡ released)
settle-released absent = (λ h. cc, λ h. cc)
settle-released initiated = (λ h. refl, λ h. refl)
settle-released released = (λ h. refl, λ h. cc)
settle-released returned = (λ h. cc, λ h. cc)

-- A payment under way whose recipient has nothing yet.
abbrev pub Unpaid : State → Type 0
Unpaid s = Running s × (s.chain.payouts ≡ []) × (s.credit ≡ none)

-- The same, with its escrow released.
abbrev pub Releasing : State → Type 0
Releasing s = Unpaid s × (s.chain.escrow ≡ released)

module _ {st lst : PaymentStatus} {ps ms : List Bool} {o : Bool} {h lh : Option ℕ} where
  pub InRun-mined :
      {e : EscrowState} {c : Option String} (after : EscrowState)
      → InRun st e ps ms o c h lst lh
      → ps ≡ []
      → c ≡ none
      → (e ≡ released → after ≡ released)
      → InRun st after ps ms o c h lst lh
  InRun-mined after r unsent unpaid stays = record {
    facts = Facts-mined after r.facts r.active unsent unpaid;
    fresh = r.fresh;
    active = r.active;
    released_at = λ x. stays (r.released_at x);
    known = r.known;
  }

  pub InRun-moved :
      {e : EscrowState} {c : Option String} (to : PaymentStatus)
      → InRun st e ps ms o c h lst lh
      → under_way to ≡ true
      → (to ≡ settled → is_none c ≡ false)
      → InRun to e ps ms o c h lst lh
  InRun-moved to r k paid = record {
    facts = Facts-moved to r.facts r.fresh k paid;
    fresh = r.fresh;
    active = k;
    released_at = r.released_at;
    known = r.known;
  }

  pub InRun-assigned :
      {e : EscrowState} {c : Option String} (lst' : PaymentStatus) (lh' : Option ℕ)
      → InRun st e ps ms o c h lst lh
      → (after_release lst' ≡ true → e ≡ released)
      → Known ps o lh'
      → InRun st e ps ms o c h lst' lh'
  InRun-assigned lst' lh' r free known = record {
    facts = r.facts;
    fresh = r.fresh;
    active = r.active;
    released_at = free;
    known = known;
  }

pub no_hash :
    {st : PaymentStatus} {e : EscrowState} {ps ms : List Bool} {o : Bool} {c : Option String}
    {h : Option ℕ}
    → Facts st e ps ms o c h
    → ps ≡ []
    → h ≡ none
no_hash f unsent = ground (arith, f.hash, unsent)

-- A change of status before the payout, with what is known of the escrow.
pub advance-Unpaid :
    (F : EscrowState → Type 0) (to : PaymentStatus) (columns : Payment → Payment)
    → ((e : EscrowState) → F e → after_release to ≡ true → e ≡ released)
    → under_way to ≡ true
    → to ≢ settled
    → ((row : Payment) → (columns row).destination_tx_hash ≡ row.destination_tx_hash)
    → Ensures
        (λ s. Unpaid s × F s.chain.escrow)
        (advance to columns)
        (λ _ s. Unpaid s × F s.chain.escrow)
        Running
advance-Unpaid F to columns free k unsettled same =
    advance-Ensures _ _ (λ s p. p.0.0)
      (λ s from p.
        subst
          (λ x.
            InRun to s.chain.escrow s.chain.payouts s.chain.makegoods s.chain.orphaned s.credit x
              s.local.status s.local.destination_tx_hash)
          (sym (same s.row)) (InRun-moved to p.0.0 k (λ e. absurd (unsettled e))))
      (λ s from p.
        let (r, unsent, unpaid) = p.0 in
        (
          (
            subst
                (λ x.
                  InRun to s.chain.escrow s.chain.payouts s.chain.makegoods s.chain.orphaned
                    s.credit x to x)
                (sym (same s.row))
                (InRun-assigned to s.row.destination_tx_hash
                  (InRun-moved to r k (λ e. absurd (unsettled e))) (free _ p.1)
                  (inl (unsent, no_hash r.facts unsent))),
            unsent,
            unpaid,
          ),
          p.1,
        ))
