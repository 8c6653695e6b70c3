-- ===== src/Executor/Undoing.antt =====
-- The `catch` of an execution ends soundly, whatever threw.
use settlementos.Base.{
  ◌≡◌, ◌≢◌, refl, ap, sym, ℕ, Bool, true, false, ◌⊎◌, inl, inr, List, [], ◌∷◌, Option, none, some,
  arith,
}
use settlementos.Base.Texts.{String}
use settlementos.Lifecycle.{PaymentStatus}
use settlementos.Executor.State.{
  State, Payment, EscrowState, absent, initiated, released, returned, TransactionOutcome, confirmed,
  reverted, unknown,
}
use settlementos.Executor.Calls.{receipt}
use settlementos.Executor.Steps.{is_none, mined, fail_and_refund}
use settlementos.Executor.Recovery.{payout_found, reconcile_hash}
use settlementos.Executor.Run.{settled_onchain}
use settlementos.Executor.Rules.{Ensures, pure-Ensures, bind-Ensures, payment-Ensures, weaken}
use settlementos.Executor.Receipts.{Read, transaction_outcome-Ensures}
use settlementos.Executor.Facts.{Known, Sound, Running, landed, after_release}
use settlementos.Executor.Recovered.{Completable, audit-Ensures, complete_settled_payout-Ensures}

-- A payment under way whose recipient was not paid, but for an orphaned payout.
abbrev pub Undoable : State → Type 0
Undoable s =
    Running s × (s.credit ≡ none) × ((s.chain.orphaned ≡ true) ⊎ (landed s.chain.payouts ≡ false))

abbrev pub Decided : Option Payment → State → Type 0
Decided none s = Undoable s
Decided (some p) s = Sound s

forgotten :
    (ps : List Bool) (o : Bool) (h : Option ℕ)
    → Known ps o h
    → h ≡ none
    → (o ≡ true) ⊎ (landed ps ≡ false)
forgotten ps o h (inl (e, k)) n = inr (ap landed e)
forgotten ps o h (inr (inl (k, e))) n = cc
forgotten ps o h (inr (inr (e, o', k))) n = inl o'

-- What the receipt of the remembered hash says of the payouts.
pub read_payout :
    (ps : List Bool) (o : Bool) (h : Option ℕ) (hash : ℕ) (b : Bool)
    → Known ps o h
    → some hash ≡ h
    → receipt hash ps ≡ some b
    → (h ≡ some 0) × (ps ≡ b ∷ [])
unfolding receipt
read_payout ps o h hash b (inl (e, k)) n r = cc
read_payout ps o h hash b (inr (inr (e, o', k))) n r = cc
read_payout ps o h hash b (inr (inl (k, (x, e)))) n r =
    let zero : hash ≡ 0 = cc in
    let there : receipt 0 (x ∷ []) ≡ some b = cc in
    let good : x ≡ b = ground (arith, there) in (k, cc)

completable :
    (s : State)
    → Running s
    → s.chain.payouts ≡ true ∷ []
    → s.local.destination_tx_hash ≡ some 0
    → Completable s
completable s r one first = (
  (r.facts, r.fresh, r.active, ground (arith, r.facts.payouts, one), inr one),
  inr (first, (true, one)),
)

payout_found-Ensures :
    (amount : String) (hash : ℕ) (o : TransactionOutcome)
    → Ensures
        (λ s.
          ((Running s × (s.credit ≡ none)) × (some hash ≡ s.local.destination_tx_hash))
          × Read (λ s. s.chain.payouts) hash o s)
        (payout_found amount o)
        Decided
        Sound
payout_found-Ensures amount hash confirmed =
    bind-Ensures {Q = λ _. Sound}
      (weaken (complete_settled_payout-Ensures amount) (λ s p.
        let (((r, unpaid), there), (good, bad)) = p in
        let (first, one) =
          read_payout s.chain.payouts s.chain.orphaned s.local.destination_tx_hash hash true r.known
            there (good refl) in
        completable s r one first))
      (λ p. pure-Ensures _ (λ s q. q))
payout_found-Ensures amount hash unknown =
    bind-Ensures (audit-Ensures _ (λ s p. p.0.0.0.facts) (λ s l p. p)) (λ u.
      bind-Ensures {Q = λ _. Sound} (payment-Ensures (λ s p. p.0.0.0.facts))
        (λ p. pure-Ensures _ (λ s q. q)))
payout_found-Ensures amount hash reverted = pure-Ensures _ (λ s p.
    let (((r, unpaid), there), (good, bad)) = p in
    let (first, one) =
      read_payout s.chain.payouts s.chain.orphaned s.local.destination_tx_hash hash false r.known
        there (bad refl) in
    (r, unpaid, inr (ap landed one)))

pub reconcile_hash-Ensures :
    (amount : String) (h : Option ℕ)
    → Ensures
        (λ s. (Running s × (s.credit ≡ none)) × (h ≡ s.local.destination_tx_hash))
        (reconcile_hash amount h)
        Decided
        Sound
reconcile_hash-Ensures amount none = pure-Ensures _ (λ s p. (
  p.0.0,
  p.0.1,
  forgotten s.chain.payouts s.chain.orphaned s.local.destination_tx_hash p.0.0.known (sym p.1),
))
reconcile_hash-Ensures amount (some hash) =
    bind-Ensures (transaction_outcome-Ensures _ hash) (payout_found-Ensures amount hash)

-- The escrow that the code finds released is released.
pub settled_onchain-released :
    (read : Option EscrowState) (e : EscrowState) (lst : PaymentStatus)
    → (read ≡ none) ⊎ (read ≡ some e)
    → (after_release lst ≡ true → e ≡ released)
    → settled_onchain read lst ≡ true
    → e ≡ released
settled_onchain-released none e lst k free h = free h
settled_onchain-released (some released) e lst (inl k) free h = cc
settled_onchain-released (some released) e lst (inr k) free h = cc
settled_onchain-released (some absent) e lst k free h = cc
settled_onchain-released (some initiated) e lst k free h = cc
settled_onchain-released (some returned) e lst k free h = cc

pub refunded_escrow :
    (e : EscrowState)
    → is_none (fail_and_refund e) ≡ false
    → (e ≢ released) × (mined (fail_and_refund e) e ≡ returned)
refunded_escrow initiated h = (λ x. cc, refl)
refunded_escrow absent h = cc
refunded_escrow released h = cc
refunded_escrow returned h = cc
