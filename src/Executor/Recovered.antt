-- ===== src/Executor/Recovered.antt =====
-- Completing and compensating keep the facts.
use settlementos.Base.{
  ◌≡◌, refl, sym, subst, ℕ, Bool, true, false, ◌⊎◌, inl, inr, List, [], ◌∷◌, Option, none, some,
  arith,
}
use settlementos.Base.Texts.{String}
use settlementos.Lifecycle.{PaymentStatus, settled}
use settlementos.Executor.State.{State, Payment, EscrowState, released}
use settlementos.Executor.Calls.{audit}
use settlementos.Executor.Steps.{is_none}
use settlementos.Executor.Recovery.{
  credit_recipient, credit_unless_paid, carry_hash, complete_settled_payout,
}
use settlementos.Executor.Rules.{
  Ensures, pure-Ensures, bind-Ensures, read-Ensures, write-Ensures, payment-Ensures, relax, weaken,
}
use settlementos.Executor.Moves.{set_status-Ensures}
use settlementos.Executor.Receipts.{reservation-Keeps}
use settlementos.Executor.Facts.{Facts, Sound, under_way, Facts-moved}
use settlementos.Executor.Effects.{Facts-credited, Facts-recorded}

-- An event of its own changes none of the facts.
pub audit-Ensures :
    {P : State → Type 0} (action : String) {R : State → Type 0}
    → ((s : State) → P s → R s)
    → ((s : State) (l : _) → P s → P (record s { log = l }))
    → Ensures P (audit action) (λ _. P) R
audit-Ensures action h k = write-Ensures h (λ s p. h _ (k s _ p)) (λ s p. k s _ p)

-- The hash that the executor remembers is of the one payout, if there is one.
abbrev pub Remembered : Option ℕ → List Bool → Type 0
Remembered h ps = (h ≡ none) ⊎ ((h ≡ some 0) × ((b : Bool) × (ps ≡ b ∷ [])))

-- A payment under way whose recipient may be credited.
abbrev pub Payable : State → Type 0
Payable s =
    Sound s
    × (s.chain.makegoods ≡ [])
    × (under_way s.row.status ≡ true)
    × (s.chain.escrow ≡ released)
    × ((s.chain.payouts ≡ []) ⊎ (s.chain.payouts ≡ true ∷ []))

abbrev pub Completable : State → Type 0
Completable s = Payable s × Remembered s.local.destination_tx_hash s.chain.payouts

Facts-carried :
    {st : PaymentStatus} {e : EscrowState} {ps ms : List Bool} {o : Bool} {c : Option String}
    (h : Option ℕ) (row : Payment)
    → Remembered h ps
    → Facts st e ps ms o c row.destination_tx_hash
    → Facts st e ps ms o c (carry_hash h row).destination_tx_hash
Facts-carried none row r f = f
Facts-carried (some n) row (inl e) f = cc
Facts-carried {st} {e} {ps} {ms} {o} {c} (some n) row (inr (same, one)) f =
    subst (λ x. Facts st e ps ms o c x) (sym same) (Facts-recorded f one)

credited : (amount : String) (s : State) → Payable s → Payable (record s { credit = some amount })
credited amount s (f, fresh, k, free, good) =
    (Facts-credited amount f k free good, fresh, k, free, good)

-- Crediting the recipient of a payment that may be credited.
pub credit_recipient-Ensures :
    {X : State → Type 0} (amount : String)
    → ((s : State) (l : _) → X s → X (record s { log = l }))
    → ((s : State) (l : _) → X s → X (record s { credit = l }))
    → Ensures
        (λ s. Payable s × X s)
        (credit_recipient amount)
        (λ _ s. Payable s × X s × (is_none s.credit ≡ false))
        (λ s. Payable s × X s)
credit_recipient-Ensures {X} amount log_free credit_free =
    bind-Ensures {Q = λ _ s. Payable s × X s × (is_none s.credit ≡ false)}
      (write-Ensures (λ s p. p) (λ s p. (credited amount s p.0, credit_free s _ p.1))
        (λ s p. (credited amount s p.0, credit_free s _ p.1, refl)))
      (λ u. audit-Ensures _ (λ s p. (p.0, p.1)) (λ s l p. (p.0, log_free s l p.1, p.2)))

credit_unless_paid-Ensures :
    (amount : String) (c : Option String)
    → Ensures
        (λ s. Completable s × (c ≡ s.credit))
        (credit_unless_paid amount c)
        (λ _ s. Completable s × (is_none s.credit ≡ false))
        Sound
credit_unless_paid-Ensures amount none =
    relax
      (weaken
        (credit_recipient-Ensures {X = λ s. Remembered s.local.destination_tx_hash s.chain.payouts}
          amount (λ s l x. x) (λ s l x. x))
        (λ s p. p.0))
      (λ a s q. ((q.0, q.1), q.2)) (λ s q. q.0.0)
credit_unless_paid-Ensures amount (some a) = pure-Ensures _ (λ s p. (p.0, ground (arith, p.1)))

settled-Facts :
    (p : Payment) (s : State) (from : PaymentStatus)
    → (Completable s × (is_none s.credit ≡ false))
      × (p.destination_tx_hash ≡ s.local.destination_tx_hash)
    → Facts settled s.chain.escrow s.chain.payouts s.chain.makegoods s.chain.orphaned s.credit
        (carry_hash p.destination_tx_hash s.row).destination_tx_hash
settled-Facts p s from ((((f, fresh, k, free, good), known), paid), same) =
    Facts-carried p.destination_tx_hash s.row
      (subst (λ h. Remembered h s.chain.payouts) (sym same) known)
      (Facts-moved settled f fresh refl (λ e. paid))

-- Completing a payment whose recipient may be credited.
pub complete_settled_payout-Ensures :
    (amount : String) → Ensures Completable (complete_settled_payout amount) (λ _. Sound) Sound
unfolding complete_settled_payout
complete_settled_payout-Ensures amount =
    bind-Ensures
      (read-Ensures {Q = λ c s. Completable s × (c ≡ s.credit)} _ (λ s p. p.0.0) (λ s p. (p, refl)))
      (λ c. bind-Ensures (credit_unless_paid-Ensures amount c) (λ u.
        bind-Ensures (relax (reservation-Keeps _ (λ s r p. p)) (λ a s q. q) (λ s q. q.0.0.0)) (λ u.
          bind-Ensures (audit-Ensures _ (λ s p. p.0.0.0) (λ s l p. p)) (λ u.
            bind-Ensures
              (payment-Ensures
                {Q = λ p s.
                  (Completable s × (is_none s.credit ≡ false))
                  × (p.destination_tx_hash ≡ s.local.destination_tx_hash)}
                (λ s p. (p, refl)))
              (λ p.
                set_status-Ensures _ _ (λ s q. q.0.0.0.0) (settled-Facts p) (settled-Facts p))))))
