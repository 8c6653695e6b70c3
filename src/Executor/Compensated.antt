-- ===== src/Executor/Compensated.antt =====
-- Compensating the sender keeps the facts.
use settlementos.Base.{◌≡◌, refl, ℕ, true, false, ◌⊎◌, List, [], ◌∷◌, Option, none, some}
use settlementos.Base.Texts.{String}
use settlementos.Lifecycle.{compensated}
use settlementos.Executor.State.{
  State, released, Reply, works, lost, fails, reverts, TransactionOutcome, confirmed, reverted,
  unknown,
}
use settlementos.Executor.Calls.{receipt, audit}
use settlementos.Executor.Steps.{send_makegood, sent_makegood}
use settlementos.Executor.Recovery.{
  complete_compensation_from_confirmed, compensation_transfer, compensation_failed, persist_unless,
  settle_attempt, recover_attempt, recover_compensation, send_compensation, prior_attempt,
  after_attempt, run_compensation_transfer, compensate_sender,
}
use settlementos.Executor.Rules.{
  Ensures, Holds, pure-Ensures, throw-Ensures, bind-Ensures, try-Ensures, call-Ensures,
  read-Ensures, payment-Ensures, assign-Ensures, relax, weaken,
}
use settlementos.Executor.Moves.{set_status-Ensures, quietly-Keeps}
use settlementos.Executor.Receipts.{
  Read, receipt-landed, confirm-Ensures, transaction_outcome-Ensures,
}
use settlementos.Executor.Facts.{Facts, Sound, landed, compensating}
use settlementos.Executor.Effects.{Facts-pending, Facts-compensated, Facts-sent}
use settlementos.Executor.Recovered.{audit-Ensures}

-- A payment whose sender is owed a make-good, or has it.
abbrev pub Owing : State → Type 0
Owing s = Sound s × (compensating s.row.status ≡ true)

audit-Owing : (action : String) → Ensures Owing (audit action) (λ _. Owing) Owing
audit-Owing action = audit-Ensures action (λ s p. p) (λ s l p. p)

compensated-Facts :
    (s : State)
    → Owing s
    → landed s.chain.makegoods ≡ true
    → Facts compensated s.chain.escrow s.chain.payouts s.chain.makegoods s.chain.orphaned s.credit
        s.row.destination_tx_hash
compensated-Facts s (f, k) back = Facts-compensated f k back

-- Marking a payment compensated from a receipt that was read.
pub complete_compensation-Ensures :
    (hash : ℕ)
    → Ensures
        (λ s. Owing s × (receipt hash s.chain.makegoods ≡ some true))
        (complete_compensation_from_confirmed hash)
        (λ _. Sound)
        Sound
unfolding complete_compensation_from_confirmed
complete_compensation-Ensures hash =
    bind-Ensures (audit-Ensures _ (λ s p. p.0.0) (λ s l p. p)) (λ u.
      set_status-Ensures _ _ (λ s p. p.0.0)
        (λ s from p. compensated-Facts s p.0 (receipt-landed hash _ p.1))
        (λ s from p. compensated-Facts s p.0 (receipt-landed hash _ p.1)))

reply-Holds :
    (r : Reply) (s : State) (rs : List Reply)
    → Owing s
    → Holds (λ _. Owing) Owing (sent_makegood r s rs)
reply-Holds works s rs (f, k) = (Facts-sent true f k, k)
reply-Holds reverts s rs (f, k) = (Facts-sent false f k, k)
reply-Holds lost s rs (f, k) = (Facts-sent true f k, k)
reply-Holds fails s rs p = p

Holds-send : (s : State) (rs : List Reply) → Owing s → Holds (λ _. Owing) Owing (send_makegood s rs)
unfolding send_makegood
Holds-send s [] p = reply-Holds works s [] p
Holds-send s (r ∷ rs) p = reply-Holds r s rs p

compensation_transfer-Ensures : Ensures Owing compensation_transfer (λ _. Sound) Owing
unfolding compensation_transfer
compensation_transfer-Ensures =
    bind-Ensures {Q = λ _. Owing} (record { run = Holds-send })
      (λ hash. bind-Ensures (payment-Ensures {Q = λ _. Owing} (λ s p. p)) (λ p.
        bind-Ensures (assign-Ensures {Q = λ _. Owing} _ (λ s p. p)) (λ u.
          bind-Ensures {Q = λ _. Owing}
            (bind-Ensures (call-Ensures {Q = λ _. Owing} (λ s p. p) (λ s p. p) (λ s a p e. p))
              (λ a. assign-Ensures _ (λ s p. p)))
            (λ u. bind-Ensures (audit-Owing _) (λ u.
              bind-Ensures (confirm-Ensures _ hash (λ s p. p)) (λ u.
                bind-Ensures (audit-Ensures _ (λ s p. p.0) (λ s l p. p)) (λ u.
                  set_status-Ensures _ _ (λ s p. p.0)
                    (λ s from p. (compensated-Facts s p.0 (receipt-landed hash _ p.1), refl))
                    (λ s from p. compensated-Facts s p.0 (receipt-landed hash _ p.1)))))))))

compensation_failed-Ensures : Ensures Owing compensation_failed (λ _. Sound) Sound
compensation_failed-Ensures =
    bind-Ensures (relax (audit-Owing _) (λ a s p. p) (λ s p. p.0))
      (λ u. payment-Ensures (λ s p. p.0))

persist-Ensures :
    (hash : ℕ) (stored : Option ℕ) → Ensures Owing (persist_unless hash stored) (λ _. Owing) Sound
persist-Ensures hash (some h) = pure-Ensures _ (λ s p. p)
persist-Ensures hash none =
    relax (quietly-Keeps {I = Owing} _ _ (λ s p. p)) (λ a s p. p) (λ s p. p.0)

settle_attempt-Ensures :
    (hash : ℕ) (o : TransactionOutcome)
    → Ensures
        (λ s. Owing s × Read (λ s. s.chain.makegoods) hash o s)
        (settle_attempt hash o)
        (λ _. Sound)
        Sound
settle_attempt-Ensures hash confirmed =
    weaken (complete_compensation-Ensures hash) (λ s p. (p.0, p.1.0 refl))
settle_attempt-Ensures hash reverted = weaken compensation_failed-Ensures (λ s p. p.0)
settle_attempt-Ensures hash unknown = weaken compensation_failed-Ensures (λ s p. p.0)

recover_attempt-Ensures : (h : Option ℕ) → Ensures Owing (recover_attempt h) (λ _. Sound) Sound
recover_attempt-Ensures none = compensation_failed-Ensures
recover_attempt-Ensures (some hash) =
    bind-Ensures (read-Ensures {Q = λ _. Owing} _ (λ s p. p.0) (λ s p. p)) (λ stored.
      bind-Ensures (persist-Ensures hash stored) (λ u.
        bind-Ensures (transaction_outcome-Ensures _ hash) (λ o. settle_attempt-Ensures hash o)))

send_compensation-Ensures : Ensures Owing send_compensation (λ _. Sound) Sound
unfolding send_compensation recover_compensation
send_compensation-Ensures = try-Ensures compensation_transfer-Ensures (λ e.
    bind-Ensures (payment-Ensures {Q = λ _. Owing} (λ s p. p)) (λ p. recover_attempt-Ensures _))

prior_attempt-Ensures :
    (hash : ℕ) (o : TransactionOutcome)
    → Ensures
        (λ s. Owing s × Read (λ s. s.chain.makegoods) hash o s)
        (prior_attempt hash o)
        (λ _. Sound)
        Sound
prior_attempt-Ensures hash confirmed =
    weaken (complete_compensation-Ensures hash) (λ s p. (p.0, p.1.0 refl))
prior_attempt-Ensures hash reverted = weaken send_compensation-Ensures (λ s p. p.0)
prior_attempt-Ensures hash unknown =
    bind-Ensures (audit-Ensures _ (λ s p. p.0.0) (λ s l p. p)) (λ u. throw-Ensures _ (λ s p. p.0.0))

after_attempt-Ensures : (h : Option ℕ) → Ensures Owing (after_attempt h) (λ _. Sound) Sound
after_attempt-Ensures none = send_compensation-Ensures
after_attempt-Ensures (some hash) =
    bind-Ensures (transaction_outcome-Ensures _ hash) (λ o. prior_attempt-Ensures hash o)

-- Sending a make-good to a sender who is owed one.
pub run_compensation-Ensures : Ensures Owing run_compensation_transfer (λ _. Sound) Sound
unfolding run_compensation_transfer
run_compensation-Ensures =
    bind-Ensures (payment-Ensures {Q = λ _. Owing} (λ s p. p)) (λ p. after_attempt-Ensures _)

-- A payment whose escrow is released, and whose recipient was not paid.
abbrev pub Compensable : State → Type 0
Compensable s =
    Sound s
    × (s.chain.escrow ≡ released)
    × (s.credit ≡ none)
    × ((s.chain.orphaned ≡ true) ⊎ (landed s.chain.payouts ≡ false))

-- So does compensating it.
pub compensate_sender-Ensures :
    (reason : String) → Ensures Compensable (compensate_sender reason) (λ _. Sound) Sound
unfolding compensate_sender
compensate_sender-Ensures reason =
    bind-Ensures {Q = λ _. Owing}
      (set_status-Ensures _ _ (λ s p. p.0) (λ s from p. Facts-pending p.0 p.1 p.2 p.3)
        (λ s from p. (Facts-pending p.0 p.1 p.2 p.3, refl)))
      (λ pending.
        bind-Ensures (assign-Ensures {Q = λ _. Owing} _ (λ s p. p)) (λ u. run_compensation-Ensures))
