-- ===== src/Executor/Races.antt =====
-- Who wins when two callers want the same payment.
use settlementos.Base.{
  ◌≡◌, ◌≢◌, ◌⊎◌, refl, some, inl, inr, sym, ℕ, ◌+◌, true, false, [], ok, err, Bool-cases,
}
use settlementos.Lifecycle.{PaymentStatus, same, can_transition}
use settlementos.Lifecycle.Order.{same_iff}
use settlementos.Executor.State.{State, Payment, stale_transition, execution_lease}
use settlementos.Executor.Calls.{M, done, call, pure, throw, ◌>>=◌}
use settlementos.Executor.Steps.{
  moved, swap, swapped, transition_status, claim, claimed, claimable, random_uuid,
  with_execution_lease,
}
use settlementos.Executor.Moves.{with_status}

same-false : (a b : PaymentStatus) → a ≢ b → same b a ≡ false
same-false a b h = elim (Bool-cases (same b a)) [
  | inl e ↦ absurd (h (sym ((same_iff b a).0 e)))
  | inr e ↦ e
]

-- Of two callers that saw a payment at the same status, the first to move it wins, and the other
-- throws and changes nothing.
pub one_winner :
    (from to other : PaymentStatus) (mine theirs : Payment → Payment) (s : State)
    → s.row.status ≡ from
    → from ≢ to
    → can_transition from to ≡ true
    → can_transition from other ≡ true
    → (transition_status from to mine s []
        ≡ done (ok (moved to mine s.row)) (with_status from to mine s) [])
      × (transition_status from other theirs (with_status from to mine s) []
          ≡ done (err stale_transition) (with_status from to mine s) [])
unfolding transition_status swap swapped call pure throw ◌>>=◌
one_winner from to other mine theirs s at away mine_legal theirs_legal =
    let here : same s.row.status from ≡ true = (same_iff s.row.status from).1 at in
    let gone : same to from ≡ false = same-false from to away in
    (rw (mine_legal, here), rw (theirs_legal, gone))

claimable-false :
    (from : PaymentStatus) (s : State)
    → (s.row.status ≢ from) ⊎ ((l : ℕ) × (s.row.execution_lease_id ≡ some l))
    → claimable from s ≡ false
claimable-false from s (inl h) = elim (Bool-cases (same s.row.status from)) [
  | inl e ↦ absurd (h ((same_iff s.row.status from).0 e))
  | inr e ↦ rw e refl
]
claimable-false from s (inr (l, h)) = elim (Bool-cases (same s.row.status from)) [
  | inl e ↦ rw (e, h) refl
  | inr e ↦ rw e refl
]

-- While an attempt holds the lease, or the payment is at another status, nobody else starts: a
-- claim whose calls work throws, and leaves the payment as it was.
pub claim_refused {ℓ} :
    {A : Type ℓ} (from : PaymentStatus) (body : ℕ → M A) (s : State)
    → (s.row.status ≢ from) ⊎ ((l : ℕ) × (s.row.execution_lease_id ≡ some l))
    → with_execution_lease from body s []
      ≡ done (err execution_lease) (record s { next_lease = s.next_lease + 1 }) []
unfolding with_execution_lease random_uuid claim claimed call ◌>>=◌
claim_refused from body s h = rw (claimable-false from s h)
