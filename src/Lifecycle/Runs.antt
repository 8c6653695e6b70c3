-- ===== src/Lifecycle/Runs.antt =====
-- Whole histories of a payment: sequences of legal moves, with the statuses entered, newest first.
use settlementos.Base.{
  ℕ, suc, ◌+◌, ◌≤◌, ◌≡◌, refl, ◌⊎◌, inl, inr, Bool, true, false, List, [], ◌∷◌, arith, subst,
  if◌then◌else◌,
}
use settlementos.Lifecycle.{
  PaymentStatus, draft, quoted, compliance_pending, manual_review, approved, liquidity_reserved,
  submitted_onchain, confirmed_onchain, fx_or_swap_completed, payout_pending, settled,
  compensation_pending, compensated, failed, refunded, index, same, includes, can_transition,
  terminal_states,
}
use settlementos.Lifecycle.Order.{can_transition-index, terminal_iff, same_refl}

pub data Run (s : PaymentStatus) : List PaymentStatus → PaymentStatus → Type 0 where
  here : Run s [] s
  step :
      {v : List PaymentStatus} {t u : PaymentStatus}
      → Run s v t
      → can_transition t u ≡ true
      → Run s (u ∷ v) u

-- The moves of a history that are not a quote.
abbrev pub moves : List PaymentStatus → ℕ
moves [] = 0
moves (s ∷ v) = if same s quoted then moves v else suc (moves v)

-- Statuses in which liquidity, the escrow or the payout is involved.
abbrev pub past_approval : PaymentStatus → Bool
past_approval liquidity_reserved = true
past_approval submitted_onchain = true
past_approval confirmed_onchain = true
past_approval fx_or_swap_completed = true
past_approval payout_pending = true
past_approval settled = true
past_approval compensation_pending = true
past_approval compensated = true
past_approval failed = true
past_approval refunded = true
past_approval _ = false

-- However often a payment is quoted again, the other moves of its history are at most the places by
-- which it advanced in the list of statuses.
pub moves_bound :
    {s t : PaymentStatus} {v : List PaymentStatus} → Run s v t → moves v + index s ≤ index t
moves_bound here = omega arith
moves_bound (step {v} {t} {u} r h) = ground (arith, moves_bound r, can_transition-index t u h)

index-le : (s : PaymentStatus) → index s ≤ 17
index-le draft = omega arith
index-le _ = omega arith

pub moves-le : {s t : PaymentStatus} {v : List PaymentStatus} → Run s v t → moves v ≤ 17
moves-le {t} r = omega (arith, moves_bound r, index-le t)

-- Nothing follows a terminal status.
pub Run-terminal :
    {s t : PaymentStatus} {v : List PaymentStatus}
    → includes terminal_states s ≡ true
    → Run s v t
    → (v ≡ []) × (t ≡ s)
Run-terminal h here = (refl, refl)
Run-terminal {s} h (step {t} {u} r k) = ground (arith, Run-terminal h r, (terminal_iff s).0 h u)

from_approved :
    (t u : PaymentStatus)
    → can_transition t u ≡ true
    → past_approval u ≡ true
    → (t ≡ approved) ⊎ (past_approval t ≡ true)
unfolding can_transition
from_approved draft u h k = ground arith
from_approved _ u h k = ground arith

to_approved :
    (t : PaymentStatus)
    → can_transition t approved ≡ true
    → (t ≡ compliance_pending) ⊎ (t ≡ manual_review)
unfolding can_transition
to_approved draft h = ground arith
to_approved _ h = ground arith

to_manual_review :
    (t : PaymentStatus) → can_transition t manual_review ≡ true → t ≡ compliance_pending
unfolding can_transition
to_manual_review draft h = ground arith
to_manual_review _ h = ground arith

-- The current status is the start or was entered.
current_seen :
    {s t : PaymentStatus} {v : List PaymentStatus} → Run s v t → (t ≡ s) ⊎ (includes v t ≡ true)
current_seen here = inl refl
current_seen (step {u} r h) = inr (ground (arith, same_refl u))

approved_seen :
    {t : PaymentStatus} {v : List PaymentStatus}
    → Run draft v t
    → past_approval t ≡ true
    → includes v approved ≡ true
approved_seen here k = cc
approved_seen (step {v} {t} {u} r h) k =
    ground (arith, from_approved t u h k, current_seen r, approved_seen r)

manual_review_seen :
    {t : PaymentStatus} {v : List PaymentStatus}
    → Run draft v t
    → t ≡ manual_review
    → includes v compliance_pending ≡ true
manual_review_seen here k = cc
manual_review_seen (step {v} {t} {u} r h) k =
    ground (arith, to_manual_review t (subst (λ x. can_transition t x ≡ true) k h), current_seen r)

compliance_seen :
    {t : PaymentStatus} {v : List PaymentStatus}
    → Run draft v t
    → includes v approved ≡ true
    → includes v compliance_pending ≡ true
compliance_seen here k = cc
compliance_seen (step {v} {t} {u} r h) k = elim (same_cases u) [
  | inl e ↦ ground (
    arith,
    to_approved t (subst (λ x. can_transition t x ≡ true) e h),
    current_seen r,
    manual_review_seen r,
  )
  | inr e ↦ ground (arith, compliance_seen r)
]
  where
    same_cases : (u : PaymentStatus) → (u ≡ approved) ⊎ (same u approved ≡ false)
    same_cases approved = inl refl
    same_cases _ = inr refl

-- A new payment gets to a status that touches liquidity, the escrow or a payout, or to FAILED, only
-- through APPROVED, and there only through COMPLIANCE_PENDING.
pub approval_gate :
    {t : PaymentStatus} {v : List PaymentStatus}
    → Run draft v t
    → past_approval t ≡ true
    → (includes v approved ≡ true) × (includes v compliance_pending ≡ true)
approval_gate r k = (approved_seen r k, compliance_seen r (approved_seen r k))
