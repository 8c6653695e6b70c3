-- ===== src/Lifecycle/Order.antt =====
-- What the table of transitions says of the order of statuses, of terminal ones and of cancelling.
use settlementos.Base.{
  ℕ, ◌<◌, ◌≡◌, refl, ap, ◌↔◌, ◌⊎◌, ◌||◌, true, false, arith, ◌==◌, ==_iff, if◌then◌else◌,
}
use settlementos.Lifecycle.{
  PaymentStatus, draft, quoted, compliance_pending, manual_review, approved, liquidity_reserved,
  submitted_onchain, confirmed_onchain, fx_or_swap_completed, payout_pending, settled,
  compensation_pending, compensated, rejected, failed, cancelled, refunded, expired, index, same,
  includes, can_transition, cancellable_states, terminal_states, lease_release_states,
}

status_at : ℕ → PaymentStatus
status_at n =
    if n == 0
    then draft
    else if n == 1
    then quoted
    else if n == 2
    then compliance_pending
    else if n == 3
    then manual_review
    else if n == 4
    then approved
    else if n == 5
    then liquidity_reserved
    else if n == 6
    then submitted_onchain
    else if n == 7
    then confirmed_onchain
    else if n == 8
    then fx_or_swap_completed
    else if n == 9
    then payout_pending
    else if n == 10
    then settled
    else if n == 11
    then compensation_pending
    else if n == 12
    then compensated
    else if n == 13
    then rejected
    else if n == 14
    then failed
    else if n == 15
    then cancelled
    else if n == 16
    then refunded
    else expired

status_at-index : (s : PaymentStatus) → status_at (index s) ≡ s
unfolding status_at
status_at-index draft = refl
status_at-index _ = refl

pub same_iff : (a b : PaymentStatus) → (same a b ≡ true) ↔ (a ≡ b)
same_iff a b = (
  λ e. subst_index (ap status_at ((==_iff (index a) (index b)).0 e)),
  λ e. (==_iff (index a) (index b)).1 (ap index e),
)
  where
    subst_index : status_at (index a) ≡ status_at (index b) → a ≡ b
    subst_index p = cc (p, status_at-index a, status_at-index b)

pub same_refl : (a : PaymentStatus) → same a a ≡ true
same_refl a = (same_iff a a).1 refl

-- Every legal move goes to a later status of the list, but for quoting again.
pub can_transition-index :
    (a b : PaymentStatus)
    → can_transition a b ≡ true
    → (index a < index b) ⊎ ((a ≡ quoted) × (b ≡ quoted))
unfolding can_transition
can_transition-index draft b h = ground arith
can_transition-index quoted b h = ground arith
can_transition-index _ b h = ground arith

-- A status is in TERMINAL_STATES exactly when no move at all is legal from it.
pub terminal_iff :
    (s : PaymentStatus)
    → (includes terminal_states s ≡ true) ↔ ((t : PaymentStatus) → can_transition s t ≡ false)
unfolding terminal_states can_transition
terminal_iff draft = (λ e. cc, λ h. cc (h quoted))
terminal_iff quoted = (λ e. cc, λ h. cc (h quoted))
terminal_iff compliance_pending = (λ e. cc, λ h. cc (h approved))
terminal_iff manual_review = (λ e. cc, λ h. cc (h approved))
terminal_iff approved = (λ e. cc, λ h. cc (h failed))
terminal_iff liquidity_reserved = (λ e. cc, λ h. cc (h failed))
terminal_iff submitted_onchain = (λ e. cc, λ h. cc (h failed))
terminal_iff confirmed_onchain = (λ e. cc, λ h. cc (h failed))
terminal_iff fx_or_swap_completed = (λ e. cc, λ h. cc (h failed))
terminal_iff payout_pending = (λ e. cc, λ h. cc (h failed))
terminal_iff compensation_pending = (λ e. cc, λ h. cc (h compensated))
terminal_iff failed = (λ e. cc, λ h. cc (h refunded))
terminal_iff _ = (λ e t. refl, λ h. refl)

-- A status releases the execution lease exactly when no move but a refund is legal from it.
pub lease_release_iff :
    (s : PaymentStatus)
    → (includes lease_release_states s ≡ true)
      ↔ ((t : PaymentStatus) → can_transition s t ≡ true → t ≡ refunded)
unfolding lease_release_states can_transition
lease_release_iff draft = (λ e. cc, λ h. cc (h quoted refl))
lease_release_iff quoted = (λ e. cc, λ h. cc (h quoted refl))
lease_release_iff compliance_pending = (λ e. cc, λ h. cc (h approved refl))
lease_release_iff manual_review = (λ e. cc, λ h. cc (h approved refl))
lease_release_iff approved = (λ e. cc, λ h. cc (h failed refl))
lease_release_iff liquidity_reserved = (λ e. cc, λ h. cc (h failed refl))
lease_release_iff submitted_onchain = (λ e. cc, λ h. cc (h failed refl))
lease_release_iff confirmed_onchain = (λ e. cc, λ h. cc (h failed refl))
lease_release_iff fx_or_swap_completed = (λ e. cc, λ h. cc (h failed refl))
lease_release_iff payout_pending = (λ e. cc, λ h. cc (h failed refl))
lease_release_iff compensation_pending = (λ e. cc, λ h. cc (h compensated refl))
lease_release_iff failed = (λ e t k. ground arith, λ h. refl)
lease_release_iff _ = (λ e t k. cc, λ h. refl)

-- Cancelling is legal from every status that a user may cancel, and otherwise only once the
-- liquidity is reserved.
pub can_transition-cancelled :
    (s : PaymentStatus)
    → can_transition s cancelled ≡ includes cancellable_states s || same s liquidity_reserved
unfolding can_transition cancellable_states
can_transition-cancelled draft = refl
can_transition-cancelled _ = refl
