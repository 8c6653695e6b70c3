-- ===== src/Lifecycle.antt =====
-- The payment lifecycle state machine of lib/state.ts.
pub mod Order
pub mod Runs
mod Tests
use settlementos.Base.{ℕ, Bool, false, ◌||◌, List, [], ◌∷◌, ◌++◌, ◌==◌}

-- PAYMENT_STATES, in the order of the source.
pub data PaymentStatus : Type 0 where
  draft quoted compliance_pending manual_review approved : PaymentStatus
  liquidity_reserved submitted_onchain confirmed_onchain : PaymentStatus
  fx_or_swap_completed payout_pending settled : PaymentStatus
  compensation_pending compensated rejected failed : PaymentStatus
  cancelled refunded expired : PaymentStatus

-- The place of a status in PAYMENT_STATES.
abbrev pub index : PaymentStatus → ℕ
index draft = 0
index quoted = 1
index compliance_pending = 2
index manual_review = 3
index approved = 4
index liquidity_reserved = 5
index submitted_onchain = 6
index confirmed_onchain = 7
index fx_or_swap_completed = 8
index payout_pending = 9
index settled = 10
index compensation_pending = 11
index compensated = 12
index rejected = 13
index failed = 14
index cancelled = 15
index refunded = 16
index expired = 17

-- `===` on statuses, which are distinct strings.
abbrev pub same : PaymentStatus → PaymentStatus → Bool
same a b = index a == index b

-- `array.includes(status)`.
abbrev pub includes : List PaymentStatus → PaymentStatus → Bool
includes [] s = false
includes (t ∷ ts) s = same t s || includes ts s

-- TRANSITIONS.
unfoldable pub transitions : PaymentStatus → List PaymentStatus
transitions draft = quoted ∷ cancelled ∷ expired ∷ []
transitions quoted = compliance_pending ∷ quoted ∷ cancelled ∷ expired ∷ []
transitions compliance_pending = approved ∷ manual_review ∷ rejected ∷ cancelled ∷ []
transitions manual_review = approved ∷ rejected ∷ cancelled ∷ []
transitions approved = liquidity_reserved ∷ cancelled ∷ failed ∷ []
transitions liquidity_reserved = submitted_onchain ∷ failed ∷ cancelled ∷ []
transitions submitted_onchain = confirmed_onchain ∷ failed ∷ []
transitions confirmed_onchain = fx_or_swap_completed ∷ failed ∷ refunded ∷ compensation_pending ∷ []
transitions fx_or_swap_completed = payout_pending ∷ failed ∷ refunded ∷ compensation_pending ∷ []
transitions payout_pending = settled ∷ failed ∷ refunded ∷ compensation_pending ∷ []
transitions settled = []
transitions compensation_pending = compensated ∷ []
transitions compensated = []
transitions rejected = []
transitions failed = refunded ∷ []
transitions cancelled = []
transitions refunded = []
transitions expired = []

unfoldable pub can_transition : PaymentStatus → PaymentStatus → Bool
unfolding transitions
can_transition from to = includes (transitions from) to

-- CANCELLABLE_STATES.
unfoldable pub cancellable_states : List PaymentStatus
cancellable_states = draft ∷ quoted ∷ compliance_pending ∷ manual_review ∷ approved ∷ []

-- TERMINAL_STATES.
unfoldable pub terminal_states : List PaymentStatus
terminal_states = settled ∷ compensated ∷ rejected ∷ cancelled ∷ refunded ∷ expired ∷ []

-- LEASE_RELEASE_STATES.
unfoldable pub lease_release_states : List PaymentStatus
unfolding terminal_states
lease_release_states = terminal_states ++ failed ∷ []
