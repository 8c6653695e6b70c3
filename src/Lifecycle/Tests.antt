-- ===== src/Lifecycle/Tests.antt =====
-- Tests of the lifecycle and its theorems at concrete payments.
use settlementos.Base.{◌≡◌, refl, ◌≤◌, true, false, [], ◌∷◌, ◌+◌}
use settlementos.Lifecycle.{
  draft, quoted, compliance_pending, manual_review, approved, liquidity_reserved, rejected, index,
  includes, can_transition,
}
use settlementos.Lifecycle.Runs.{Run, here, step, moves, moves_bound, approval_gate}

reviewed :
    Run draft
      (liquidity_reserved ∷ approved ∷ manual_review ∷ compliance_pending ∷ quoted ∷ quoted ∷ [])
      liquidity_reserved
unfolding can_transition
reviewed = step (step (step (step (step (step here refl) refl) refl) refl) refl) refl

rejected_is_final : can_transition rejected approved ≡ false
unfolding can_transition
rejected_is_final = refl

moves_bound_example :
    moves
        (liquidity_reserved ∷ approved ∷ manual_review ∷ compliance_pending ∷ quoted ∷ quoted ∷ [])
      + index draft
    ≤ index liquidity_reserved
moves_bound_example = moves_bound reviewed

approval_gate_example :
    (includes
        (liquidity_reserved ∷ approved ∷ manual_review ∷ compliance_pending ∷ quoted ∷ quoted ∷ [])
        approved
      ≡ true)
    × (includes
          (liquidity_reserved ∷ approved ∷ manual_review ∷ compliance_pending ∷ quoted ∷ quoted
            ∷ [])
          compliance_pending
        ≡ true)
approval_gate_example = approval_gate reviewed refl
