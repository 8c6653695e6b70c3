-- ===== src/Treasury/Once.antt =====
-- A position is recalled once.
use settlementos.Base.{◌≡◌, ◌≢◌, refl, sym, ◌∙◌, subst, ℕ, false, List, Option, none, some, ok}
use settlementos.Base.Texts.{String}
use settlementos.Base.Programs.{
  Ensures, bind-Ensures, relax, pure-Ensures, throw-Ensures, throw_when-Ensures,
}
use settlementos.Treasury.State.{World, Deployments, Position, find_position}
use settlementos.Treasury.Calls.{current_index, token_balance}
use settlementos.Treasury.Recall.{RecallResult, recall, recall_found, redeem_position}
use settlementos.Treasury.Shares.{some_inj, found_id}
use settlementos.Treasury.Marks.{find-append, find-mark}
use settlementos.Treasury.Passing.{fund_asset_for-Passes}
use settlementos.Treasury.Rules.{Blind, read-Ensures, commit-Ensures}
use settlementos.Treasury.Moves.{redeem-Ensures}
use settlementos.Treasury.Requests.{Request, serve_all}
use settlementos.Treasury.Keeping.{returned-Holds}
use settlementos.Treasury.Stable.{Stable, stable_served}

-- The row of this id is there, and is no longer active.
abbrev Closed : ℕ → World → Type 0
Closed id w = (p : Position) × (find_position id w.positions ≡ some p) × (p.is_active ≡ false)

Closed-Stable : (id : ℕ) → Stable (Closed id)
Closed-Stable id = record {
  blind = λ w y rs z c. c;
  logged = λ w log c. c;
  created = λ w row log c. (c.0, find-append id w.positions _ c.0 c.1, c.2);
  marked = λ w j hash log c.
      let m = find-mark id j hash w.positions c.0 c.1 in (m.0, m.1, m.2.still_closed c.2);
  approved = λ w network asset c. c;
  on_subscribe = λ w network asset k c. c;
  on_redeem = λ w network asset k c. c;
  on_accrue = λ w network k h c. c;
}

abbrev Holding : ℕ → Option Position → World → Type 0
Holding id found w = find_position id w.positions ≡ found

redeem_position-Closed :
    (id : ℕ) (p : Position)
    → Ensures (Holding id (some p)) (redeem_position p) (λ r. Closed id) (λ w. Unit)
unfolding redeem_position current_index token_balance
redeem_position-Closed id p =
    let P = Holding id (some p) in
    let b : Blind P = λ w y rs z h. h in
    let reads : (network asset : String)
        → Ensures P (token_balance network asset) (λ a. P) (λ w. Unit) =
      λ network asset. read-Ensures _ _ _ _ b (λ w h. tt) (λ w h. h) in
    bind-Ensures {Q = λ a. P} (read-Ensures _ _ _ _ b (λ w h. tt) (λ w h. h)) (λ index.
      bind-Ensures {Q = λ a. P} (reads p.network p.asset) (λ before.
        bind-Ensures {Q = λ a. P}
          (redeem-Ensures _ _ _ b p.network p.asset p.shares (λ w h. tt) (λ w h g. (tt, h)))
          (λ hash. bind-Ensures {Q = λ a. P} (reads p.network p.asset) (λ after.
            bind-Ensures {Q = λ a. Closed id}
              (commit-Ensures _ _ _ _ b (λ w h. tt) (λ w h. tt)
                (λ w h.
                  let m = find-mark id p.id hash w.positions p h in
                  (m.0, m.1, m.2.closed (found_id id w.positions p h))))
              (λ u. pure-Ensures _ (λ w c. c))))))

module _ (d : Deployments) (id : ℕ) where
  recall_found-Closed :
      (found : Option Position)
      → Ensures (Holding id found) (recall_found d found) (λ r. Closed id) (λ w. Unit)
  unfolding recall_found
  recall_found-Closed none = throw-Ensures _ (λ w h. tt)
  recall_found-Closed (some p) =
      let P = Holding id (some p) in
      bind-Ensures {Q = λ a. P} (throw_when-Ensures _ _ (λ w e h. h) (λ w h. tt)) (λ u.
        bind-Ensures {Q = λ a. P}
          (relax (fund_asset_for-Passes P (λ w y rs z h. h) d p.network p.asset) (λ a w h. h)
            (λ w h. tt))
          (λ a. redeem_position-Closed id p))

  recall-Closed : Ensures (λ w. Unit) (recall d id) (λ r. Closed id) (λ w. Unit)
  unfolding recall
  recall-Closed =
      bind-Ensures {Q = Holding id}
        (read-Ensures _ _ _ _ (λ w y rs z h. h) (λ w h. tt) (λ w h. refl))
        (λ found. recall_found-Closed found)

  -- A position that is closed cannot be recalled.
  Closed-refused : Ensures (Closed id) (recall d id) (λ r w. ⊥) (Closed id)
  unfolding recall recall_found
  Closed-refused =
      bind-Ensures {Q = λ found w. Closed id w × (find_position id w.positions ≡ found)}
        (read-Ensures _ _ _ _ (λ w y rs z h. h) (λ w h. h) (λ w h. (h, refl))) refused
    where
      refused :
          (found : Option Position)
          → Ensures
              (λ w. Closed id w × (find_position id w.positions ≡ found))
              (recall_found d found)
              (λ r w. ⊥)
              (Closed id)
      refused none = throw-Ensures _ (λ w h. h.0)
      refused (some p) =
          bind-Ensures {Q = λ u w. ⊥}
            (throw_when-Ensures _ _
              (λ w e h.
                let same : h.0.0 ≡ p = some_inj (sym h.0.1 ∙ h.1) in
                let closed : p.is_active ≡ false =
                  subst (λ (x : Position). x.is_active ≡ false) same h.0.2 in
                cc)
              (λ w h. h.0))
            (λ u. record { run = λ w h. absurd h })

  -- A recall of a position that returned is the last one: after any further requests, another recall
  -- of the same position throws, however its calls end.
  pub recalled_once :
      (w : World) (r : RecallResult) (rs : List Request) (r' : RecallResult)
      → (recall d id w).0 ≡ ok r
      → (recall d id (serve_all d rs (recall d id w).1)).0 ≢ ok r'
  recalled_once w r rs r' e e' =
      let closed = returned-Holds _ _ (recall d id w) r e (recall-Closed.run w tt) in
      let later = stable_served (Closed id) (Closed-Stable id) d rs (recall d id w).1 closed in
      returned-Holds _ _ (recall d id (serve_all d rs (recall d id w).1)) r' e'
        (Closed-refused.run _ later)
