-- ===== src/Treasury/Freed.antt =====
-- What a recall for a payment frees, and which positions it recalls.
use settlementos.Base.{
  ◌≡◌, refl, ap, ◌∙◌, sym, subst, ℕ, ◌+◌, ◌-◌, ◌≤◌, ◌<◌, leb, List, [], ◌∷◌, Option, none, some,
  Bool-cases, inl, inr, ◌⊎◌, leb→le, Result, ok, err, arith, All,
}
use settlementos.Base.Texts.{String, eq_refl}
use settlementos.Base.Programs.{
  Ensures, Holds, bind-Ensures, weaken, relax, pure-Ensures, throw-Ensures, throw_when-Ensures,
}
use settlementos.Treasury.State.{
  World, Deployments, Error, Position, Reservation, find_position, mark_recalled,
}
use settlementos.Treasury.Fund.{asset_for}
use settlementos.Treasury.Calls.{current_index, token_balance}
use settlementos.Treasury.Recall.{RecallResult, recall, recall_found, redeem_position, recall_until}
use settlementos.Treasury.Rules.{Blind, read-Ensures, commit-Ensures}
use settlementos.Treasury.Moves.{redeem-Ensures, redeemed}
use settlementos.Treasury.Passing.{fund_asset_for-Passes}
use settlementos.Treasury.Shares.{some_inj, found_id}
use settlementos.Treasury.Marks.{find-mark}

-- The row that is found by this id is of this network and this asset.
abbrev pub Placed : String → String → List Position → Position → Type 0
Placed network asset rows p =
    (q : Position) × (find_position p.id rows ≡ some q) × (q.network ≡ network) × (q.asset ≡ asset)

-- The balance of an asset, the reservations, and positions that are all of the asset.
abbrev pub Standing : String → String → List Reservation → List Position → ℕ → World → Type 0
Standing network asset rows ps x w =
    (w.balances network asset ≡ x)
    × (w.reservations ≡ rows)
    × All (Placed network asset w.positions) ps

Placed-mark :
    (network asset : String) (j hash : ℕ) (rows ps : List Position)
    → All (Placed network asset rows) ps
    → All (Placed network asset (mark_recalled j hash rows)) ps
Placed-mark network asset j hash rows [] h = tt
Placed-mark network asset j hash rows (p ∷ ps) (h, hs) =
    let m = find-mark p.id j hash rows h.0 h.1 in
    ((m.0, m.1, m.2.network ∙ h.2, m.2.asset ∙ h.3), Placed-mark network asset j hash rows ps hs)

balance-redeemed :
    (network asset : String) (k : ℕ) (w : World)
    → (redeemed network asset k w).balances network asset
      ≡ w.balances network asset + asset_for k (w.funds network)
balance-redeemed network asset k w = rw (eq_refl network, eq_refl asset) refl

module _ (rows : List Reservation) (ps : List Position) where
  redeem_position-Standing :
      (p : Position) (x : ℕ)
      → Ensures
          (Standing p.network p.asset rows ps x)
          (redeem_position p)
          (λ r w.
            Standing p.network p.asset rows ps (x + r.asset_amount) w × (r.position_id ≡ p.id))
          (λ w. Unit)
  unfolding redeem_position current_index token_balance
  redeem_position-Standing p x =
      let P = Standing p.network p.asset rows ps x in
      let S = Standing p.network p.asset rows ps in
      let b : (y : ℕ) → Blind (S y) = λ y w r rs z h. h in
      bind-Ensures {Q = λ a. P} (read-Ensures _ _ _ _ (b x) (λ w h. tt) (λ w h. h)) (λ index.
        bind-Ensures {Q = λ before w. P w × (before ≡ x)}
          (read-Ensures _ _ _ _ (b x) (λ w h. tt) (λ w h. (h, h.0)))
          (λ before.
            bind-Ensures {Q = λ hash w. (y : ℕ) × S (x + y) w × (before ≡ x)}
              (redeem-Ensures _ _ _ (λ w r rs z h. h) p.network p.asset p.shares (λ w h. tt)
                (λ w h g. (
                  tt,
                  (
                    asset_for p.shares (w.funds p.network),
                    (
                      balance-redeemed p.network p.asset p.shares w
                          ∙ ap (λ z. z + asset_for p.shares (w.funds p.network)) h.0.0,
                      h.0.1,
                      h.0.2,
                    ),
                    h.1,
                  ),
                )))
              (λ hash.
                bind-Ensures {Q = λ after. S (x + (after - before))}
                  (read-Ensures _ _ _ _ (λ w r rs z h. h) (λ w h. tt)
                    (λ w h. (omega (arith, h.1.0, h.2), h.1.1, h.1.2)))
                  (λ after.
                    bind-Ensures {Q = λ u. S (x + (after - before))}
                      (commit-Ensures _ _ _ _ (λ w r rs z h. h) (λ w h. tt) (λ w h. tt)
                        (λ w h.
                          (h.0, h.1, Placed-mark p.network p.asset p.id hash w.positions ps h.2)))
                      (λ u. pure-Ensures _ (λ w h. (h, refl)))))))

Holds-both {ℓ} :
    {A : Type ℓ} (Q : A → World → Type 0) {F : Type 0} (o : Result Error A × World)
    → F
    → Holds Q (λ w. Unit) o
    → Holds (λ a w. Q a w × F) (λ w. Unit) o
Holds-both Q (ok a, w) f h = (h, f)
Holds-both Q (err e, w) f h = tt

-- The loop recalls the oldest positions, in order, and each of them only while it is short.
abbrev pub Stops : ℕ → List Position → ℕ → List RecallResult → ℕ → Type 0
Stops shortfall ps freed [] total = (total ≡ freed) × ((ps ≡ []) ⊎ (shortfall ≤ freed))
Stops shortfall [] freed (r ∷ rs) total = ⊥
Stops shortfall (p ∷ ps) freed (r ∷ rs) total =
    (freed < shortfall)
    × (r.position_id ≡ p.id)
    × Stops shortfall ps (freed + r.asset_amount) rs total

module _ (d : Deployments) (network asset : String) (rows : List Reservation) where
  -- What a recall returns, of a row that is placed.
  abbrev Recalled : ℕ → List Position → ℕ → RecallResult → World → Type 0
  Recalled id ps x r w =
      Standing network asset rows ps (x + r.asset_amount) w × (r.position_id ≡ id)

  abbrev Located : ℕ → List Position → ℕ → World → Type 0
  Located id ps x w =
      Standing network asset rows ps x w
      × ((q : Position) × (find_position id w.positions ≡ some q)
          × (q.network ≡ network)
          × (q.asset ≡ asset))

  redeemed_here :
      (id : ℕ) (ps : List Position) (x : ℕ) (p : Position)
      → p.network ≡ network
      → p.asset ≡ asset
      → p.id ≡ id
      → Ensures
          (Standing network asset rows ps x)
          (redeem_position p)
          (Recalled id ps x)
          (λ w. Unit)
  redeemed_here id ps x p e h k =
      subst
        (λ n.
          Ensures (Standing n asset rows ps x) (redeem_position p)
            (λ r w. Standing n asset rows ps (x + r.asset_amount) w × (r.position_id ≡ id))
            (λ w. Unit))
        e
        (subst
          (λ a.
            Ensures (Standing p.network a rows ps x) (redeem_position p)
              (λ r w. Standing p.network a rows ps (x + r.asset_amount) w × (r.position_id ≡ id))
              (λ w. Unit))
          h (relax (redeem_position-Standing rows ps p x) (λ r w q. (q.0, q.1 ∙ k)) (λ w q. tt)))

  recall_found-Recalled :
      (id : ℕ) (ps : List Position) (x : ℕ) (found : Option Position)
      → Ensures
          (λ w. Located id ps x w × (find_position id w.positions ≡ found))
          (recall_found d found)
          (Recalled id ps x)
          (λ w. Unit)
  unfolding recall_found
  recall_found-Recalled id ps x none = throw-Ensures _ (λ w h. tt)
  recall_found-Recalled id ps x (some p) =
      let P : World → Type 0 = λ w.
        Standing network asset rows ps x w
        × (p.network ≡ network)
        × (p.asset ≡ asset)
        × (p.id ≡ id) in
      bind-Ensures {Q = λ a. P}
        (throw_when-Ensures _ _
          (λ w e h.
            let same : h.0.1.0 ≡ p = some_inj (sym h.0.1.1 ∙ h.1) in
            (
              h.0.0,
              subst (λ (q : Position). q.network ≡ network) same h.0.1.2,
              subst (λ (q : Position). q.asset ≡ asset) same h.0.1.3,
              found_id id w.positions p h.1,
            ))
          (λ w h. tt))
        (λ u.
          bind-Ensures {Q = λ a. P}
            (relax (fund_asset_for-Passes P (λ w y rs z h. h) d p.network p.asset) (λ a w h. h)
              (λ w h. tt))
            (λ a. record { run = λ w h. (redeemed_here id ps x p h.1 h.2 h.3).run w h.0 }))

  recall-Recalled :
      (id : ℕ) (ps : List Position) (x : ℕ)
      → Ensures (Located id ps x) (recall d id) (Recalled id ps x) (λ w. Unit)
  unfolding recall
  recall-Recalled id ps x =
      bind-Ensures {Q = λ found w. Located id ps x w × (find_position id w.positions ≡ found)}
        (read-Ensures _ _ _ _ (λ w y rs z h. h) (λ w h. tt) (λ w h. (h, refl)))
        (λ found. recall_found-Recalled id ps x found)

  abbrev pub Freed : ℕ → List Position → ℕ → ℕ → List RecallResult × ℕ → World → Type 0
  Freed shortfall ps x freed result w =
      (w.balances network asset + freed ≡ x + result.1)
      × (w.reservations ≡ rows)
      × Stops shortfall ps freed result.0 result.1

  pub recall_until-Freed :
      (shortfall : ℕ) (ps : List Position) (x freed : ℕ)
      → Ensures
          (Standing network asset rows ps x)
          (recall_until d shortfall ps freed)
          (Freed shortfall ps x freed)
          (λ w. Unit)
  unfolding recall_until
  recall_until-Freed shortfall [] x freed =
      pure-Ensures _ (λ w h. (omega (arith, h.0), h.1, (refl, inl refl)))
  recall_until-Freed shortfall (p ∷ ps) x freed = elim (Bool-cases (leb shortfall freed)) [
    | inl e ↦
        rw e (
          pure-Ensures _ (λ w h. (omega (arith, h.0), h.1, (refl, inr (leb→le shortfall freed e)))))
    | inr e ↦ rw e (
        bind-Ensures {Q = Recalled p.id ps x}
          (weaken (recall-Recalled p.id ps x) (λ w h. ((h.0, h.1, h.2.1), h.2.0)))
          (λ r.
            bind-Ensures
              {Q = λ rest w.
                Freed shortfall ps (x + r.asset_amount) (freed + r.asset_amount) rest w
                × (r.position_id ≡ p.id)}
              (record {
                run = λ w h. Holds-both _ _ h.1 (
                    (recall_until-Freed shortfall ps (x + r.asset_amount)
                        (freed + r.asset_amount)).run
                      w h.0);
              })
              (λ rest.
                pure-Ensures _ (λ w h. (omega (arith, h.0.0), h.0.1, (ground arith, h.1, h.0.2))))))
  ]
