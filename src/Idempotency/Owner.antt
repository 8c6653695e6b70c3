-- ===== src/Idempotency/Owner.antt =====
-- What a claim of a key is answered while the key's record is live.
use settlementos.Base.{
  ◌≡◌, refl, sym, subst, ℕ, suc, ◌+◌, ◌<◌, false, List, [], ◌∷◌, Option, none, some, arith, All,
}
use settlementos.Base.Texts.{String}
use settlementos.Base.Programs.{Ensures, Holds, bind-Ensures, pure-Ensures}
use settlementos.Idempotency.Records.{Row, Table, Claim, Step, create, is_expired, ttl_ms}
use settlementos.Idempotency.Begin.{
  Shared, Fault, M, call, after_others, later, answer_to, look_up, found, created, begin_attempts,
  begin_idempotent, IdempotencyOutcome,
}
use settlementos.Idempotency.Rows.{Live, Fixes, Allowed, elapsed_all, now-steps, steps-Live}

abbrev pub elapsed_in : List (List Step) → ℕ
elapsed_in [] = 0
elapsed_in (ss ∷ rest) = elapsed_all ss + elapsed_in rest

module _ (p k : String) (id at : ℕ) (F : Row → Type 0) (fixes : Fixes p k id at F) where
  -- The record is live, and stays so through what others are about to do.
  abbrev pub Quiet : Shared → Type 0
  Quiet s =
      Live p k id at F s.table
      × All (All (Allowed p k id at F)) s.others
      × (s.table.now + elapsed_in s.others < at + ttl_ms)

  -- The table that a call finds, and what stays for the later ones.
  before_call :
      (s : Shared)
      → Quiet s
      → Live p k id at F (after_others s)
        × All (All (Allowed p k id at F)) (later s)
        × ((after_others s).now + elapsed_in (later s) < at + ttl_ms)
  before_call s q = settled s.others s.table q.0 q.1 q.2
    where
      settled :
          (others : List (List Step)) (t : Table)
          → Live p k id at F t
          → All (All (Allowed p k id at F)) others
          → t.now + elapsed_in others < at + ttl_ms
          → let s' : Shared = record s { table = t; others = others } in
            Live p k id at F (after_others s')
            × All (All (Allowed p k id at F)) (later s')
            × ((after_others s').now + elapsed_in (later s') < at + ttl_ms)
      settled [] t l a y = (l, tt, y)
      settled (ss ∷ rest) t l (a, r) y = (
        steps-Live p k id at F ss t fixes a (omega (arith, y)) l,
        r,
        omega (arith, now-steps ss t, y),
      )

  call-Quiet {ℓ} :
      {A : Type ℓ} (f : Table → A × Table) (Q : A → Type 0)
      → ((t : Table)
          → Live p k id at F t
          → t.now < at + ttl_ms
          → Live p k id at F (f t).1 × ((f t).1.now ≡ t.now) × Q (f t).0)
      → Ensures Quiet (call f) (λ a s. Quiet s × Q a) (λ s. ⊥)
  unfolding call
  call-Quiet f Q h = record {
    run = λ s q.
        let b = before_call s q in
        let g = h (after_others s) b.0 (omega (arith, b.2)) in
        ((g.0, b.1, omega (arith, b.2, g.1)), g.2);
  }

-- What a claim of the key finds there.
module _ (c : Claim) (id at : ℕ) (F : Row → Type 0)
    (fixes : Fixes c.principal_id c.key id at F) where
  abbrev pub LiveRow : Table → Type 0
  LiveRow = Live c.principal_id c.key id at F

  abbrev pub QuietRow : Shared → Type 0
  QuietRow = Quiet c.principal_id c.key id at F fixes

  create-refused :
      (t : Table)
      → LiveRow t
      → LiveRow (create c t).1 × ((create c t).1.now ≡ t.now) × ((create c t).0 ≡ none)
  unfolding create
  create-refused t (r, h, f) = rw (create, h) ((r, h, f), refl, refl)

  abbrev Seen : Option Row × ℕ → Type 0
  Seen a = (r : Row) × (a.0 ≡ some r) × F r × (a.1 < at + ttl_ms)

  young_row : (r : Row) (now : ℕ) → F r → now < at + ttl_ms → is_expired r.created_at now ≡ false
  unfolding is_expired
  young_row r now f y = ground (arith, (fixes r f).1, y)

  abbrev pub Answered : IdempotencyOutcome → Shared → Type 0
  Answered o s = QuietRow s × ((r : Row) × F r × (o ≡ answer_to c r))

  found-Answered :
      (again : M IdempotencyOutcome) (a : Option Row × ℕ)
      → Seen a
      → Ensures QuietRow (found again c a) Answered (λ s. ⊥)
  found-Answered again (none, now) s = cc (s.1)
  found-Answered again (some r, now) (x, h, f, y) =
      let same : r ≡ x = cc in
      let g : F r = subst F (sym same) f in
      rw (young_row r now g y) (pure-Ensures _ (λ s q. (q, (r, g, refl))))

  begin_attempts-Answered : (n : ℕ) → Ensures QuietRow (begin_attempts (suc n) c) Answered (λ s. ⊥)
  unfolding begin_attempts
  begin_attempts-Answered n =
      bind-Ensures {Q = λ a s. QuietRow s × (a ≡ none)}
        (call-Quiet c.principal_id c.key id at F fixes (create c) (λ a. a ≡ none)
          (λ t l y. create-refused t l))
        (λ a. record {
          run = λ s h.
              subst (λ x. Holds {E = Fault} Answered (λ s. ⊥) (created (begin_attempts n c) c x s))
                (sym h.1)
                ((bind-Ensures {Q = λ b s. QuietRow s × Seen b}
                    (call-Quiet c.principal_id c.key id at F fixes (look_up c) Seen
                      (λ t l y. (l, refl, (l.0, l.1, l.2, y))))
                    (λ b. record {
                      run = λ s h. (found-Answered (begin_attempts n c) b h.1).run s h.0;
                    })).run
                  s h.0);
        })

  pub begin_idempotent-Answered : Ensures QuietRow (begin_idempotent c) Answered (λ s. ⊥)
  unfolding begin_idempotent
  begin_idempotent-Answered = begin_attempts-Answered 1
