-- ===== src/Idempotency/Rows.antt =====
-- The row of a key, and what the calls on the table leave of it.
use settlementos.Base.{
  ◌≡◌, ◌≢◌, refl, sym, subst, ℕ, ◌+◌, ◌<◌, ◌⊎◌, inl, inr, Bool, false, ◌&&◌, List, [], ◌∷◌, ◌++◌,
  ◌==◌, leb, if◌then◌else◌, Bool-cases, Option-cases, some, arith, All,
}
use settlementos.Base.Texts.{String, str_eq}
use settlementos.Idempotency.Records.{
  Response, Row, Table, Claim, Step, creates, reclaims, completes, abandons, passes, find_row,
  create, is_expired, reclaim_rows, reclaim, stamp_rows, complete, drop_row, abandon, step, steps,
  ttl_ms,
}

some_inj {ℓ} : {A : Type ℓ} {a b : A} → some a ≡ some b → a ≡ b
some_inj e = cc

abbrev keyed : String → String → Row → Bool
keyed p k r = str_eq r.principal_id p && str_eq r.key k

pub find-append :
    (p k : String) (rows : List Row) (x r : Row)
    → find_row p k rows ≡ some r
    → find_row p k (rows ++ x ∷ []) ≡ some r
unfolding find_row
find-append p k [] x r h = cc
find-append p k (y ∷ rows) x r h = elim (Bool-cases (keyed p k y)) [
  | inl e ↦ rw e (rw e at h)
  | inr e ↦ rw e (find-append p k rows x r (rw e at h))
]

find-reclaim :
    (p k : String) (c : Claim) (id seen now : ℕ) (rows : List Row) (r : Row)
    → find_row p k rows ≡ some r
    → (r.id == id && r.created_at == seen) ≡ false
    → find_row p k (reclaim_rows c id seen now rows) ≡ some r
unfolding find_row reclaim_rows
find-reclaim p k c id seen now [] r h n = cc
find-reclaim p k c id seen now (y ∷ rows) r h n = elim (Bool-cases (keyed p k y)) [
  | inl e ↦
      let same : y ≡ r = some_inj (rw e at h) in
      let other : (y.id == id && y.created_at == seen) ≡ false =
        subst (λ (x : Row). (x.id == id && x.created_at == seen) ≡ false) (sym same) n in
      rw other (rw e (rw e at h))
  | inr e ↦
      let later = find-reclaim p k c id seen now rows r (rw e at h) n in
      elim (Bool-cases (y.id == id && y.created_at == seen)) [
        | inl x ↦ rw x (rw e later)
        | inr x ↦ rw x (rw e later)
      ]
]

find-drop :
    (p k : String) (id : ℕ) (rows : List Row) (r : Row)
    → find_row p k rows ≡ some r
    → (r.id == id) ≡ false
    → find_row p k (drop_row id rows) ≡ some r
unfolding find_row drop_row
find-drop p k id [] r h n = cc
find-drop p k id (y ∷ rows) r h n = elim (Bool-cases (keyed p k y)) [
  | inl e ↦
      let same : y ≡ r = some_inj (rw e at h) in
      let other : (y.id == id) ≡ false = subst (λ (x : Row). (x.id == id) ≡ false) (sym same) n in
      rw other (rw e (rw e at h))
  | inr e ↦
      let later = find-drop p k id rows r (rw e at h) n in
      elim (Bool-cases (y.id == id)) [ inl x ↦ rw x later | inr x ↦ rw x (rw e later) ]
]

-- The row that is found after a stamp: the same one, or the same with the response.
abbrev pub stamped : ℕ → Response → Row → Row
stamped id response r = if r.id == id then record r { response = some response } else r

pub find-stamp :
    (p k : String) (id : ℕ) (response : Response) (rows : List Row) (r : Row)
    → find_row p k rows ≡ some r
    → find_row p k (stamp_rows id response rows) ≡ some (stamped id response r)
unfolding find_row stamp_rows
find-stamp p k id response [] r h = cc
find-stamp p k id response (y ∷ rows) r h = elim (Bool-cases (keyed p k y)) [
  | inl e ↦
      let same : y ≡ r = some_inj (rw e at h) in
      subst
        (λ (x : Row).
          find_row p k (
            if y.id == id
            then record y { response = some response } ∷ stamp_rows id response rows
            else y ∷ stamp_rows id response rows)
          ≡ some (stamped id response x))
        same
        (elim (Bool-cases (y.id == id)) [ inl x ↦ rw x (rw e refl) | inr x ↦ rw x (rw e refl) ])
  | inr e ↦
      let later = find-stamp p k id response rows r (rw e at h) in
      elim (Bool-cases (y.id == id)) [ inl x ↦ rw x (rw e later) | inr x ↦ rw x (rw e later) ]
]

-- The time that passes in a step.
abbrev pub elapsed : Step → ℕ
elapsed (passes ms) = ms
elapsed _ = 0

abbrev pub elapsed_all : List Step → ℕ
elapsed_all [] = 0
elapsed_all (s ∷ ss) = elapsed s + elapsed_all ss

now-step : (s : Step) (t : Table) → (step s t).now ≡ t.now + elapsed s
unfolding step create reclaim complete abandon
now-step (creates c) t = elim (Option-cases (find_row c.principal_id c.key t.rows)) [
  | inl e ↦ rw (step, create, e) (omega arith)
  | inr (r, e) ↦ rw (step, create, e) (omega arith)
]
now-step (reclaims c id seen) t = elim (Bool-cases (is_expired seen t.now)) [
  | inl e ↦ rw (step, e) (omega arith)
  | inr e ↦ rw (step, e) (omega arith)
]
now-step (completes id response) t = omega arith
now-step (abandons id) t = omega arith
now-step (passes ms) t = refl

pub now-steps : (ss : List Step) (t : Table) → (steps ss t).now ≡ t.now + elapsed_all ss
unfolding steps
now-steps [] t = omega arith
now-steps (s ∷ ss) t = omega (arith, now-steps ss (step s t), now-step s t)

different : (x j id : ℕ) → x ≡ id → j ≢ id → (x == j) ≡ false
different x j id e n = elim (Bool-cases (x == j)) [
  | inl y ↦ absurd (n (ground (arith, y, e)))
  | inr y ↦ y
]

-- A row that is still live, and what may be known of it: `F` fixes its id and its time.
module _ (p k : String) (id at : ℕ) (F : Row → Type 0) where
  abbrev pub Fixes : Type 0
  Fixes = (r : Row) → F r → (r.id ≡ id) × (r.created_at ≡ at)

  -- The steps of others that leave it: they do not abandon it, and stamp it only as `F` lets them.
  abbrev pub Allowed : Step → Type 0
  Allowed (creates c) = Unit
  Allowed (reclaims c j seen) = Unit
  Allowed (completes j response) =
      (j ≢ id) ⊎ ((r : Row) → F r → F (record r { response = some response }))
  Allowed (abandons j) = j ≢ id
  Allowed (passes ms) = Unit

  abbrev pub Live : Table → Type 0
  Live t = (r : Row) × (find_row p k t.rows ≡ some r) × F r

  stamp_fact :
      (j : ℕ) (response : Response) (r : Row)
      → r.id ≡ id
      → F r
      → (j ≢ id) ⊎ ((r : Row) → F r → F (record r { response = some response }))
      → F (stamped j response r)
  stamp_fact j response r e f (inl n) = rw (different r.id j id e n) f
  stamp_fact j response r e f (inr g) = elim (Bool-cases (r.id == j)) [
    | inl x ↦ rw x (g r f)
    | inr x ↦ rw x f
  ]

  step-Live :
      (s : Step) (t : Table) → Fixes → Allowed s → t.now < at + ttl_ms → Live t → Live (step s t)
  unfolding step create reclaim complete abandon is_expired
  step-Live (creates c) t fixes a young (r, h, f) =
      elim (Option-cases (find_row c.principal_id c.key t.rows)) [
        | inl e ↦ rw (step, create, e) (r, find-append p k t.rows _ r h, f)
        | inr (x, e) ↦ rw (step, create, e) (r, h, f)
      ]
  step-Live (reclaims c j seen) t fixes a young (r, h, f) =
      elim (Bool-cases (leb (seen + ttl_ms) t.now)) [
        | inl e ↦
            let other : (r.id == j && r.created_at == seen) ≡ false =
              ground (arith, e, young, (fixes r f).1) in
            rw e (r, find-reclaim p k c j seen t.now t.rows r h other, f)
        | inr e ↦ rw e (r, h, f)
      ]
  step-Live (completes j response) t fixes a young (r, h, f) = (
    stamped j response r,
    find-stamp p k j response t.rows r h,
    stamp_fact j response r (fixes r f).0 f a,
  )
  step-Live (abandons j) t fixes a young (r, h, f) =
      (r, find-drop p k j t.rows r h (different r.id j id (fixes r f).0 a), f)
  step-Live (passes ms) t fixes a young l = l

  pub steps-Live :
      (ss : List Step) (t : Table)
      → Fixes
      → All Allowed ss
      → t.now + elapsed_all ss < at + ttl_ms
      → Live t
      → Live (steps ss t)
  unfolding steps
  steps-Live [] t fixes a young l = l
  steps-Live (s ∷ ss) t fixes (a, rest) young l =
      steps-Live ss (step s t) fixes rest (omega (arith, now-step s t, young))
        (step-Live s t fixes a (omega (arith, young)) l)
