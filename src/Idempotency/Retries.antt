-- ===== src/Idempotency/Retries.antt =====
-- A key has one owner, and a retry of its request is answered from the record.
use settlementos.Base.{
  ◌≡◌, ◌≢◌, refl, ap, ◌∙◌, sym, subst, ℕ, ◌+◌, ◌<◌, inl, inr, Bool, true, false, ◌&&◌, List, [],
  ◌∷◌, Bool-cases, Option-cases, Option, none, some, Result, ok, err, All, ltb, length,
}
use settlementos.Base.Texts.{String, str_eq, codes, eq_refl}
use settlementos.Base.Programs.{Ensures, Holds, bind-Ensures, pure-Ensures, relax, both-Ensures}
use settlementos.Idempotency.Records.{
  Response, Row, Table, Claim, Step, creates, reclaims, completes, abandons, passes, find_row,
  is_expired, ttl_ms,
}
use settlementos.Idempotency.Begin.{
  Shared, Fault, M, call, answer_to, begin_attempts, begin_idempotent, begin_idempotency,
  IdempotencyOutcome, fresh, replay, answers, replayed, begun, Request, with_idempotent_write,
  go_on, created, found, reclaimed, idempotency_key_max_length,
}
use settlementos.Idempotency.Rows.{Allowed}
use settlementos.Idempotency.Owner.{Quiet, elapsed_in, begin_idempotent-Answered}

-- What others do while the record with this id is live: its owner alone may abandon it.
abbrev pub Spares : ℕ → Step → Type 0
Spares id (abandons j) = j ≢ id
Spares id _ = Unit

-- And its owner alone may stamp it.
abbrev pub Leaves : ℕ → Step → Type 0
Leaves id (abandons j) = j ≢ id
Leaves id (completes j response) = j ≢ id
Leaves id _ = Unit

All-map {ℓ} :
    {A : Type ℓ} (P Q : A → Type 0) (xs : List A) → ((x : A) → P x → Q x) → All P xs → All Q xs
All-map P Q [] f h = tt
All-map P Q (x ∷ xs) f (h, hs) = (f x h, All-map P Q xs f hs)

answer_to-not_fresh : (c : Claim) (r : Row) (j : ℕ) → answer_to c r ≢ fresh j
unfolding answer_to
answer_to-not_fresh c r j e =
    elim (Bool-cases (str_eq r.route c.route && str_eq r.request_hash c.request_hash)) [
      | inl h ↦ elim (Option-cases r.response) [
        | inl g ↦ cc (rw (answer_to, h, g) at e)
        | inr (x, g) ↦ cc (rw (answer_to, h, g) at e)
      ]
      | inr h ↦ cc (rw (answer_to, h) at e)
    ]

-- A computation that never throws returns.
returned-value {ℓ} :
    {A : Type ℓ} (Q : A → Shared → Type 0) (o : Result Fault A × Shared)
    → Holds Q (λ s. ⊥) o
    → (a : A) × (o.0 ≡ ok a) × Q a o.1
returned-value Q (ok a, s) h = (a, refl, h)
returned-value Q (err e, s) h = absurd h

abbrev SameRow : Row → Row → Type 0
SameRow r x = (x.id ≡ r.id) × (x.created_at ≡ r.created_at)

spared :
    (p k : String) (r : Row) (ss : List (List Step))
    → All (All (Spares r.id)) ss
    → All (All (Allowed p k r.id r.created_at (SameRow r))) ss
spared p k r ss = All-map _ _ ss (λ x. All-map _ _ x allowed)
  where
    allowed : (s : Step) → Spares r.id s → Allowed p k r.id r.created_at (SameRow r) s
    allowed (creates c) h = tt
    allowed (reclaims c j seen) h = tt
    allowed (completes j response) h = inr (λ x f. f)
    allowed (abandons j) h = h
    allowed (passes ms) h = tt

-- While the record of a key is there, younger than its time to live, and not abandoned by its owner,
-- no other claim of the key becomes an owner, whatever others do between its calls.
pub one_owner :
    (c : Claim) (s : Shared) (r : Row) (j : ℕ)
    → find_row c.principal_id c.key s.table.rows ≡ some r
    → All (All (Spares r.id)) s.others
    → s.table.now + elapsed_in s.others < r.created_at + ttl_ms
    → (begin_idempotent c s).0 ≢ ok (fresh j)
one_owner c s r j h others young e =
    let a = returned-value _ (begin_idempotent c s) (
      (begin_idempotent-Answered c r.id r.created_at (SameRow r) (λ x f. f)).run s
        ((r, h, (refl, refl)), spared c.principal_id c.key r s.others others, young)) in
    let same : ◌≡◌ {A = Result Fault IdempotencyOutcome} (ok a.0) (ok (fresh j)) = sym a.1 ∙ e in
    let outcome : a.0 ≡ fresh j = cc in answer_to-not_fresh c a.2.1.0 j (sym a.2.1.2 ∙ outcome)

pub same_row : (r x : Row) → x ≡ r → (x.id ≡ r.id) × (x.created_at ≡ r.created_at)
same_row r x e = (ap (λ (y : Row). y.id) e, ap (λ (y : Row). y.created_at) e)

pub left :
    (p k : String) (r : Row) (ss : List (List Step))
    → All (All (Leaves r.id)) ss
    → All (All (Allowed p k r.id r.created_at (λ x. x ≡ r))) ss
left p k r ss = All-map _ _ ss (λ x. All-map _ _ x allowed)
  where
    allowed : (s : Step) → Leaves r.id s → Allowed p k r.id r.created_at (λ x. x ≡ r) s
    allowed (creates c) h = tt
    allowed (reclaims c j seen) h = tt
    allowed (completes j response) h = inl h
    allowed (abandons j) h = h
    allowed (passes ms) h = tt

-- Claiming a key runs no handler.
module _ (ran : List ℕ) where
  abbrev Ran : Shared → Type 0
  Ran s = s.ran ≡ ran

  abbrev RunsNothing {ℓ} : {A : Type ℓ} → M A → Type 0
  RunsNothing m = Ensures Ran m (λ a. Ran) (λ s. ⊥)

  call-RunsNothing {ℓ} : {A : Type ℓ} (f : Table → A × Table) → RunsNothing (call f)
  unfolding call
  call-RunsNothing f = record { run = λ s h. h }

  reclaimed-RunsNothing :
      (again : M IdempotencyOutcome) (id : ℕ) (b : Bool)
      → RunsNothing again
      → RunsNothing (reclaimed again id b)
  reclaimed-RunsNothing again id true h = pure-Ensures _ (λ s q. q)
  reclaimed-RunsNothing again id false h = h

  found-RunsNothing :
      (again : M IdempotencyOutcome) (c : Claim) (a : Option Row × ℕ)
      → RunsNothing again
      → RunsNothing (found again c a)
  found-RunsNothing again c (none, now) h = h
  found-RunsNothing again c (some r, now) h = elim (Bool-cases (is_expired r.created_at now)) [
    | inl e ↦ rw e (
        bind-Ensures {Q = λ a. Ran} (call-RunsNothing _)
          (λ b. reclaimed-RunsNothing again r.id b h))
    | inr e ↦ rw e (pure-Ensures _ (λ s q. q))
  ]

  created-RunsNothing :
      (again : M IdempotencyOutcome) (c : Claim) (a : Option ℕ)
      → RunsNothing again
      → RunsNothing (created again c a)
  created-RunsNothing again c none h =
      bind-Ensures {Q = λ a. Ran} (call-RunsNothing _) (λ a. found-RunsNothing again c a h)
  created-RunsNothing again c (some id) h = pure-Ensures _ (λ s q. q)

  begin_idempotent-RunsNothing : (c : Claim) → RunsNothing (begin_idempotent c)
  unfolding begin_idempotent begin_attempts
  begin_idempotent-RunsNothing c = bind-Ensures {Q = λ a. Ran} (call-RunsNothing _) (λ a.
      created-RunsNothing _ c a (
        bind-Ensures {Q = λ a. Ran} (call-RunsNothing _)
          (λ a. created-RunsNothing _ c a (pure-Ensures _ (λ s q. q)))))

abbrev pub claim_of : Request → String → Claim
claim_of req key = record {
  principal_id = req.principal_id;
  key = key;
  route = req.route;
  request_hash = req.body_hash;
}

-- A key that the HTTP half takes.
abbrev pub IsKey : String → Type 0
IsKey key = (str_eq key "" ≡ false) × (ltb idempotency_key_max_length (length (codes key)) ≡ false)

answer_to-replay :
    (c : Claim) (r : Row) (response : Response)
    → r.route ≡ c.route
    → r.request_hash ≡ c.request_hash
    → r.response ≡ some response
    → answer_to c r ≡ replay response
unfolding answer_to
answer_to-replay c r response h g e =
    let x : str_eq r.route c.route ≡ true =
      subst (λ t. str_eq r.route t ≡ true) h (eq_refl r.route) in
    let y : str_eq r.request_hash c.request_hash ≡ true =
      subst (λ t. str_eq r.request_hash t ≡ true) g (eq_refl r.request_hash) in
    rw (answer_to, x, y, e) refl

module _ (c : Claim) (r : Row) (response : Response) (ran : List ℕ) where
  abbrev Stored : Shared → Type 0
  Stored s =
      Quiet c.principal_id c.key r.id r.created_at (λ x. x ≡ r) (same_row r) s × (s.ran ≡ ran)

  begin_idempotent-replay :
      answer_to c r ≡ replay response
      → Ensures Stored (begin_idempotent c) (λ o s. (o ≡ replay response) × (s.ran ≡ ran)) (λ s. ⊥)
  begin_idempotent-replay h =
      relax
        (both-Ensures _ _ (λ s. ⊥)
          (begin_idempotent-Answered c r.id r.created_at (λ x. x ≡ r) (same_row r))
          (begin_idempotent-RunsNothing ran c))
        (λ o s q. (q.0.1.2 ∙ ap (answer_to c) q.0.1.1 ∙ h, q.1)) (λ s q. q)

module _ (req : Request) (key : String) (handled : Result Fault Response) (r : Row)
    (response : Response) (ran : List ℕ) where
  begin_idempotency-replay :
      IsKey key
      → answer_to (claim_of req key) r ≡ replay response
      → Ensures
          (Stored (claim_of req key) r response ran)
          (begin_idempotency (some key) req.principal_id req.route req.body_hash)
          (λ b s. (b ≡ answers (replayed response)) × (s.ran ≡ ran))
          (λ s. ⊥)
  unfolding begin_idempotency
  begin_idempotency-replay valid h =
      rw (begin_idempotency, valid.0, valid.1)
        (bind-Ensures (begin_idempotent-replay (claim_of req key) r response ran h)
          (λ o. pure-Ensures _ (λ s q. (ap begun q.0, q.1))))

  with_idempotent_write-replay :
      req.idempotency_key ≡ some key
      → IsKey key
      → answer_to (claim_of req key) r ≡ replay response
      → Ensures
          (Stored (claim_of req key) r response ran)
          (with_idempotent_write req handled)
          (λ a s. (a ≡ replayed response) × (s.ran ≡ ran))
          (λ s. ⊥)
  unfolding with_idempotent_write
  with_idempotent_write-replay named valid h =
      bind-Ensures {Q = λ b s. (b ≡ answers (replayed response)) × (s.ran ≡ ran)}
        (subst
          (λ k.
            Ensures (Stored (claim_of req key) r response ran)
              (begin_idempotency k req.principal_id req.route req.body_hash)
              (λ b s. (b ≡ answers (replayed response)) × (s.ran ≡ ran)) (λ s. ⊥))
          (sym named) (begin_idempotency-replay valid h))
        (λ b. record {
          run = λ s q.
              subst
                (λ x.
                  Holds (λ a s. (a ≡ replayed response) × (s.ran ≡ ran)) (λ s. ⊥)
                    (go_on req handled x s))
                (sym q.0)
                ((pure-Ensures {E = Fault} {P = λ s. s.ran ≡ ran}
                    {Q = λ a s. (a ≡ replayed response) × (s.ran ≡ ran)} {R = λ s. ⊥}
                    (replayed response) (λ s e. (refl, e))).run
                  s q.1);
        })

-- A retry of a request whose record is stamped, young enough and left alone by others is answered with
-- the stored response, and its handler does not run, whatever it would do.
pub retry_replays :
    (req : Request) (key : String) (handled : Result Fault Response) (s : Shared) (r : Row)
    (response : Response)
    → req.idempotency_key ≡ some key
    → IsKey key
    → find_row req.principal_id key s.table.rows ≡ some r
    → r.route ≡ req.route
    → r.request_hash ≡ req.body_hash
    → r.response ≡ some response
    → All (All (Leaves r.id)) s.others
    → s.table.now + elapsed_in s.others < r.created_at + ttl_ms
    → ((with_idempotent_write req handled s).0 ≡ ok (replayed response))
      × ((with_idempotent_write req handled s).1.ran ≡ s.ran)
retry_replays req key handled s r response named valid found route hash stamped others young =
    let answer = answer_to-replay (claim_of req key) r response route hash stamped in
    let done = returned-value _ (with_idempotent_write req handled s) (
      (with_idempotent_write-replay req key handled r response s.ran named valid answer).run s
        (((r, found, refl), left req.principal_id key r s.others others, young), refl)) in
    (done.1 ∙ ap ok done.2.0, done.2.1)
