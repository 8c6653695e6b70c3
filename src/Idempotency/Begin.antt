-- ===== src/Idempotency/Begin.antt =====
-- Claiming a key, call by call, with the steps of others in between; and the write that it guards.
-- The digest of a body is the platform's, so it is a parameter.
use settlementos.Base.{
  ℕ, zero, suc, Bool, true, false, ◌&&◌, not, List, [], ◌∷◌, ◌++◌, ltb, leb, if◌then◌else◌, length,
  Option, none, some, Result, ok, err,
}
use settlementos.Base.Texts.{String, str_eq, codes}
use settlementos.Base.Programs.{Program, pure, throw, try_catch, ◌>>=◌, ◌>>◌}
use settlementos.Access.Guard.{
  ApiError, error_response, api_error, idempotency_conflict, conflict, invalid_request,
}
use settlementos.Idempotency.Records.{
  Response, Row, Table, Claim, Step, steps, find_row, create, reclaim, complete, abandon,
  is_expired,
}

pub data IdempotencyOutcome : Type 0 where
  fresh : (record_id : ℕ) → IdempotencyOutcome
  replay : Response → IdempotencyOutcome
  mismatch in_flight : IdempotencyOutcome

-- The table, what others will do before each of our calls, whether the database fails when a response
-- is stored, and the ids whose handlers ran, which no code reads.
pub record Shared : Type 0 where
  pub table : Table
  pub others : List (List Step)
  pub stamp_fails : Bool
  pub ran : List ℕ

-- An error that the handler throws, or the storing of its response.
pub data Fault : Type 0 where
  handler_threw : String → Fault
  stamp_threw : Fault

abbrev pub M {ℓ} : Type ℓ → Type ℓ
M A = Program Shared Fault A

abbrev pub after_others : Shared → Table
after_others s = elim s.others [ [] ↦ s.table | ss ∷ rest ↦ steps ss s.table ]

abbrev pub later : Shared → List (List Step)
later s = elim s.others [ [] ↦ [] | ss ∷ rest ↦ rest ]

-- One call of the database.
unfoldable pub call {ℓ} : {A : Type ℓ} → (Table → A × Table) → M A
call f s =
    (ok (f (after_others s)).0, record s { table = (f (after_others s)).1; others = later s })

-- What a live record says to a claim.
unfoldable pub answer_to : Claim → Row → IdempotencyOutcome
answer_to c r =
    if str_eq r.route c.route && str_eq r.request_hash c.request_hash
    then elim r.response [ none ↦ in_flight | some response ↦ replay response ]
    else mismatch

-- One attempt of the loop in `beginIdempotent`, and `again` the ones that are left. The clock is read
-- with the row.
abbrev pub reclaimed : M IdempotencyOutcome → ℕ → Bool → M IdempotencyOutcome
reclaimed again id true = pure (fresh id)
reclaimed again id false = again

abbrev pub found : M IdempotencyOutcome → Claim → Option Row × ℕ → M IdempotencyOutcome
found again c (none, now) = again
found again c (some r, now) =
    if is_expired r.created_at now
    then call (reclaim c r.id r.created_at) >>= reclaimed again r.id
    else pure (answer_to c r)

abbrev pub look_up : Claim → Table → (Option Row × ℕ) × Table
look_up c t = ((find_row c.principal_id c.key t.rows, t.now), t)

abbrev pub created : M IdempotencyOutcome → Claim → Option ℕ → M IdempotencyOutcome
created again c (some id) = pure (fresh id)
created again c none = call (look_up c) >>= found again c

unfoldable pub begin_attempts : ℕ → Claim → M IdempotencyOutcome
begin_attempts zero c = pure in_flight
begin_attempts (suc n) c = call (create c) >>= created (begin_attempts n c) c

unfoldable pub begin_idempotent : Claim → M IdempotencyOutcome
begin_idempotent c = begin_attempts 2 c

-- app/api/idempotency.ts. What a request is answered with: a response of the handler, a stored one, or
-- a refusal.
pub data Answer : Type 0 where
  responded replayed : Response → Answer
  refused : ApiError → Answer

-- IdempotentScope: a request without a key, or the owner of a record.
pub data Scope : Type 0 where
  passthrough : Scope
  owning : (record_id : ℕ) → Scope

pub data Begun : Type 0 where
  goes_on : Scope → Begun
  answers : Answer → Begun

abbrev pub idempotency_key_max_length : ℕ
idempotency_key_max_length = 255

abbrev pub begun : IdempotencyOutcome → Begun
begun (fresh id) = goes_on (owning id)
begun (replay response) = answers (replayed response)
begun mismatch = answers (refused (error_response idempotency_conflict))
begun in_flight =
    answers
      (refused (api_error conflict (some "a request with this Idempotency-Key is still in flight")))

unfoldable pub begin_idempotency :
    (key : Option String) → String → (route request_hash : String) → M Begun
begin_idempotency none principal route hash = pure (goes_on passthrough)
begin_idempotency (some key) principal route hash =
    if str_eq key ""
    then pure (goes_on passthrough)
    else if ltb idempotency_key_max_length (length (codes key))
    then pure (
        answers (
          refused
            (api_error invalid_request (some "Idempotency-Key must be at most 255 characters"))))
    else (do
      outcome ←
          begin_idempotent
            (record { principal_id = principal; key = key; route = route; request_hash = hash })
      pure (begun outcome))

-- `completeIdempotent`, which may throw and then stores nothing.
unfoldable pub stamp : ℕ → Response → M (Unit {0})
stamp id response s =
    if s.stamp_fails
    then (err stamp_threw, record s { table = after_others s; others = later s })
    else call (λ t. (tt, complete id response t)) s

abbrev pub complete_scope : Scope → Response → M (Unit {0})
complete_scope passthrough response = pure tt
complete_scope (owning id) response = stamp id response

abbrev pub abandon_scope : Scope → M (Unit {0})
abandon_scope passthrough = pure tt
abandon_scope (owning id) = call (λ t. (tt, abandon id t))

-- The handler runs, which the ghost list records.
abbrev pub noted : Scope → List ℕ → List ℕ
noted passthrough ran = ran
noted (owning id) ran = ran ++ id ∷ []

unfoldable pub run_handler : Scope → Result Fault Response → M Response
run_handler scope (ok r) s = (ok r, record s { ran = noted scope s.ran })
run_handler scope (err e) s = (err e, record s { ran = noted scope s.ran })

-- `res.ok`.
abbrev pub is_ok : Response → Bool
is_ok r = leb 200 r.status && leb r.status 299

-- What a request brings: the digest of its body, and whether the body is an object.
pub record Request : Type 0 where
  pub idempotency_key : Option String
  pub principal_id : String
  pub route : String
  pub body_hash : String
  pub is_object : Bool
  pub require_object_body : Bool

-- Only a rejection of the body's shape gives the key back.
abbrev pub finish : Scope → Request → Response → M Answer
finish scope req res =
    if req.require_object_body && not (is_ok res) && not req.is_object
    then abandon_scope scope >> pure (responded res)
    else complete_scope scope res >> pure (responded res)

abbrev pub guarded : Scope → Request → Result Fault Response → M Answer
guarded scope req handled =
    try_catch (run_handler scope handled >>= finish scope req) (λ e. abandon_scope scope >> throw e)

abbrev pub go_on : Request → Result Fault Response → Begun → M Answer
go_on req handled (answers a) = pure a
go_on req handled (goes_on scope) = guarded scope req handled

-- `withIdempotentWrite`, past its gate; `handled` is what the handler would end with.
unfoldable pub with_idempotent_write : Request → Result Fault Response → M Answer
with_idempotent_write req handled =
    begin_idempotency req.idempotency_key req.principal_id req.route req.body_hash
    >>= go_on req handled
