-- ===== src/Idempotency/Records.antt =====
-- The table of idempotency records, by its single calls, and what other callers do to it. A row's id
-- is its number; times are milliseconds.
use settlementos.Base.{
  ℕ, ◌+◌, ◌*◌, Bool, true, false, ◌&&◌, List, [], ◌∷◌, ◌++◌, ◌==◌, leb, if◌then◌else◌, Option, none,
  some,
}
use settlementos.Base.Texts.{String, str_eq}

-- IDEMPOTENCY_TTL_MS.
abbrev pub ttl_ms : ℕ
ttl_ms = 24 * 60 * 60 * 1_000

-- The two columns of a response, which are stamped together.
pub record Response : Type 0 where
  pub status : ℕ
  pub body : String

-- model IdempotencyRecord.
pub record Row : Type 0 where
  pub id : ℕ
  pub principal_id : String
  pub key : String
  pub route : String
  pub request_hash : String
  pub response : Option Response
  pub created_at : ℕ

pub record Table : Type 0 where
  pub rows : List Row
  pub next_id : ℕ
  pub now : ℕ

-- `findUnique({ where: { principalId_key } })`.
unfoldable pub find_row : String → String → List Row → Option Row
find_row p k [] = none
find_row p k (r ∷ rs) =
    if str_eq r.principal_id p && str_eq r.key k then some r else find_row p k rs

-- What a request brings: whose it is, its key, its target and the digest of its body.
pub record Claim : Type 0 where
  pub principal_id : String
  pub key : String
  pub route : String
  pub request_hash : String

abbrev pub new_row : Claim → ℕ → ℕ → Row
new_row c id now = record {
  id = id;
  principal_id = c.principal_id;
  key = c.key;
  route = c.route;
  request_hash = c.request_hash;
  response = none;
  created_at = now;
}

abbrev pub inserted : Claim → Table → Table
inserted c t = record {
  rows = t.rows ++ new_row c t.next_id t.now ∷ [];
  next_id = t.next_id + 1;
  now = t.now;
}

-- `create`: the unique index refuses a key that has a row.
unfoldable pub create : Claim → Table → Option ℕ × Table
create c t = elim (find_row c.principal_id c.key t.rows) [
  | some r ↦ (none, t)
  | none ↦ (some t.next_id, inserted c t)
]

unfoldable pub is_expired : ℕ → ℕ → Bool
is_expired created_at now = leb (created_at + ttl_ms) now

-- `updateMany` on the row that was read, where it still is as it was.
unfoldable pub reclaim_rows : Claim → ℕ → ℕ → ℕ → List Row → List Row
reclaim_rows c id seen now [] = []
reclaim_rows c id seen now (r ∷ rs) =
    let rest = reclaim_rows c id seen now rs in
    if r.id == id && r.created_at == seen
    then record r {
      route = c.route;
      request_hash = c.request_hash;
      response = none;
      created_at = now;
    }
      ∷ rest
    else r ∷ rest

unfoldable pub has_row : ℕ → ℕ → List Row → Bool
has_row id seen [] = false
has_row id seen (r ∷ rs) = if r.id == id && r.created_at == seen then true else has_row id seen rs

unfoldable pub reclaim : Claim → ℕ → ℕ → Table → Bool × Table
reclaim c id seen t =
    (has_row id seen t.rows, record t { rows = reclaim_rows c id seen t.now t.rows })

-- `completeIdempotent`.
unfoldable pub stamp_rows : ℕ → Response → List Row → List Row
stamp_rows id response [] = []
stamp_rows id response (r ∷ rs) =
    let rest = stamp_rows id response rs in
    if r.id == id then record r { response = some response } ∷ rest else r ∷ rest

unfoldable pub complete : ℕ → Response → Table → Table
complete id response t = record t { rows = stamp_rows id response t.rows }

-- `abandonIdempotent`.
unfoldable pub drop_row : ℕ → List Row → List Row
drop_row id [] = []
drop_row id (r ∷ rs) = let rest = drop_row id rs in if r.id == id then rest else r ∷ rest

unfoldable pub abandon : ℕ → Table → Table
abandon id t = record t { rows = drop_row id t.rows }

-- One step of another caller, or of the clock. A caller reclaims a row only after it read it and found
-- it expired.
pub data Step : Type 0 where
  creates : Claim → Step
  reclaims : Claim → (id seen : ℕ) → Step
  completes : (id : ℕ) → Response → Step
  abandons : (id : ℕ) → Step
  passes : ℕ → Step

unfoldable pub step : Step → Table → Table
step (creates c) t = (create c t).1
step (reclaims c id seen) t = if is_expired seen t.now then (reclaim c id seen t).1 else t
step (completes id response) t = complete id response t
step (abandons id) t = abandon id t
step (passes ms) t = record t { now = t.now + ms }

unfoldable pub steps : List Step → Table → Table
steps [] t = t
steps (s ∷ ss) t = steps ss (step s t)
