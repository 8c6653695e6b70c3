-- ===== src/Idempotency/First.antt =====
-- The first request with a key runs its handler and stores the response, and its retries do not.
use settlementos.Base.{
  ◌≡◌, refl, ap, ◌∙◌, sym, subst, ℕ, ◌+◌, ◌<◌, inl, inr, true, false, ◌&&◌, not, List, [], ◌∷◌,
  ◌++◌, ◌==◌, Bool-cases, none, some, Result, ok, arith, All,
}
use settlementos.Base.Texts.{String, str_eq, eq_refl}
use settlementos.Base.Programs.{bind, pure, try_catch}
use settlementos.Idempotency.Records.{
  Response, Row, Table, Claim, Step, find_row, create, ttl_ms, new_row, inserted, steps, complete,
}
use settlementos.Idempotency.Begin.{
  Shared, Fault, call, begin_attempts, begin_idempotent, begin_idempotency, fresh, goes_on, owning,
  replayed, responded, Request, with_idempotent_write, run_handler, is_ok, stamp,
}
use settlementos.Idempotency.Retries.{claim_of, IsKey, Leaves, retry_replays, left, same_row}
use settlementos.Idempotency.Rows.{stamped, find-stamp, steps-Live, now-steps, elapsed_all}
use settlementos.Idempotency.Owner.{elapsed_in}

-- A request that comes when others will take these steps before its first call and before its second
-- one, and its response can be stored.
abbrev pub among : List Step → List Step → Table → List ℕ → Shared
among before during t ran = record {
  table = t;
  others = before ∷ during ∷ [];
  stamp_fails = false;
  ran = ran;
}

create-fresh :
    (c : Claim) (t : Table)
    → find_row c.principal_id c.key t.rows ≡ none
    → create c t ≡ (some t.next_id, inserted c t)
unfolding create
create-fresh c t h = rw (create, h) refl

module _ (before during : List Step) (t : Table) (ran : List ℕ) (c : Claim) where
  begin_fresh :
      find_row c.principal_id c.key (steps before t).rows ≡ none
      → begin_idempotent c (among before during t ran) ≡ (
        ok (fresh (steps before t).next_id),
        record {
          table = inserted c (steps before t);
          others = during ∷ [];
          stamp_fails = false;
          ran = ran;
        },
      )
  unfolding begin_idempotent begin_attempts bind call pure
  begin_fresh h = rw (create-fresh c (steps before t) h) refl

-- The row that the first request leaves.
abbrev pub stored_row : Claim → Response → Table → Row
stored_row c res t = record (new_row c t.next_id t.now) { response = some res }

abbrev pub stored : Claim → Response → List Step → Table → Table
stored c res during t = complete t.next_id res (steps during (inserted c t))

find-inserted :
    (c : Claim) (id now : ℕ) (rows : List Row)
    → find_row c.principal_id c.key rows ≡ none
    → find_row c.principal_id c.key (rows ++ new_row c id now ∷ []) ≡ some (new_row c id now)
unfolding find_row
find-inserted c id now [] h = rw (eq_refl c.principal_id, eq_refl c.key) refl
find-inserted c id now (y ∷ rows) h =
    elim (Bool-cases (str_eq y.principal_id c.principal_id && str_eq y.key c.key)) [
      | inl e ↦ cc (rw e at h)
      | inr e ↦ rw e (find-inserted c id now rows (rw e at h))
    ]

stamped-new :
    (c : Claim) (res : Response) (t : Table)
    → stamped t.next_id res (new_row c t.next_id t.now) ≡ stored_row c res t
stamped-new c res t = let same : (t.next_id == t.next_id) ≡ true = ground arith in rw same refl

-- The row is still there after what others did meanwhile, and is stamped.
find-stored :
    (c : Claim) (res : Response) (during : List Step) (t : Table)
    → find_row c.principal_id c.key t.rows ≡ none
    → All (Leaves t.next_id) during
    → elapsed_all during < ttl_ms
    → find_row c.principal_id c.key (stored c res during t).rows ≡ some (stored_row c res t)
unfolding complete
find-stored c res during t h spared young =
    let row : Row = new_row c t.next_id t.now in
    let live =
      steps-Live c.principal_id c.key row.id row.created_at (λ x. x ≡ row) during (inserted c t)
        (same_row row) (left c.principal_id c.key row (during ∷ []) (spared, tt)).0
        (omega (arith, young)) (row, find-inserted c t.next_id t.now t.rows h, refl) in
    find-stamp c.principal_id c.key t.next_id res (steps during (inserted c t)).rows live.0 live.1
    ∙ ap some (ap (stamped t.next_id res) live.2 ∙ stamped-new c res t)

module _ (req : Request) (key : String) (res : Response) (before during : List Step) (t : Table)
    (ran : List ℕ) where
  abbrev here : Table
  here = steps before t

  goes_on_fresh :
      IsKey key
      → find_row req.principal_id key here.rows ≡ none
      → begin_idempotency
          (some key)
          req.principal_id
          req.route
          req.body_hash
          (among before during t ran)
        ≡ (
          ok (goes_on (owning here.next_id)),
          record {
            table = inserted (claim_of req key) here;
            others = during ∷ [];
            stamp_fails = false;
            ran = ran;
          },
        )
  unfolding begin_idempotency bind pure
  goes_on_fresh valid h =
      rw (begin_idempotency, valid.0, valid.1, begin_fresh before during t ran (claim_of req key) h)
        refl

  first_write :
      req.idempotency_key ≡ some key
      → IsKey key
      → find_row req.principal_id key here.rows ≡ none
      → (req.require_object_body && not (is_ok res) && not req.is_object) ≡ false
      → with_idempotent_write req (ok res) (among before during t ran) ≡ (
        ok (responded res),
        record {
          table = stored (claim_of req key) res during here;
          others = [];
          stamp_fails = false;
          ran = ran ++ here.next_id ∷ [];
        },
      )
  unfolding with_idempotent_write bind try_catch run_handler stamp call pure
  first_write named valid h shape =
      rw (with_idempotent_write, named, bind, goes_on_fresh valid h, shape) refl

-- A first request with a key whose handler answers, other than by rejecting the shape of the body,
-- and whose response can be stored, runs its handler once, whatever others do before it, while it
-- runs, and afterwards, short of abandoning or stamping its record: until the record's time to live
-- has passed, every retry of the same request is answered with that response and runs nothing,
-- whatever its handler would do.
pub runs_once :
    (req : Request) (key : String) (res : Response) (before during : List Step) (t : Table)
    (ran : List ℕ) (handled : Result Fault Response) (others : List (List Step))
    → req.idempotency_key ≡ some key
    → IsKey key
    → find_row req.principal_id key (steps before t).rows ≡ none
    → (req.require_object_body && not (is_ok res) && not req.is_object) ≡ false
    → All (Leaves (steps before t).next_id) during
    → All (All (Leaves (steps before t).next_id)) others
    → elapsed_all during + elapsed_in others < ttl_ms
    → let first = with_idempotent_write req (ok res) (among before during t ran) in
      let retry = with_idempotent_write req handled (record first.1 { others = others }) in
      (first.0 ≡ ok (responded res))
      × (retry.0 ≡ ok (replayed res))
      × (retry.1.ran ≡ ran ++ (steps before t).next_id ∷ [])
unfolding complete
runs_once req key res before during t ran handled others named valid h shape meanwhile spared
      young =
    let here : Table = steps before t in
    let c = claim_of req key in
    let first = first_write req key res before during t ran named valid h shape in
    let after : Shared = record {
      table = stored c res during here;
      others = others;
      stamp_fails = false;
      ran = ran ++ here.next_id ∷ [];
    } in
    let retry =
      retry_replays req key handled after (stored_row c res here) res named valid
        (find-stored c res during here h meanwhile (omega (arith, young))) refl refl refl spared
        (omega (arith, young, now-steps during (inserted c here))) in
    let same : record (with_idempotent_write req (ok res) (among before during t ran)).1 {
      others = others;
    }
        ≡ after =
      ap (λ x. record x.1 { others = others }) first in
    (
      ap (λ x. x.0) first,
      subst (λ s. (with_idempotent_write req handled s).0 ≡ ok (replayed res)) (sym same) retry.0,
      subst (λ s. (with_idempotent_write req handled s).1.ran ≡ ran ++ here.next_id ∷ []) (sym same)
          retry.1,
    )
