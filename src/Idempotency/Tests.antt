-- ===== src/Idempotency/Tests.antt =====
-- Requests with a key, and the theorems there.
use settlementos.Base.{◌≡◌, ◌≢◌, refl, true, false, List, [], ◌∷◌, some, ok, err, arith}
use settlementos.Base.Programs.{bind, pure, throw, try_catch}
use settlementos.Idempotency.Records.{
  Response, Row, Table, Claim, Step, creates, passes, reclaims, find_row, create, reclaim,
  reclaim_rows, has_row, is_expired, drop_row, abandon, steps, step,
}
use settlementos.Idempotency.Begin.{
  Shared, handler_threw, call, begin_attempts, begin_idempotent, begin_idempotency, fresh, replayed,
  responded, Request, with_idempotent_write, run_handler, stamp,
}
use settlementos.Idempotency.Retries.{one_owner}
use settlementos.Idempotency.First.{among, runs_once}

abbrev pay : Request
pay = record {
  idempotency_key = some "k-1";
  principal_id = "acme";
  route = "POST /api/payments";
  body_hash = "h1";
  is_object = true;
  require_object_body = true;
}

abbrev other_claim : Claim
other_claim = record { principal_id = "acme"; key = "k-2"; route = "r"; request_hash = "h" }

abbrev same_claim : Claim
same_claim = record {
  principal_id = "acme";
  key = "k-1";
  route = "POST /api/payments";
  request_hash = "h1";
}

abbrev created_response : Response
created_response = record { status = 201; body = "{}" }

abbrev no_rows : Table
no_rows = record { rows = []; next_id = 7; now = 1_000 }

abbrev meanwhile : List (List Step)
meanwhile =
    (creates same_claim ∷ passes 60_000 ∷ reclaims same_claim 7 1_000 ∷ [])
    ∷ (creates other_claim ∷ [])
    ∷ []

abbrev while_it_runs : List Step
while_it_runs = creates same_claim ∷ passes 30_000 ∷ []

runs_once_example :
    let first =
      with_idempotent_write pay
        (ok created_response)
        (among (creates other_claim ∷ []) while_it_runs no_rows []) in
    let retry =
      with_idempotent_write pay
        (err (handler_threw "down"))
        (record first.1 { others = meanwhile }) in
    (first.0 ≡ ok (responded created_response))
    × (retry.0 ≡ ok (replayed created_response))
    × (retry.1.ran ≡ 8 ∷ [])
unfolding find_row steps step create
runs_once_example =
    runs_once pay "k-1" created_response (creates other_claim ∷ []) while_it_runs no_rows []
      (err (handler_threw "down")) meanwhile refl (refl, refl) refl refl (tt, (tt, tt))
      ((tt, (tt, (tt, tt))), ((tt, tt), tt)) (omega arith)

abbrev live_row : Row
live_row = record {
  id = 7;
  principal_id = "acme";
  key = "k-1";
  route = "POST /api/payments";
  request_hash = "h1";
  response = some created_response;
  created_at = 1_000;
}

abbrev live : Shared
live = record {
  table = record { rows = live_row ∷ []; next_id = 8; now = 2_000 };
  others = meanwhile;
  stamp_fails = false;
  ran = 7 ∷ [];
}

one_owner_example : (begin_idempotent same_claim live).0 ≢ ok (fresh 8)
unfolding find_row
one_owner_example =
    one_owner same_claim live live_row 8 refl ((tt, (tt, (tt, tt))), ((tt, tt), tt)) (omega arith)

-- A handler that throws gives the key back, and a key that has aged out is taken over.
abandons_on_throw :
    (with_idempotent_write pay (err (handler_threw "down")) (among [] [] no_rows [])).1.table.rows
    ≡ []
unfolding with_idempotent_write begin_idempotency begin_idempotent begin_attempts bind try_catch
    throw call pure create find_row run_handler abandon drop_row steps
abandons_on_throw = refl

reclaims_aged :
    (begin_idempotent same_claim (record live {
      table = record { rows = live_row ∷ []; next_id = 8; now = 90_000_000 };
      others = [];
    })).0
    ≡ ok (fresh 7)
unfolding begin_idempotent begin_attempts bind call pure create find_row is_expired reclaim
    reclaim_rows has_row
reclaims_aged = refl

-- A response that cannot be stored gives the key back, and a retry runs its handler again.
abbrev failing : Shared
failing = record { table = no_rows; others = []; stamp_fails = true; ran = [] }

reruns_after_failed_stamp :
    (with_idempotent_write pay
      (ok created_response)
      (with_idempotent_write pay (ok created_response) failing).1).1.ran
    ≡ 7 ∷ 8 ∷ []
unfolding with_idempotent_write begin_idempotency begin_idempotent begin_attempts bind try_catch
    throw call pure create find_row run_handler stamp abandon drop_row
reruns_after_failed_stamp = refl
