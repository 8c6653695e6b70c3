-- ===== src/Audit/Anchor.antt =====
-- Whole histories of the log, and what a signed anchor pins down of them.
use settlementos.Base.{
  ◌≡◌, refl, true, List, [], ◌∷◌, Option, none, some, arith, length, ok, err, Result-cases, inl,
  inr,
}
use settlementos.Base.Texts.{String}
use settlementos.Audit.Log.{Entry, AuditLog, Digests, Settings, append_event, create_checkpoint}
use settlementos.Audit.Verify.{verify_audit_chain}
use settlementos.Audit.Append.{IsSound}
use settlementos.Audit.Sound.{append_event-IsSound, create_checkpoint-IsSound, IsSound-valid}

-- The log of a new database.
abbrev pub new_log : AuditLog
new_log = record { events = []; checkpoints = []; next_event = 1; next_checkpoint = 1 }

-- What the program asks of the log: to append an event, or to anchor the tip.
pub data Request : Type 0 where
  append : Entry → Request
  anchor : Request

module _ (d : Digests) (s : Settings) where
  -- A refused anchor changes nothing.
  unfoldable pub apply_request : Request → AuditLog → AuditLog
  apply_request (append e) log = append_event d s e log
  apply_request anchor log = elim (create_checkpoint d s log) [ ok log' ↦ log' | err _ ↦ log ]

  unfoldable pub apply_requests : List Request → AuditLog → AuditLog
  apply_requests [] log = log
  apply_requests (r ∷ rs) log = apply_requests rs (apply_request r log)

  apply_request-IsSound :
      (r : Request) (log : AuditLog) → IsSound d s log → IsSound d s (apply_request r log)
  unfolding apply_request
  apply_request-IsSound (append e) log v = append_event-IsSound d s e log v
  apply_request-IsSound anchor log v = elim (Result-cases (create_checkpoint d s log)) [
    | inl (log', e) ↦ rw (e, apply_request) (create_checkpoint-IsSound d s log log' v e)
    | inr (x, e) ↦ rw (e, apply_request) v
  ]

  pub apply_requests-IsSound :
      (rs : List Request) (log : AuditLog) → IsSound d s log → IsSound d s (apply_requests rs log)
  unfolding apply_requests
  apply_requests-IsSound [] log v = v
  apply_requests-IsSound (r ∷ rs) log v =
      apply_requests-IsSound rs (apply_request r log) (apply_request-IsSound r log v)

  new_log-IsSound : (k : Option String) → k ≡ s.anchor_key → IsSound d s new_log
  new_log-IsSound none e = record {
    chained = tt;
    below = tt;
    rising = tt;
    positive = omega arith;
    genuine = rw (← e) tt;
  }
  new_log-IsSound (some key) e = record {
    chained = tt;
    below = tt;
    rising = tt;
    positive = omega arith;
    genuine = rw (← e) tt;
  }

  -- Whatever is appended and anchored, in any order, the log of a new database is reported valid,
  -- with all of its events checked.
  pub history_valid :
      (rs : List Request)
      → ((verify_audit_chain d s (apply_requests rs new_log)).valid ≡ true)
        × ((verify_audit_chain d s (apply_requests rs new_log)).events_verified
            ≡ length (apply_requests rs new_log).events)
  history_valid rs =
      IsSound-valid d s (apply_requests rs new_log)
        (apply_requests-IsSound rs new_log (new_log-IsSound s.anchor_key refl))
