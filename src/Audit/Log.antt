-- ===== src/Audit/Log.antt =====
-- The rows of the log, and the functions that write them.
use settlementos.Base.{
  ℕ, ◌+◌, Bool, false, List, [], ◌∷◌, ◌++◌, ◌==◌, ltb, if◌then◌else◌, Option, none, some, last?,
  Result, ok, err,
}
use settlementos.Base.Texts.{String, codes}
use settlementos.Decimal.{Text, to_text}

-- The columns of an event that a caller gives.
pub record Entry : Type 0 where
  pub action : String
  pub actor : String
  pub payment_id : Option String
  pub detail : String

-- model AuditEvent, without its time.
pub record AuditEvent : Type 0 where
  pub id : ℕ
  pub entry : Entry
  pub prev_hash : String
  pub hash : String

-- model AuditCheckpoint, without its time.
pub record Checkpoint : Type 0 where
  pub id : ℕ
  pub last_event_id : ℕ
  pub chain_hash : String
  pub signature : String

-- The two tables in the order of their ids, and the ids that the database gives next.
pub record AuditLog : Type 0 where
  pub events : List AuditEvent
  pub checkpoints : List Checkpoint
  pub next_event : ℕ
  pub next_checkpoint : ℕ

-- createHash("sha256") and createHmac("sha256", key), in hexadecimal.
pub record Digests : Type 0 where
  pub sha256 : Text → String
  pub hmac : String → Text → String

-- The environment: AUDIT_ANCHOR_KEY, unset or empty as `none`, and AUDIT_CHECKPOINT_INTERVAL where
-- it reads as an integer.
pub record Settings : Type 0 where
  pub anchor_key : Option String
  pub interval : Option ℕ

abbrev pub genesis : String
genesis = "GENESIS"

-- `paymentId ?? ""`.
abbrev pub or_empty : Option String → String
or_empty none = ""
or_empty (some s) = s

abbrev bar : ℕ
bar = b'|'

-- The text that an event's hash covers.
unfoldable pub event_line : String → Entry → Text
event_line prev_hash e =
    codes prev_hash
    ++ bar
      ∷ (codes e.action
          ++ bar ∷ (codes e.actor ++ bar ∷ (codes (or_empty e.payment_id) ++ bar ∷ codes e.detail)))

abbrev default_checkpoint_interval : ℕ
default_checkpoint_interval = 100

unfoldable pub checkpoint_interval : Settings → ℕ
checkpoint_interval s = elim s.interval [
  | none ↦ default_checkpoint_interval
  | some n ↦ if ltb 0 n then n else default_checkpoint_interval
]

-- The text that an anchor signs: its position and its hash.
unfoldable pub anchor_line : ℕ → String → Text
anchor_line last_event_id chain_hash = to_text last_event_id ++ bar ∷ codes chain_hash

-- `last?.hash ?? "GENESIS"`.
abbrev pub tip_hash : Option AuditEvent → String
tip_hash none = genesis
tip_hash (some e) = e.hash

-- `last?.lastEventId ?? 0`.
abbrev pub anchored_up_to : Option Checkpoint → ℕ
anchored_up_to none = 0
anchored_up_to (some c) = c.last_event_id

-- The events with an id above `n`, counted.
unfoldable pub count_after : ℕ → List AuditEvent → ℕ
count_after n [] = 0
count_after n (e ∷ es) = (if ltb n e.id then 1 else 0) + count_after n es

pub data AuditAnchorError : Type 0 where
  not_configured no_events : AuditAnchorError

-- `last?.lastEventId === id`.
abbrev pub is_anchored : ℕ → Option Checkpoint → Bool
is_anchored id none = false
is_anchored id (some c) = c.last_event_id == id

-- `auditEvent.create`.
abbrev pub insert_event : AuditEvent → AuditLog → AuditLog
insert_event event log = record log {
  events = log.events ++ event ∷ [];
  next_event = log.next_event + 1;
}

module _ (d : Digests) where
  unfoldable pub hash_event : String → Entry → String
  hash_event prev_hash e = d.sha256 (event_line prev_hash e)

  unfoldable pub sign_anchor : ℕ → String → String → String
  sign_anchor last_event_id chain_hash key = d.hmac key (anchor_line last_event_id chain_hash)

  unfoldable pub write_checkpoint : ℕ → String → String → AuditLog → AuditLog
  unfolding sign_anchor
  write_checkpoint last_event_id chain_hash key log = record log {
    checkpoints =
        log.checkpoints
        ++ record {
          id = log.next_checkpoint;
          last_event_id = last_event_id;
          chain_hash = chain_hash;
          signature = sign_anchor last_event_id chain_hash key;
        }
          ∷ [];
    next_checkpoint = log.next_checkpoint + 1;
  }

  -- Anchor the event just written once enough have accrued.
  unfoldable pub maybe_checkpoint : Settings → AuditEvent → AuditLog → AuditLog
  unfolding write_checkpoint
  maybe_checkpoint s event log = elim s.anchor_key [
    | none ↦ log
    | some key ↦
        if ltb (count_after (anchored_up_to (last? log.checkpoints)) log.events)
          (checkpoint_interval s)
        then log
        else write_checkpoint event.id event.hash key log
  ]

  -- The row that `appendEvent` creates after a tip with the given hash.
  unfoldable pub new_event : String → Entry → AuditLog → AuditEvent
  unfolding hash_event
  new_event prev_hash e log = record {
    id = log.next_event;
    entry = e;
    prev_hash = prev_hash;
    hash = hash_event prev_hash e;
  }

  -- `appendEvent`, in a transaction that holds the lock: nothing runs between reading the tip and
  -- writing the row.
  unfoldable pub append_event : Settings → Entry → AuditLog → AuditLog
  append_event s e log =
      let event = new_event (tip_hash (last? log.events)) e log in
      maybe_checkpoint s event (insert_event event log)

  -- `createCheckpoint`: anchor the tip on demand, once.
  unfoldable pub create_checkpoint : Settings → AuditLog → Result AuditAnchorError AuditLog
  create_checkpoint s log = elim s.anchor_key [
    | none ↦ err not_configured
    | some key ↦ elim (last? log.events) [
      | none ↦ err no_events
      | some tip ↦
          if is_anchored tip.id (last? log.checkpoints)
          then ok log
          else ok (write_checkpoint tip.id tip.hash key log)
    ]
  ]
