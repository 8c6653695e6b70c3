-- ===== src/Audit/Append.antt =====
-- Appending and anchoring keep a log that verifies.
use settlementos.Base.{
  ℕ, ◌+◌, ◌<◌, ◌≡◌, refl, ap, List, [], ◌∷◌, ◌++◌, Option, none, some, last?, arith, subst, All,
  All-append,
}
use mathlib.Core.Option.{some-injective}
use settlementos.Base.Texts.{String}
use settlementos.Audit.Log.{
  Entry, AuditEvent, Checkpoint, AuditLog, Digests, Settings, genesis, tip_hash, hash_event,
  sign_anchor, write_checkpoint, new_event, insert_event,
}
use settlementos.Audit.Verify.{find_event}
use settlementos.Audit.Chain.{Chained, end_hash-genesis, Chained-append}

-- An anchor that was signed with `key` over an event that is there.
pub record IsGenuine (d : Digests) (key : String) (es : List AuditEvent) (c : Checkpoint)
    : Type 0 where
  pub signed : c.signature ≡ sign_anchor d c.last_event_id c.chain_hash key
  pub event : AuditEvent
  pub found : find_event c.last_event_id es ≡ some event
  pub hashed : event.hash ≡ c.chain_hash

-- With no key there is nothing to hold of the checkpoints.
abbrev pub AreGenuine : Digests → Option String → List AuditEvent → List Checkpoint → Type 0
AreGenuine d none es cs = Unit
AreGenuine d (some key) es cs = All (IsGenuine d key es) cs

-- Ids rise, from above `lo`.
abbrev pub Rising : ℕ → List AuditEvent → Type 0
Rising lo [] = Unit
Rising lo (e ∷ es) = (lo < e.id) × Rising e.id es

-- A log whose chain verifies, with rising ids, and whose anchors are its own.
pub record IsSound (d : Digests) (s : Settings) (log : AuditLog) : Type 0 where
  pub chained : Chained d genesis log.events
  pub below : All (λ e. e.id < log.next_event) log.events
  pub rising : Rising 0 log.events
  pub positive : 0 < log.next_event
  pub genuine : AreGenuine d s.anchor_key log.events log.checkpoints

All-map {ℓ κ μ} :
    {A : Type ℓ} (P : A → Type κ) (Q : A → Type μ)
    → ((a : A) → P a → Q a)
    → (xs : List A) → All P xs
    → All Q xs
All-map P Q f [] h = tt
All-map P Q f (x ∷ xs) (p, h) = (f x p, All-map P Q f xs h)

pub All-last {ℓ κ} :
    {A : Type ℓ} (P : A → Type κ) (xs : List A) {y : A} → All P xs → last? xs ≡ some y → P y
All-last P [] h e = cc
All-last P (x ∷ []) {y = z} h e = subst P (some-injective x z e) h.0
All-last P (x ∷ y ∷ xs) h e = All-last P (y ∷ xs) h.1 e

find_event-append :
    (id : ℕ) (es : List AuditEvent) (f e : AuditEvent)
    → find_event id es ≡ some e
    → find_event id (es ++ f ∷ []) ≡ some e
unfolding find_event
find_event-append id [] f e h = cc
find_event-append id (g ∷ es) f e h = ground (arith, find_event-append id es f e)

pub find_event-new :
    (n : ℕ) (es : List AuditEvent) (f : AuditEvent)
    → All (λ e. e.id < n) es
    → f.id ≡ n
    → find_event f.id (es ++ f ∷ []) ≡ some f
unfolding find_event
find_event-new n [] f h same = ground arith
find_event-new n (g ∷ es) f h same = ground (arith, find_event-new n es f h.1 same)

-- The last event's id is above all that came before, so looking it up finds it.
Rising-last :
    (lo : ℕ) (es : List AuditEvent) (f : AuditEvent) → Rising lo es → last? es ≡ some f → lo < f.id
Rising-last lo [] f r e = cc
Rising-last lo (x ∷ []) f r e = ground arith
Rising-last lo (x ∷ y ∷ es) f r e = omega (arith, Rising-last x.id (y ∷ es) f r.1 e)

pub find_event-last :
    (lo : ℕ) (es : List AuditEvent) (f : AuditEvent)
    → Rising lo es
    → last? es ≡ some f
    → find_event f.id es ≡ some f
unfolding find_event
find_event-last lo [] f r e = cc
find_event-last lo (x ∷ []) f r e = ground arith
find_event-last lo (x ∷ y ∷ es) f r e =
    ground (arith, Rising-last x.id (y ∷ es) f r.1 e, find_event-last x.id (y ∷ es) f r.1 e)

Rising-append :
    (lo n : ℕ) (es : List AuditEvent) (f : AuditEvent)
    → Rising lo es
    → All (λ e. e.id < n) es
    → lo < n
    → f.id ≡ n
    → Rising lo (es ++ f ∷ [])
Rising-append lo n [] f r h l same = (omega arith, tt)
Rising-append lo n (x ∷ es) f r h l same = (r.0, Rising-append x.id n es f r.1 h.1 h.0 same)

module _ (d : Digests) where
  IsGenuine-append :
      (key : String) (es : List AuditEvent) (f : AuditEvent) (c : Checkpoint)
      → IsGenuine d key es c
      → IsGenuine d key (es ++ f ∷ []) c
  IsGenuine-append key es f c g = record {
    signed = g.signed;
    event = g.event;
    found = find_event-append c.last_event_id es f g.event g.found;
    hashed = g.hashed;
  }

  AreGenuine-append :
      (key : Option String) (es : List AuditEvent) (f : AuditEvent) (cs : List Checkpoint)
      → AreGenuine d key es cs
      → AreGenuine d key (es ++ f ∷ []) cs
  AreGenuine-append none es f cs g = tt
  AreGenuine-append (some key) es f cs g =
      All-map (IsGenuine d key es) (IsGenuine d key (es ++ f ∷ [])) (IsGenuine-append key es f) cs g

  -- The row is written behind the tip: everything but a new anchor.
  pub insert_event-IsSound :
      (s : Settings) (e : Entry) (log : AuditLog)
      → IsSound d s log
      → IsSound d s (insert_event (new_event d (tip_hash (last? log.events)) e log) log)
  unfolding new_event
  insert_event-IsSound s e log v =
      let event = new_event d (tip_hash (last? log.events)) e log in
      let hash_here = end_hash-genesis d log.events in
      record {
        chained =
            Chained-append d genesis log.events (event ∷ []) v.chained
              (hash_here, ap (λ (h : String). hash_event d h e) hash_here, tt);
        below =
            All-append (λ x. x.id < log.next_event + 1) log.events (event ∷ [])
              (All-map (λ x. x.id < log.next_event) (λ x. x.id < log.next_event + 1)
                (λ x h. omega arith) log.events v.below)
              (omega arith);
        rising = Rising-append 0 log.next_event log.events event v.rising v.below v.positive refl;
        positive = omega arith;
        genuine = AreGenuine-append s.anchor_key log.events event log.checkpoints v.genuine;
      }

  -- Signing an event that is found keeps every anchor genuine.
  pub write_checkpoint-IsSound :
      (s : Settings) (key : String) (event : AuditEvent) (log : AuditLog)
      → s.anchor_key ≡ some key
      → find_event event.id log.events ≡ some event
      → IsSound d s log
      → IsSound d s (write_checkpoint d event.id event.hash key log)
  unfolding write_checkpoint
  write_checkpoint-IsSound s key event log known found v = record {
    chained = v.chained;
    below = v.below;
    rising = v.rising;
    positive = v.positive;
    genuine = rw known (
        All-append (IsGenuine d key log.events) log.checkpoints _ (rw known at v.genuine)
          (record { signed = refl; event = event; found = found; hashed = refl }, tt));
  }
