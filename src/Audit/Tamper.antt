-- ===== src/Audit/Tamper.antt =====
-- What verification detects of a changed log, and what the text under the hash leaves open.
use settlementos.Base.{
  ℕ, ◌≡◌, ◌≢◌, refl, sym, ap, ◌∙◌, true, List, [], ◌∷◌, ◌++◌, ◌==◌, some, last?, arith, inl, inr,
  map, All, Option-cases, Bool-cases, subst,
}
use settlementos.Base.Texts.{String, codes, codes_inj, eq_iff}
use settlementos.Decimal.{Text}
use settlementos.Audit.Log.{
  Entry, AuditEvent, Checkpoint, AuditLog, Digests, Settings, genesis, event_line, hash_event,
}
use settlementos.Audit.Verify.{verify_from, find_event, check_anchor, verify_audit_chain}
use settlementos.Audit.Chain.{Chained, Chained-split, verify_from_iff}
use mathlib.Core.List.{
  reverse_aux, head-eq_of_cons-eq, tail-eq_of_cons-eq, reverse_aux-append, append_assoc,
}

-- Documented of SHA-256 in hexadecimal: no two texts are known to share a digest, and a digest has
-- no bar and is not the word that stands for the start.
pub record IsDigest (d : Digests) : Type 0 where
  pub injective : (s t : Text) → d.sha256 s ≡ d.sha256 t → s ≡ t
  pub no_bar : (s : Text) → All (λ c. c ≢ b'|') (codes (d.sha256 s))
  pub not_genesis : (s : Text) → d.sha256 s ≢ genesis

genesis_no_bar : All (λ c. c ≢ b'|') (codes genesis)
genesis_no_bar = omega arith

-- Two texts that agree behind a run without a bar agree in the run.
before_bar :
    (p q x y : Text)
    → All (λ c. c ≢ b'|') p
    → All (λ c. c ≢ b'|') q
    → p ++ b'|' ∷ x ≡ q ++ b'|' ∷ y
    → p ≡ q
before_bar [] [] x y hp hq e = refl
before_bar [] (c ∷ q) x y hp hq e = absurd (hq.0 (sym (head-eq_of_cons-eq e)))
before_bar (c ∷ p) [] x y hp hq e = absurd (hp.0 (head-eq_of_cons-eq e))
before_bar (c ∷ p) (d ∷ q) x y hp hq e =
    let rest = before_bar p q x y hp.1 hq.1 (tail-eq_of_cons-eq e) in
    cc (head-eq_of_cons-eq e, rest)

abbrev line_of : AuditEvent → Text
line_of e = event_line e.prev_hash e.entry

-- The chain read from its newest event.
abbrev top : List AuditEvent → String
top [] = genesis
top (e ∷ es) = e.hash

module _ (d : Digests) where
  abbrev Linked : List AuditEvent → Type 0
  Linked [] = Unit
  Linked (e ∷ es) = (e.prev_hash ≡ top es) × (e.hash ≡ hash_event d (top es) e.entry) × Linked es

  Chained-Linked :
      (es acc : List AuditEvent) → Chained d (top acc) es → Linked acc → Linked (reverse_aux es acc)
  Chained-Linked [] acc h k = k
  Chained-Linked (e ∷ es) acc h k = Chained-Linked es (e ∷ acc) h.2 (h.0, h.1, k)

  module _ (good : IsDigest d) where
    hash_no_bar : (p : String) (e : Entry) → All (λ c. c ≢ b'|') (codes (hash_event d p e))
    unfolding hash_event
    hash_no_bar p e = good.no_bar (event_line p e)

    hash-ne-genesis : (p : String) (e : Entry) → hash_event d p e ≢ genesis
    unfolding hash_event
    hash-ne-genesis p e = good.not_genesis (event_line p e)

    hash_inj :
        (p q : String) (e f : Entry)
        → hash_event d p e ≡ hash_event d q f
        → event_line p e ≡ event_line q f
    unfolding hash_event
    hash_inj p q e f h = good.injective (event_line p e) (event_line q f) h

    line-prev :
        (p q : String) (e f : Entry)
        → All (λ c. c ≢ b'|') (codes p)
        → All (λ c. c ≢ b'|') (codes q)
        → event_line p e ≡ event_line q f
        → p ≡ q
    unfolding event_line
    line-prev p q e f hp hq h = codes_inj p q (before_bar (codes p) (codes q) _ _ hp hq h)

    top_no_bar : (es : List AuditEvent) → Linked es → All (λ c. c ≢ b'|') (codes (top es))
    top_no_bar [] h = genesis_no_bar
    top_no_bar (e ∷ es) h =
        subst (λ s. All (λ c. c ≢ b'|') (codes s)) (sym h.1) (hash_no_bar (top es) e.entry)

    -- Chains with the same tip have the same lines throughout.
    same_top :
        (es fs : List AuditEvent)
        → Linked es
        → Linked fs
        → top es ≡ top fs
        → map line_of es ≡ map line_of fs
    same_top [] [] h k e = refl
    same_top [] (f ∷ fs) h k e = absurd (hash-ne-genesis (top fs) f.entry (sym (e ∙ k.1)))
    same_top (x ∷ es) [] h k e = absurd (hash-ne-genesis (top es) x.entry (sym h.1 ∙ e))
    same_top (x ∷ es) (f ∷ fs) h k e =
        let line = hash_inj (top es) (top fs) x.entry f.entry (sym h.1 ∙ e ∙ k.1) in
        let before =
          line-prev (top es) (top fs) x.entry f.entry (top_no_bar es h.2) (top_no_bar fs k.2)
            line in
        let rest = same_top es fs h.2 k.2 before in cc (rest, line, h.0, k.0)

    same_hash :
        (pre pre' : List AuditEvent) (a a' : AuditEvent)
        → Chained d genesis (pre ++ a ∷ [])
        → Chained d genesis (pre' ++ a' ∷ [])
        → a.hash ≡ a'.hash
        → map line_of (reverse_aux (pre ++ a ∷ []) [])
          ≡ map line_of (reverse_aux (pre' ++ a' ∷ []) [])
    same_hash pre pre' a a' h k e =
        same_top (reverse_aux (pre ++ a ∷ []) []) (reverse_aux (pre' ++ a' ∷ []) [])
          (Chained-Linked (pre ++ a ∷ []) [] h tt) (Chained-Linked (pre' ++ a' ∷ []) [] k tt)
          (rw (reverse_aux-append pre (a ∷ []) [], reverse_aux-append pre' (a' ∷ []) []) e)

find_event-split :
    (id : ℕ) (es : List AuditEvent) (a : AuditEvent)
    → find_event id es ≡ some a
    → (pre : List AuditEvent) × (post : List AuditEvent) × (es ≡ pre ++ a ∷ post) × (a.id ≡ id)
unfolding find_event
find_event-split id [] a h = cc
find_event-split id (e ∷ es) a h = elim (Bool-cases (e.id == id)) [
  | inl here ↦ ([], es, ground arith, ground arith)
  | inr other ↦
      let (pre, post, same, found) = find_event-split id es a (ground arith) in
      (e ∷ pre, post, ap (λ l. e ∷ l) same, found)
]

module _ (d : Digests) where
  check_anchor_inv :
      (key : String) (c : Checkpoint) (log : AuditLog) (n : ℕ)
      → (check_anchor d key c log n).valid ≡ true
      → (a : AuditEvent) × (find_event c.last_event_id log.events ≡ some a)
        × (a.hash ≡ c.chain_hash)
  unfolding check_anchor
  check_anchor_inv key c log n h = elim (Option-cases (find_event c.last_event_id log.events)) [
    | inl missing ↦ absurd (ground arith)
    | inr (a, found) ↦ (a, found, ground (arith, eq_iff a.hash c.chain_hash))
  ]

  -- A log that is reported valid under a key, with the event that its newest checkpoint names.
  verdict_anchor :
      (s : Settings) (log : AuditLog) (key : String) (c : Checkpoint)
      → s.anchor_key ≡ some key
      → last? log.checkpoints ≡ some c
      → (verify_audit_chain d s log).valid ≡ true
      → Chained d genesis log.events
        × ((check_anchor d key c log (verify_from d genesis log.events).events_verified).valid
            ≡ true)
  unfolding verify_audit_chain
  verdict_anchor s log key c known newest h =
      let full : (verify_from d genesis log.events).valid ≡ true = ground arith in
      ((verify_from_iff d genesis log.events).0.0 full, ground arith)

  -- The events up to an anchored one, newest first.
  pub record AnchoredPrefix (log : AuditLog) (c : Checkpoint) : Type 0 where
    pub pre : List AuditEvent
    pub anchored : AuditEvent
    pub post : List AuditEvent
    pub split : log.events ≡ pre ++ anchored ∷ post
    pub at : anchored.id ≡ c.last_event_id
    pub hashed : anchored.hash ≡ c.chain_hash
    pub chained : Chained d genesis (pre ++ anchored ∷ [])

  prefix_of_verdict :
      (s : Settings) (log : AuditLog) (key : String) (c : Checkpoint)
      → s.anchor_key ≡ some key
      → last? log.checkpoints ≡ some c
      → (verify_audit_chain d s log).valid ≡ true
      → AnchoredPrefix log c
  prefix_of_verdict s log key c known newest h =
      let (chain, checked) = verdict_anchor s log key c known newest h in
      let (a, found, hashed) = check_anchor_inv key c log _ checked in
      let (pre, post, split, at) = find_event-split c.last_event_id log.events a found in
      let whole : Chained d genesis ((pre ++ a ∷ []) ++ post) =
        subst (Chained d genesis) (split ∙ sym (append_assoc pre (a ∷ []) post)) chain in
      record {
        pre = pre;
        anchored = a;
        post = post;
        split = split;
        at = at;
        hashed = hashed;
        chained = (Chained-split d genesis (pre ++ a ∷ []) post whole).0;
      }

  abbrev pub lines_back : (log : AuditLog) (c : Checkpoint) → AnchoredPrefix log c → List Text
  lines_back log c p = map line_of (reverse_aux (p.pre ++ p.anchored ∷ []) [])

  -- Two logs that are both reported valid under a key, and whose newest checkpoints sign the same
  -- hash, hold the same hashed lines up to the events that these checkpoints name, provided that
  -- the digest is injective and written without a bar.
  pub anchored_history :
      (good : IsDigest d) (s : Settings) (log log' : AuditLog) (key : String) (c c' : Checkpoint)
      → s.anchor_key ≡ some key
      → last? log.checkpoints ≡ some c
      → last? log'.checkpoints ≡ some c'
      → c.chain_hash ≡ c'.chain_hash
      → (verify_audit_chain d s log).valid ≡ true
      → (verify_audit_chain d s log').valid ≡ true
      → (p : AnchoredPrefix log c) × (q : AnchoredPrefix log' c') × (lines_back log c p
          ≡ lines_back log' c' q)
  anchored_history good s log log' key c c' known newest newest' same h h' =
      let p = prefix_of_verdict s log key c known newest h in
      let q = prefix_of_verdict s log' key c' known newest' h' in
      (
        p,
        q,
        same_hash d good p.pre q.pre p.anchored q.anchored p.chained q.chained
            (p.hashed ∙ same ∙ sym q.hashed),
      )
