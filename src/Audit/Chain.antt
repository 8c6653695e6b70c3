-- ===== src/Audit/Chain.antt =====
-- The chain as a predicate, and `verifyFrom` as its decision.
use settlementos.Base.{◌≡◌, refl, ◌↔◌, true, List, [], ◌∷◌, ◌++◌, none, last?, arith, length}
use settlementos.Base.Texts.{String, eq_iff}
use settlementos.Audit.Log.{AuditEvent, Digests, hash_event, genesis, tip_hash}
use settlementos.Audit.Verify.{broken_link, verify_from}

module _ (d : Digests) where
  -- Each event names the hash before it, and has the hash of its own content.
  abbrev pub Chained : String → List AuditEvent → Type 0
  Chained prev_hash [] = Unit
  Chained prev_hash (e ∷ es) =
      (e.prev_hash ≡ prev_hash) × (e.hash ≡ hash_event d prev_hash e.entry) × Chained e.hash es

  pub broken_link-Chained :
      (p : String) (es : List AuditEvent) → broken_link d p es ≡ none → Chained p es
  unfolding broken_link
  broken_link-Chained p [] h = tt
  broken_link-Chained p (e ∷ es) h = ground (
    arith,
    eq_iff e.prev_hash p,
    eq_iff e.hash (hash_event d p e.entry),
    broken_link-Chained e.hash es,
  )

  pub intact_of_Chained :
      (p : String) (es : List AuditEvent) → Chained p es → broken_link d p es ≡ none
  unfolding broken_link
  intact_of_Chained p [] h = refl
  intact_of_Chained p (e ∷ es) h = ground (
    arith,
    eq_iff e.prev_hash p,
    eq_iff e.hash (hash_event d p e.entry),
    intact_of_Chained e.hash es h.2,
  )

  -- verifyFrom accepts exactly the chains, and counts every event either way.
  pub verify_from_iff :
      (p : String) (es : List AuditEvent)
      → (((verify_from d p es).valid ≡ true) ↔ Chained p es)
        × ((verify_from d p es).events_verified ≡ length es)
  unfolding verify_from
  verify_from_iff p es = (
    (λ h. broken_link-Chained p es (ground arith), λ c. ground (arith, intact_of_Chained p es c)),
    ground arith,
  )

  -- The hash that the event after these must name.
  abbrev pub end_hash : String → List AuditEvent → String
  end_hash p [] = p
  end_hash p (e ∷ es) = end_hash e.hash es

  pub tip_hash-last? :
      (p : String) (e : AuditEvent) (es : List AuditEvent)
      → tip_hash (last? (e ∷ es)) ≡ end_hash p (e ∷ es)
  tip_hash-last? p e [] = refl
  tip_hash-last? p e (f ∷ es) = tip_hash-last? e.hash f es

  pub end_hash-genesis : (es : List AuditEvent) → tip_hash (last? es) ≡ end_hash genesis es
  end_hash-genesis [] = refl
  end_hash-genesis (e ∷ es) = tip_hash-last? genesis e es

  pub Chained-append :
      (p : String) (es fs : List AuditEvent)
      → Chained p es
      → Chained (end_hash p es) fs
      → Chained p (es ++ fs)
  Chained-append p [] fs h k = k
  Chained-append p (e ∷ es) fs h k = (h.0, h.1, Chained-append e.hash es fs h.2 k)

  pub Chained-split :
      (p : String) (es fs : List AuditEvent)
      → Chained p (es ++ fs)
      → Chained p es × Chained (end_hash p es) fs
  Chained-split p [] fs h = (tt, h)
  Chained-split p (e ∷ es) fs h = let (l, r) = Chained-split e.hash es fs h.2 in ((h.0, h.1, l), r)

  -- A verified prefix leaves the verdict to the rest.
  pub broken_link-append :
      (p : String) (es fs : List AuditEvent)
      → Chained p es
      → broken_link d p (es ++ fs) ≡ broken_link d (end_hash p es) fs
  unfolding broken_link
  broken_link-append p [] fs h = refl
  broken_link-append p (e ∷ es) fs h = ground (
    arith,
    eq_iff e.prev_hash p,
    eq_iff e.hash (hash_event d p e.entry),
    broken_link-append e.hash es fs h.2,
  )
