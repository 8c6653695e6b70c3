-- ===== src/Audit/Edits.antt =====
-- Single changes to the log: an edit of an event's content, two appends from one tip, and text moved
-- between columns.
use settlementos.Base.{
  ◌≡◌, ◌≢◌, sym, ap, ◌∙◌, false, List, [], ◌∷◌, ◌++◌, Option, some, last?, arith, length-append,
}
use settlementos.Base.Texts.{String, codes, eq_iff, eq_refl}
use settlementos.Decimal.{Text}
use settlementos.Audit.Log.{
  Entry, AuditEvent, AuditLog, Digests, genesis, event_line, hash_event, new_event, tip_hash,
}
use settlementos.Audit.Verify.{broken_link, verify_from}
use settlementos.Audit.Chain.{
  Chained, Chained-split, end_hash, end_hash-genesis, broken_link-append,
}
use text.Mathlib.TextLemmas.{cons-append, nil-append}
use mathlib.Core.List.{append_assoc}
use Prim.Native.Char.{code}
use Prim.Native.String

module _ (d : Digests) where
  hash_differs :
      (p : String) (e f : Entry)
      → ((s t : Text) → d.sha256 s ≡ d.sha256 t → s ≡ t)
      → event_line p f ≢ event_line p e
      → hash_event d p e ≢ hash_event d p f
  unfolding hash_event
  hash_differs p e f injective differs h =
      differs (sym (injective (event_line p e) (event_line p f) h))

  -- Changing the hashed line of one event of a chain that verifies is reported at that event,
  -- provided that the digest is injective.
  pub edit_detected :
      (pre post : List AuditEvent) (e : AuditEvent) (f : Entry)
      → ((s t : Text) → d.sha256 s ≡ d.sha256 t → s ≡ t)
      → Chained d genesis (pre ++ e ∷ post)
      → event_line e.prev_hash f ≢ event_line e.prev_hash e.entry
      → ((verify_from d genesis (pre ++ record e { entry = f } ∷ post)).valid ≡ false)
        × ((verify_from d genesis (pre ++ record e { entry = f } ∷ post)).broken_at ≡ some e.id)
  unfolding verify_from broken_link
  edit_detected pre post e f injective chain differs =
      let (before, here) = Chained-split d genesis pre (e ∷ post) chain in
      let p = end_hash d genesis pre in
      let same : event_line p f ≢ event_line p e.entry = λ q. differs (rw here.0 q) in
      let rehash = hash_differs p e.entry f injective same in
      let broken : broken_link d genesis (pre ++ record e { entry = f } ∷ post) ≡ some e.id =
        broken_link-append d genesis pre (record e { entry = f } ∷ post) before
        ∙ ground (arith, eq_iff e.hash (hash_event d p f), here.1) in
      (ground (arith, broken), ground (arith, broken))

  -- Two events written after the same tip of a chain are reported at the second of them, when the
  -- digest of the first differs from the tip's.
  pub fork_detected :
      (log log' : AuditLog) (x y : Entry)
      → Chained d genesis log.events
      → hash_event d (tip_hash (last? log.events)) x ≢ tip_hash (last? log.events)
      → (verify_from d genesis (
          log.events
          ++ new_event d (tip_hash (last? log.events)) x log
            ∷ new_event d (tip_hash (last? log.events)) y log'
            ∷ [])).broken_at
        ≡ some log'.next_event
  unfolding verify_from broken_link new_event
  fork_detected log log' x y chain moves =
      let tip = tip_hash (last? log.events) in
      let first = new_event d tip x log in
      let second = new_event d tip y log' in
      let broken : broken_link d genesis (log.events ++ first ∷ second ∷ [])
          ≡ some log'.next_event =
        broken_link-append d genesis log.events (first ∷ second ∷ []) chain
        ∙ rw (← end_hash-genesis d log.events) (
            ground (
              arith,
              eq_refl tip,
              eq_refl (hash_event d tip x),
              eq_iff tip (hash_event d tip x),
            )) in
      ground (arith, broken)

  same_line_same_verdict :
      (p : String) (pre post : List AuditEvent) (e : AuditEvent) (f : Entry)
      → ((q : String) → event_line q f ≡ event_line q e.entry)
      → broken_link d p (pre ++ record e { entry = f } ∷ post) ≡ broken_link d p (pre ++ e ∷ post)
  unfolding broken_link hash_event
  same_line_same_verdict p [] post e f same = ground (arith, ap d.sha256 (same p))
  same_line_same_verdict p (g ∷ pre) post e f same =
      ground (arith, same_line_same_verdict g.hash pre post e f same)

codes-append : (s t : String) → codes (String.◌++◌ s t) ≡ codes s ++ codes t
codes-append String.[] t = ap codes (nil-append t)
codes-append (String.◌∷◌ c s) t =
    ap codes (cons-append c s t) ∙ ap (λ l. code c ∷ l) (codes-append s t)

codes-bar : (s t : String) → codes (String.◌++◌ s (String.◌++◌ "|" t)) ≡ codes s ++ b'|' ∷ codes t
codes-bar s t = codes-append s (String.◌++◌ "|" t) ∙ ap (λ l. codes s ++ l) (codes-append "|" t)

moved_line :
    (q a b c : String) (payment_id : Option String) (detail : String)
    → event_line q (record {
      action = a;
      actor = String.◌++◌ b (String.◌++◌ "|" c);
      payment_id = payment_id;
      detail = detail;
    })
      ≡ event_line q (record {
        action = String.◌++◌ a (String.◌++◌ "|" b);
        actor = c;
        payment_id = payment_id;
        detail = detail;
      })
unfolding event_line
moved_line q a b c payment_id detail = simp (codes-bar, append_assoc)

-- Moving text across a bar between the action and the actor of an event leaves the verdict on every
-- log as it was.
pub moved_columns_undetected :
    (d : Digests) (pre post : List AuditEvent) (e : AuditEvent) (a b c : String)
    → e.entry.action ≡ String.◌++◌ a (String.◌++◌ "|" b)
    → e.entry.actor ≡ c
    → verify_from d genesis (
        pre
        ++ record e {
          entry = record {
            action = a;
            actor = String.◌++◌ b (String.◌++◌ "|" c);
            payment_id = e.entry.payment_id;
            detail = e.entry.detail;
          };
        }
          ∷ post)
      ≡ verify_from d genesis (pre ++ e ∷ post)
unfolding verify_from
moved_columns_undetected d pre post e a b c action actor =
    let f : Entry = record {
      action = a;
      actor = String.◌++◌ b (String.◌++◌ "|" c);
      payment_id = e.entry.payment_id;
      detail = e.entry.detail;
    } in
    let written : record {
      action = String.◌++◌ a (String.◌++◌ "|" b);
      actor = c;
      payment_id = e.entry.payment_id;
      detail = e.entry.detail;
    }
        ≡ e.entry =
      λ i. record {
        action = sym action i;
        actor = sym actor i;
        payment_id = e.entry.payment_id;
        detail = e.entry.detail;
      } in
    let same : (q : String) → event_line q f ≡ event_line q e.entry =
      λ q. moved_line q a b c e.entry.payment_id e.entry.detail ∙ ap (event_line q) written in
    ground (
      arith,
      same_line_same_verdict d genesis pre post e f same,
      length-append pre (record e { entry = f } ∷ post),
      length-append pre (e ∷ post),
    )
