-- ===== src/Audit/Sound.antt =====
-- `appendEvent` and `createCheckpoint` keep a log sound, and a sound log is reported valid.
use settlementos.Base.{
  ℕ, ◌≡◌, refl, sym, ◌⊎◌, inl, inr, true, ltb, some, last?, arith, subst, length, ok, Bool-cases,
  Option-cases,
}
use settlementos.Base.Texts.{String, eq_iff}
use settlementos.Audit.Log.{
  Entry, AuditEvent, Checkpoint, AuditLog, Digests, Settings, genesis, tip_hash, sign_anchor,
  write_checkpoint, maybe_checkpoint, new_event, insert_event, append_event, create_checkpoint,
  is_anchored, count_after, anchored_up_to, checkpoint_interval,
}
use settlementos.Audit.Verify.{find_event, verify_from, check_anchor, verify_audit_chain}
use settlementos.Audit.Chain.{verify_from_iff}
use settlementos.Audit.Append.{
  IsGenuine, AreGenuine, IsSound, All-last, find_event-new, find_event-last, insert_event-IsSound,
  write_checkpoint-IsSound,
}

module _ (d : Digests) where
  maybe_checkpoint-cases :
      (s : Settings) (event : AuditEvent) (log : AuditLog)
      → (maybe_checkpoint d s event log ≡ log)
        ⊎ ((key : String) × (s.anchor_key ≡ some key)
            × (maybe_checkpoint d s event log ≡ write_checkpoint d event.id event.hash key log))
  unfolding maybe_checkpoint
  maybe_checkpoint-cases s event log = elim (Option-cases s.anchor_key) [
    | inl unset ↦ inl (ground arith)
    | inr (key, known) ↦
        elim (Bool-cases (
          ltb (count_after (anchored_up_to (last? log.checkpoints)) log.events)
            (checkpoint_interval s))) [
              | inl early ↦ inl (ground arith)
              | inr due ↦ inr (key, known, ground arith)
            ]
  ]

  -- Appending an event, with the anchor that may fall due, keeps a sound log.
  pub append_event-IsSound :
      (s : Settings) (e : Entry) (log : AuditLog)
      → IsSound d s log
      → IsSound d s (append_event d s e log)
  unfolding append_event
  append_event-IsSound s e log v =
      let event = new_event d (tip_hash (last? log.events)) e log in
      let grown = insert_event event log in
      let here = insert_event-IsSound d s e log v in
      let found : find_event event.id grown.events ≡ some event =
        find_event-new log.next_event log.events event v.below (unfold new_event in refl) in
      elim (maybe_checkpoint-cases s event grown) [
        | inl early ↦ subst (IsSound d s) (sym early) here
        | inr (key, known, due) ↦
            subst (IsSound d s) (sym due)
              (write_checkpoint-IsSound d s key event grown known found here)
      ]

  create_checkpoint-cases :
      (s : Settings) (log log' : AuditLog)
      → create_checkpoint d s log ≡ ok log'
      → (log ≡ log')
        ⊎ ((key : String) × (tip : AuditEvent) × (s.anchor_key ≡ some key)
            × (last? log.events ≡ some tip)
            × (write_checkpoint d tip.id tip.hash key log ≡ log'))
  unfolding create_checkpoint
  create_checkpoint-cases s log log' h = elim (Option-cases s.anchor_key) [
    | inl unset ↦ absurd (ground arith)
    | inr (key, known) ↦ elim (Option-cases (last? log.events)) [
      | inl empty ↦ absurd (ground arith)
      | inr (tip, e) ↦ elim (Bool-cases (is_anchored tip.id (last? log.checkpoints))) [
        | inl done ↦ inl (ground arith)
        | inr fresh ↦ inr (key, tip, known, e, ground arith)
      ]
    ]
  ]

  -- So does anchoring the tip on demand.
  pub create_checkpoint-IsSound :
      (s : Settings) (log log' : AuditLog)
      → IsSound d s log
      → create_checkpoint d s log ≡ ok log'
      → IsSound d s log'
  create_checkpoint-IsSound s log log' v h = elim (create_checkpoint-cases s log log' h) [
    | inl same ↦ subst (IsSound d s) same v
    | inr (key, tip, known, e, same) ↦ subst (IsSound d s) same (
        write_checkpoint-IsSound d s key tip log known (find_event-last 0 log.events tip v.rising e)
          v)
  ]

  check_anchor-valid :
      (key : String) (c : Checkpoint) (log : AuditLog) (n : ℕ)
      → IsGenuine d key log.events c
      → ((check_anchor d key c log n).valid ≡ true)
        × ((check_anchor d key c log n).events_verified ≡ n)
  unfolding check_anchor
  check_anchor-valid key c log n g =
      let sig =
        (eq_iff (sign_anchor d c.last_event_id c.chain_hash key) c.signature).1 (sym g.signed) in
      let hash = (eq_iff g.event.hash c.chain_hash).1 g.hashed in
      (ground (arith, sig, hash, g.found), ground (arith, sig, hash, g.found))

  -- A sound log is reported valid, in full.
  pub IsSound-valid :
      (s : Settings) (log : AuditLog)
      → IsSound d s log
      → ((verify_audit_chain d s log).valid ≡ true)
        × ((verify_audit_chain d s log).events_verified ≡ length log.events)
  unfolding verify_audit_chain
  IsSound-valid s log v =
      let full = verify_from_iff d genesis log.events in
      let valid = full.0.1 v.chained in
      let counted = full.1 in
      elim (Option-cases s.anchor_key) [
        | inl unset ↦ (ground (arith, valid, counted), ground (arith, valid, counted))
        | inr (key, known) ↦ elim (Option-cases (last? log.checkpoints)) [
          | inl none_yet ↦ (ground (arith, valid, counted), ground (arith, valid, counted))
          | inr (c, newest) ↦
              let genuine =
                All-last (IsGenuine d key log.events) log.checkpoints
                  (subst (λ k. AreGenuine d k log.events log.checkpoints) known v.genuine) newest in
              let here =
                check_anchor-valid key c log (verify_from d genesis log.events).events_verified
                  genuine in
              (ground (arith, valid, counted, here), ground (arith, valid, counted, here))
        ]
      ]
