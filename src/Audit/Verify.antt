-- ===== src/Audit/Verify.antt =====
-- The read side of lib/audit.ts: `verifyFrom` and `verifyAuditChain`.
use settlementos.Base.{
  ℕ, Bool, true, false, ◌&&◌, List, [], ◌∷◌, ◌==◌, if◌then◌else◌, Option, none, some, length, last?,
}
use settlementos.Base.Texts.{String, str_eq}
use settlementos.Audit.Log.{
  AuditEvent, Checkpoint, AuditLog, Digests, Settings, genesis, hash_event, sign_anchor,
}

-- The result of `verifyFrom`.
pub record ChainCheck : Type 0 where
  pub valid : Bool
  pub broken_at : Option ℕ
  pub events_verified : ℕ

pub data Reason : Type 0 where
  checkpoint_signature_mismatch checkpoint_anchor_missing checkpoint_chain_hash_mismatch : Reason

-- AuditIntegrity. The anchor that it reports is the checkpoint's id and its event's.
pub record AuditIntegrity : Type 0 where
  pub valid : Bool
  pub broken_at : Option ℕ
  pub reason : Option Reason
  pub anchored : Bool
  pub checkpoint : Option (ℕ × ℕ)
  pub events_verified : ℕ

-- `findUnique({ where: { id } })`.
unfoldable pub find_event : ℕ → List AuditEvent → Option AuditEvent
find_event id [] = none
find_event id (e ∷ es) = if e.id == id then some e else find_event id es

module _ (d : Digests) where
  -- The loop of `verifyFrom`: the id of the first event that does not verify.
  unfoldable pub broken_link : String → List AuditEvent → Option ℕ
  broken_link prev_hash [] = none
  broken_link prev_hash (e ∷ es) =
      if str_eq e.prev_hash prev_hash && str_eq e.hash (hash_event d prev_hash e.entry)
      then broken_link e.hash es
      else some e.id

  -- Every event has a positive id, so `verifyFrom(prevHash, 0)` reads them all.
  unfoldable pub verify_from : String → List AuditEvent → ChainCheck
  verify_from prev_hash events = elim (broken_link prev_hash events) [
    | none ↦ record { valid = true; broken_at = none; events_verified = length events }
    | some id ↦ record { valid = false; broken_at = some id; events_verified = length events }
  ]

  abbrev signature_matches : String → String → Bool
  signature_matches expected actual = str_eq expected actual

  -- What is left to check of a chain that verifies in itself, against the newest checkpoint.
  unfoldable pub check_anchor : String → Checkpoint → AuditLog → ℕ → AuditIntegrity
  unfolding find_event
  check_anchor key c log verified =
      let base : AuditIntegrity = record {
        valid = false;
        broken_at = none;
        reason = none;
        anchored = true;
        checkpoint = some (c.id, c.last_event_id);
        events_verified = verified;
      } in
      if signature_matches (sign_anchor d c.last_event_id c.chain_hash key) c.signature
      then elim (find_event c.last_event_id log.events) [
        | none ↦ record base { reason = some checkpoint_anchor_missing }
        | some e ↦
            if str_eq e.hash c.chain_hash
            then record base { valid = true }
            else record base { broken_at = some e.id; reason = some checkpoint_chain_hash_mismatch }
      ]
      else record base { reason = some checkpoint_signature_mismatch }

  unfoldable pub verify_audit_chain : Settings → AuditLog → AuditIntegrity
  unfolding verify_from check_anchor
  verify_audit_chain s log =
      let full = verify_from genesis log.events in
      let plain : AuditIntegrity = record {
        valid = full.valid;
        broken_at = full.broken_at;
        reason = none;
        anchored = false;
        checkpoint = none;
        events_verified = full.events_verified;
      } in
      elim s.anchor_key [
        | none ↦ plain
        | some key ↦ elim (last? log.checkpoints) [
          | none ↦ record plain { anchored = true }
          | some c ↦
              if full.valid
              then check_anchor key c log full.events_verified
              else record plain { anchored = true; checkpoint = some (c.id, c.last_event_id) }
        ]
      ]
