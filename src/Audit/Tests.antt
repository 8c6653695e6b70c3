-- ===== src/Audit/Tests.antt =====
-- A digest with the documented properties, and the theorems on small logs.
use settlementos.Base.{
  ℕ, zero, suc, ◌+◌, ◌≡◌, ◌≢◌, refl, sym, ap, ◌∙◌, true, false, [], ◌∷◌, ◌==◌, if◌then◌else◌, none,
  some, last?, arith, All, length, ◌↔◌,
}
use settlementos.Base.Texts.{String, codes}
use settlementos.Decimal.{Text, to_text}
use settlementos.Audit.{
  Entry, AuditEvent, Checkpoint, AuditLog, Digests, Settings, genesis, event_line, hash_event,
  sign_anchor, new_event, append_event, maybe_checkpoint, create_checkpoint, write_checkpoint,
  count_after, checkpoint_interval,
}
use settlementos.Audit.Verify.{verify_from, verify_audit_chain}
use settlementos.Audit.Chain.{Chained, verify_from_iff}
use settlementos.Audit.Anchor.{
  new_log, append, anchor, apply_request, apply_requests, history_valid,
}
use settlementos.Audit.Tamper.{IsDigest, AnchoredPrefix, lines_back, anchored_history}
use settlementos.Audit.Edits.{edit_detected, fork_detected, moved_columns_undetected}
use mathlib.Core.List.{head-eq_of_cons-eq}
use native.Mathlib.Nat.{zero-add}
use Prim.Native.Char.{code}

-- Each number in unary, closed by a one.
abbrev unary : ℕ → String → String
unary zero s = s
unary (suc n) s = String.◌∷◌ "0" (unary n s)

abbrev encode : Text → String
encode [] = String.[]
encode (n ∷ t) = unary n (String.◌∷◌ "1" (encode t))

abbrev decode : ℕ → String → Text
decode k String.[] = []
decode k (String.◌∷◌ c s) = if code c == b'1' then k ∷ decode 0 s else decode (suc k) s

decode-unary : (n k : ℕ) (s : String) → decode k (unary n (String.◌∷◌ "1" s)) ≡ (k + n) ∷ decode 0 s
decode-unary zero k s = ap (λ (m : ℕ). m ∷ decode 0 s) (omega arith)
decode-unary (suc n) k s = decode-unary n (suc k) s ∙ ap (λ (m : ℕ). m ∷ decode 0 s) (omega arith)

decode-encode : (t : Text) → decode 0 (encode t) ≡ t
decode-encode [] = refl
decode-encode (n ∷ t) = decode-unary n 0 (encode t) ∙ cc (decode-encode t, zero-add n)

unary_no_bar :
    (n : ℕ) (s : String) → All (λ c. c ≢ b'|') (codes s) → All (λ c. c ≢ b'|') (codes (unary n s))
unary_no_bar zero s h = h
unary_no_bar (suc n) s h = (omega arith, unary_no_bar n s h)

encode_no_bar : (t : Text) → All (λ c. c ≢ b'|') (codes (encode t))
encode_no_bar [] = tt
encode_no_bar (n ∷ t) = unary_no_bar n (String.◌∷◌ "1" (encode t)) (omega arith, encode_no_bar t)

abbrev digests : Digests
digests = record {
  sha256 = λ t. String.◌∷◌ "0" (encode t);
  hmac = λ key t. String.◌∷◌ "0" (encode t);
}

sha256_inj : (s t : Text) → digests.sha256 s ≡ digests.sha256 t → s ≡ t
sha256_inj s t e = sym (decode-encode s) ∙ cut ∙ decode-encode t
  where
    drop_first : String → String
    drop_first String.[] = String.[]
    drop_first (String.◌∷◌ c u) = u

    cut : decode 0 (encode s) ≡ decode 0 (encode t)
    cut = ap (λ u. decode 0 (drop_first u)) e

digests-IsDigest : IsDigest digests
digests-IsDigest = record {
  injective = sha256_inj;
  no_bar = λ s. (omega arith, encode_no_bar s);
  not_genesis = λ s e. starts (head-eq_of_cons-eq (ap codes e));
}
  where
    starts : ◌≢◌ {A = ℕ} b'0' b'G'
    starts = omega arith

abbrev settings : Settings
settings = record { anchor_key = some "k"; interval = none }

abbrev entry : Entry
entry = record { action = "a"; actor = "b"; payment_id = none; detail = "{}" }

abbrev edited : Entry
edited = record { action = "z"; actor = "b"; payment_id = none; detail = "{}" }

abbrev log : AuditLog
log = apply_requests digests settings (append entry ∷ anchor ∷ []) new_log

abbrev event : AuditEvent
event = record {
  id = 1;
  entry = entry;
  prev_hash = genesis;
  hash = hash_event digests genesis entry;
}

abbrev newest : Checkpoint
newest = record {
  id = 1;
  last_event_id = 1;
  chain_hash = hash_event digests genesis entry;
  signature = sign_anchor digests 1 (hash_event digests genesis entry) "k";
}

newest_of_log : last? log.checkpoints ≡ some newest
unfolding apply_requests apply_request append_event create_checkpoint new_event maybe_checkpoint
    write_checkpoint hash_event event_line sign_anchor to_text count_after checkpoint_interval
newest_of_log = refl

anchored_history_example :
    (p : AnchoredPrefix digests log newest) × (q : AnchoredPrefix digests log newest) × (lines_back
        digests log newest p
      ≡ lines_back digests log newest q)
anchored_history_example =
    anchored_history digests digests-IsDigest settings log log "k" newest newest refl newest_of_log
      newest_of_log refl (history_valid digests settings (append entry ∷ anchor ∷ [])).0
      (history_valid digests settings (append entry ∷ anchor ∷ [])).0

history_valid_example :
    ((verify_audit_chain digests settings log).valid ≡ true)
    × ((verify_audit_chain digests settings log).events_verified ≡ length log.events)
history_valid_example = history_valid digests settings (append entry ∷ anchor ∷ [])

verify_from_iff_example :
    (((verify_from digests genesis (event ∷ [])).valid ≡ true)
      ↔ Chained digests genesis (event ∷ []))
    × ((verify_from digests genesis (event ∷ [])).events_verified ≡ length (event ∷ []))
verify_from_iff_example = verify_from_iff digests genesis (event ∷ [])

edited_line : event_line genesis edited ≢ event_line genesis entry
unfolding event_line
edited_line = ground arith

edit_detected_example :
    ((verify_from digests genesis (record event { entry = edited } ∷ [])).valid ≡ false)
    × ((verify_from digests genesis (record event { entry = edited } ∷ [])).broken_at ≡ some 1)
edit_detected_example =
    edit_detected digests [] [] event edited sha256_inj (refl, refl, tt) edited_line

starts_with_zero : hash_event digests genesis entry ≢ genesis
unfolding hash_event
starts_with_zero = digests-IsDigest.not_genesis (event_line genesis entry)

fork_detected_example :
    (verify_from digests genesis (
      new_event digests genesis entry new_log
      ∷ new_event digests genesis edited new_log
      ∷ [])).broken_at
    ≡ some 1
fork_detected_example = fork_detected digests new_log new_log entry edited tt starts_with_zero

abbrev shifted : AuditEvent
shifted = record event {
  entry = record { action = "a|b"; actor = "c"; payment_id = none; detail = "{}" };
}

moved_columns_undetected_example :
    verify_from digests genesis (
      record shifted {
        entry = record { action = "a"; actor = "b|c"; payment_id = none; detail = "{}" };
      }
      ∷ [])
    ≡ verify_from digests genesis (shifted ∷ [])
moved_columns_undetected_example =
    moved_columns_undetected digests [] [] shifted "a" "b" "c" refl refl
