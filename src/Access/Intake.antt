-- ===== src/Access/Intake.antt =====
-- app/api/limits.ts: how often a caller may write, and how much it may send. The JSON parser is the
-- platform's, so it is a parameter; a body is the list of its chunks, each a list of bytes.
use settlementos.Base.{
  ℕ, ◌+◌, ◌-◌, ◌*◌, Bool, false, ◌&&◌, List, [], ◌∷◌, ◌++◌, map, ltb, leb, if◌then◌else◌, length,
  Option, none, some, Result, ok, err,
}
use settlementos.Base.Texts.{String, codes}
use settlementos.Decimal.{Text, split, to_bigint}
use settlementos.Money.{is_digits}
use settlementos.Limits.RateLimit.{Limiter, consume_rate_limit}
use settlementos.Access.Keys.{Headers, Principal, trim, or_null}
use settlementos.Access.Guard.{ApiError, error_response, rate_limited, payload_too_large}

abbrev pub write_rate_limit : ℕ
write_rate_limit = 30

abbrev pub rate_limit_window_ms : ℕ
rate_limit_window_ms = 60_000

abbrev pub max_body_bytes : ℕ
max_body_bytes = 64 * 1_024

-- The environment's variables that are read here.
pub record Environment : Type 0 where
  pub writes_per_minute : Option Text
  pub trusted_proxy_hops : Option Text

-- A variable that is a run of digits, as a number.
abbrev pub number_or : ℕ → Option Text → ℕ
number_or fallback none = fallback
number_or fallback (some raw) = if is_digits raw then to_bigint raw else fallback

unfoldable pub write_limit : Environment → ℕ
write_limit env =
    let n = number_or write_rate_limit env.writes_per_minute in
    if ltb 0 n then n else write_rate_limit

unfoldable pub trusted_proxy_hops : Environment → ℕ
trusted_proxy_hops env = number_or 0 env.trusted_proxy_hops

-- `filter(Boolean)`.
unfoldable pub non_empty : List Text → List Text
non_empty [] = []
non_empty ([] ∷ ts) = non_empty ts
non_empty ((c ∷ s) ∷ ts) = (c ∷ s) ∷ non_empty ts

abbrev pub text_or_empty : Option Text → Text
text_or_empty none = []
text_or_empty (some t) = t

-- The entries of `x-forwarded-for`.
unfoldable pub forwarded : Option Text → List Text
forwarded header = non_empty (map trim (split b',' (text_or_empty header)))

unfoldable pub get_elem? : List Text → ℕ → Option Text
get_elem? [] i = none
get_elem? (t ∷ ts) i = if leb i 0 then some t else get_elem? ts (i - 1)

abbrev pub first_of : List Text → Text → Text
first_of [] fallback = fallback
first_of (t ∷ ts) fallback = t

abbrev pub or_else : Option Text → Text → Text
or_else none fallback = fallback
or_else (some t) fallback = t

-- `forwarded[0] || x-real-ip || "unknown"`.
abbrev pub best_effort : Headers → List Text → Text
best_effort headers entries = first_of entries (or_else (or_null headers.real_ip) (codes "unknown"))

unfoldable pub client_address : Environment → Headers → Text
client_address env headers =
    let entries = forwarded headers.forwarded_for in
    let hops = trusted_proxy_hops env in
    if ltb 0 hops && leb hops (length entries)
    then text_or_empty (get_elem? entries (length entries - hops))
    else best_effort headers entries

unfoldable pub rate_limit_key : Environment → Headers → Option Principal → Text
rate_limit_key env headers none = codes "ip:" ++ client_address env headers
rate_limit_key env headers (some p) = codes "key:" ++ codes p.key_id

-- The refusal carries when to retry. `as_key` is the text as the limiter's map holds it.
unfoldable pub enforce_write_rate_limit :
    (Text → String)
    → Environment
    → Headers
    → Option Principal
    → ℕ
    → Limiter
    → Option (ApiError × ℕ) × Limiter
enforce_write_rate_limit as_key env headers p now limiter =
    let (decision, after) =
      consume_rate_limit (as_key (rate_limit_key env headers p))
        (record { limit = write_limit env; window_ms = rate_limit_window_ms; now = now }) limiter in
    if decision.allowed
    then (none, after)
    else (some (error_response rate_limited, decision.retry_after_seconds), after)

-- A declared length above the cap, where it is a number.
abbrev pub declares_more : ℕ → Option Text → Bool
declares_more max none = false
declares_more max (some declared) = is_digits declared && ltb max (to_bigint declared)

-- The loop over the chunks, which stops at the first one that crosses the cap.
unfoldable pub read_chunks : ℕ → List (List ℕ) → ℕ → List ℕ → Option (List ℕ)
read_chunks max [] total read = some read
read_chunks max (c ∷ cs) total read =
    let rest = read_chunks max cs (total + length c) (read ++ c) in
    if ltb max (total + length c) then none else rest

-- `none` is a body that is too large.
unfoldable pub read_capped_body : Headers → ℕ → Option (List (List ℕ)) → Option (List ℕ)
read_capped_body headers max body =
    if declares_more max headers.content_length
    then none
    else elim body [ none ↦ some [] | some chunks ↦ read_chunks max chunks 0 [] ]

module _ {ℓ} {Json : Type ℓ} (parse : List ℕ → Option Json) where
  abbrev pub parsed : List ℕ → Option Json
  parsed [] = none
  parsed (c ∷ s) = parse (c ∷ s)

  -- The body, or the refusal with when to retry, if that is known.
  unfoldable pub begin_write :
      (Text → String)
      → Environment
      → Headers
      → Option Principal
      → ℕ
      → Option (List (List ℕ))
      → Limiter
      → Result (ApiError × Option ℕ) (Option Json) × Limiter
  begin_write as_key env headers p now body limiter =
      let (limited, after) = enforce_write_rate_limit as_key env headers p now limiter in
      (
        elim limited [
          | some (e, seconds) ↦ err (e, some seconds)
          | none ↦ elim (read_capped_body headers max_body_bytes body) [
            | none ↦ err (error_response payload_too_large, none)
            | some text ↦ ok (parsed text)
          ]
        ],
        after,
      )
