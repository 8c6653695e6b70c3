-- ===== src/Limits/RateLimit.antt =====
-- lib/rate-limit.ts: a sliding window of hits per key. Times are milliseconds, oldest first, and the
-- comparison with the cutoff is written without a subtraction.
use settlementos.Base.{
  ℕ, ◌+◌, ◌-◌, ◌/◌, Bool, true, false, List, [], ◌∷◌, ◌++◌, ltb, leb, if◌then◌else◌, length, last?,
  Option, none, some,
}
use settlementos.Base.Texts.{String, str_eq}

pub record RateLimitOptions : Type 0 where
  pub limit : ℕ
  pub window_ms : ℕ
  pub now : ℕ

pub record RateLimitDecision : Type 0 where
  pub allowed : Bool
  pub remaining : ℕ
  pub retry_after_seconds : ℕ

-- The module's state: the hits of each key, and the admissions since the last sweep.
pub record Limiter : Type 0 where
  pub hits : List (String × List ℕ)
  pub since_sweep : ℕ

-- `hits.get(key) ?? []`.
unfoldable pub get : String → List (String × List ℕ) → List ℕ
get key [] = []
get key ((k, times) ∷ rest) = if str_eq k key then times else get key rest

-- `hits.set(key, times)`.
unfoldable pub set : String → List ℕ → List (String × List ℕ) → List (String × List ℕ)
set key times [] = (key, times) ∷ []
set key times ((k, old) ∷ rest) =
    if str_eq k key then (k, times) ∷ rest else (k, old) ∷ set key times rest

-- `times.filter((t) => t > now - windowMs)`.
unfoldable pub recent : ℕ → ℕ → List ℕ → List ℕ
recent window now [] = []
recent window now (t ∷ ts) =
    if ltb now (t + window) then t ∷ recent window now ts else recent window now ts

-- The seconds until the oldest hit ages out, rounded up, and at least one.
abbrev pub retry_seconds : ℕ → ℕ → List ℕ → ℕ
retry_seconds window now [] = 1
retry_seconds window now (t ∷ ts) =
    let seconds = (t + window - now + 999) / 1_000 in if ltb seconds 1 then 1 else seconds

abbrev pub sweep_every : ℕ
sweep_every = 500

abbrev pub aged_out : ℕ → ℕ → Option ℕ → Bool
aged_out window now none = true
aged_out window now (some t) = leb (t + window) now

unfoldable pub drop_aged : ℕ → ℕ → List (String × List ℕ) → List (String × List ℕ)
drop_aged window now [] = []
drop_aged window now ((k, times) ∷ rest) =
    let kept = drop_aged window now rest in
    if aged_out window now (last? times) then kept else (k, times) ∷ kept

unfoldable pub sweep : ℕ → ℕ → Limiter → Limiter
sweep now window l =
    if ltb (l.since_sweep + 1) sweep_every
    then record l { since_sweep = l.since_sweep + 1 }
    else record { hits = drop_aged window now l.hits; since_sweep = 0 }

unfoldable pub consume_rate_limit :
    String → RateLimitOptions → Limiter → RateLimitDecision × Limiter
consume_rate_limit key o l =
    let fresh = recent o.window_ms o.now (get key l.hits) in
    if leb o.limit (length fresh)
    then (
      record {
        allowed = false;
        remaining = 0;
        retry_after_seconds = retry_seconds o.window_ms o.now fresh;
      },
      record l { hits = set key fresh l.hits },
    )
    else (
      record {
        allowed = true;
        remaining = o.limit - length (fresh ++ o.now ∷ []);
        retry_after_seconds = 0;
      },
      sweep o.now o.window_ms (record l { hits = set key (fresh ++ o.now ∷ []) l.hits }),
    )
