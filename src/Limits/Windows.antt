-- ===== src/Limits/Windows.antt =====
-- The recorded hits of a key that still count.
use settlementos.Base.{
  ℕ, ◌+◌, ◌≤◌, ◌<◌, ◌≡◌, refl, ap, Bool, true, false, List, [], ◌∷◌, ◌++◌, ltb, leb, if◌then◌else◌,
  length, last?, Bool-cases, inl, inr, arith,
}
use settlementos.Base.Texts.{String, str_eq}
use settlementos.Limits.RateLimit.{
  RateLimitOptions, Limiter, get, set, recent, aged_out, drop_aged, sweep, consume_rate_limit,
}

-- The hits of a key that still count at a time.
unfoldable pub counted : ℕ → ℕ → String → Limiter → ℕ
counted window now key l = length (recent window now (get key l.hits))

recent_le : (w m n : ℕ) (ts : List ℕ) → m ≤ n → length (recent w n ts) ≤ length (recent w m ts)
unfolding recent
recent_le w m n [] h = omega arith
recent_le w m n (t ∷ ts) h = ground (arith, recent_le w m n ts h)

pub recent_twice : (w n : ℕ) (ts : List ℕ) → recent w n (recent w n ts) ≡ recent w n ts
unfolding recent
recent_twice w n [] = refl
recent_twice w n (t ∷ ts) = ground (arith, recent_twice w n ts)

length-recent_snoc :
    (w n : ℕ) (ts : List ℕ) (x : ℕ)
    → length (recent w n (ts ++ x ∷ [])) ≤ length (recent w n ts) + 1
unfolding recent
length-recent_snoc w n [] x = ground arith
length-recent_snoc w n (t ∷ ts) x = ground (arith, length-recent_snoc w n ts x)

-- Every key has at most `n` hits that still count.
unfoldable Bounded : ℕ → ℕ → ℕ → List (String × List ℕ) → Type 0
Bounded w now n [] = Unit {0}
Bounded w now n ((k, ts) ∷ rest) = (length (recent w now ts) ≤ n) × Bounded w now n rest

if-Bounded :
    (w now n : ℕ) (b : Bool) (xs ys : List (String × List ℕ))
    → Bounded w now n xs
    → Bounded w now n ys
    → Bounded w now n (if b then xs else ys)
if-Bounded w now n true xs ys h k = h
if-Bounded w now n false xs ys h k = k

get-Bounded :
    (w now n : ℕ) (key : String) (hs : List (String × List ℕ))
    → Bounded w now n hs
    → length (recent w now (get key hs)) ≤ n
unfolding get recent Bounded
get-Bounded w now n key [] b = omega arith
get-Bounded w now n key ((k, ts) ∷ rest) (h, b) = ground (arith, h, get-Bounded w now n key rest b)

set-Bounded :
    (w now n : ℕ) (key : String) (ts : List ℕ) (hs : List (String × List ℕ))
    → Bounded w now n hs
    → length (recent w now ts) ≤ n
    → Bounded w now n (set key ts hs)
unfolding set Bounded
set-Bounded w now n key ts [] b h = (h, tt)
set-Bounded w now n key ts ((k, old) ∷ rest) (o, b) h =
    if-Bounded w now n (str_eq k key) _ _ (h, b) (o, set-Bounded w now n key ts rest b h)

drop_aged-Bounded :
    (w now n : ℕ) (hs : List (String × List ℕ))
    → Bounded w now n hs
    → Bounded w now n (drop_aged w now hs)
unfolding drop_aged Bounded
drop_aged-Bounded w now n [] b = tt
drop_aged-Bounded w now n ((k, ts) ∷ rest) (h, b) =
    let kept = drop_aged-Bounded w now n rest b in
    if-Bounded w now n (aged_out w now (last? ts)) _ _ kept (h, kept)

later-Bounded :
    (w m now n : ℕ) (hs : List (String × List ℕ)) → m ≤ now → Bounded w m n hs → Bounded w now n hs
unfolding Bounded
later-Bounded w m now n [] h b = tt
later-Bounded w m now n ((k, ts) ∷ rest) h (c, b) =
    (omega (arith, recent_le w m now ts h, c), later-Bounded w m now n rest h b)

sweep-Bounded :
    (w now n : ℕ) (l : Limiter) → Bounded w now n l.hits → Bounded w now n (sweep now w l).hits
unfolding sweep
sweep-Bounded w now n l b = elim (Bool-cases (ltb (l.since_sweep + 1) 500)) [
  | inl e ↦ rw e b
  | inr e ↦ rw e (drop_aged-Bounded w now n l.hits b)
]

consume-Bounded :
    (key : String) (o : RateLimitOptions) (l : Limiter)
    → Bounded o.window_ms o.now o.limit l.hits
    → Bounded o.window_ms o.now o.limit (consume_rate_limit key o l).1.hits
unfolding consume_rate_limit
consume-Bounded key o l b =
    let w = o.window_ms in
    let fresh = recent w o.now (get key l.hits) in
    let again : length (recent w o.now fresh) ≡ length fresh =
      ap length (recent_twice w o.now (get key l.hits)) in
    let more = length-recent_snoc w o.now fresh o.now in
    elim (Bool-cases (leb o.limit (length fresh))) [
      | inl e ↦ rw e (
          set-Bounded w o.now o.limit key fresh l.hits b
            (omega (arith, again, get-Bounded w o.now o.limit key l.hits b)))
      | inr e ↦
          let room : length fresh < o.limit = ground (arith, e) in
          rw e (
            sweep-Bounded w o.now o.limit _ (
              set-Bounded w o.now o.limit key (fresh ++ o.now ∷ []) l.hits b
                (omega (arith, again, more, room))))
    ]

-- Requests by their key and their time, with one limit and one window.
unfoldable pub consume_all : ℕ → ℕ → List (String × ℕ) → Limiter → Limiter
consume_all n w [] l = l
consume_all n w ((key, now) ∷ rest) l =
    consume_all n w rest
      (consume_rate_limit key (record { limit = n; window_ms = w; now = now }) l).1

-- The time of the last request, after one at `t`, and whether the clock never goes back.
abbrev pub last_time : ℕ → List (String × ℕ) → ℕ
last_time t [] = t
last_time t ((key, now) ∷ rest) = last_time now rest

abbrev pub Ascending : ℕ → List (String × ℕ) → Type 0
Ascending t [] = Unit {0}
Ascending t ((key, now) ∷ rest) = (t ≤ now) × Ascending now rest

consume_all-Bounded :
    (n w t : ℕ) (visits : List (String × ℕ)) (l : Limiter)
    → Ascending t visits
    → Bounded w t n l.hits
    → Bounded w (last_time t visits) n (consume_all n w visits l).hits
unfolding consume_all
consume_all-Bounded n w t [] l up b = b
consume_all-Bounded n w t ((key, now) ∷ rest) l (h, up) b = consume_all-Bounded n w now rest _ up (
    consume-Bounded key (record { limit = n; window_ms = w; now = now }) l
      (later-Bounded w t now n l.hits h b))

-- The hits of a key that still count are at most the limit.
pub counted_bound :
    (n w t : ℕ) (visits : List (String × ℕ)) (key : String)
    → Ascending t visits
    → counted w
        (last_time t visits)
        key
        (consume_all n w visits (record { hits = []; since_sweep = 0 }))
      ≤ n
unfolding counted Bounded
counted_bound n w t visits key up =
    get-Bounded w (last_time t visits) n key _
      (consume_all-Bounded n w t visits (record { hits = []; since_sweep = 0 }) up tt)
