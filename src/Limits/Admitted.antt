-- ===== src/Limits/Admitted.antt =====
-- Which requests are admitted, counted by the requests that were, and not by what the limiter keeps.
use settlementos.Base.{
  ◌↔◌, ◌≡◌, refl, ap, ◌∙◌, sym, subst, ℕ, ◌+◌, ◌≤◌, ◌<◌, Bool, true, false, ◌&&◌, List, [], ◌∷◌,
  ◌++◌, ltb, leb, append-nil, append_assoc, if◌then◌else◌, length, Bool-cases, inl, inr, arith,
}
use settlementos.Base.Texts.{String, str_eq, eq_iff}
use settlementos.Limits.RateLimit.{
  RateLimitOptions, Limiter, get, set, recent, sweep, consume_rate_limit,
}
use settlementos.Limits.Windows.{counted, consume_all, last_time, Ascending, counted_bound}
use settlementos.Limits.Tracking.{
  Rising-recent, Rising-snoc, recent_later, recent_append, Unique, Unique-set, Unique-drop,
  get-set-same, get-set-other, StandsFor, StandsFor-later, drop_aged-StandsFor,
}

abbrev pub new_limiter : Limiter
new_limiter = record { hits = []; since_sweep = 0 }

abbrev pub options_at : ℕ → ℕ → ℕ → RateLimitOptions
options_at n w now = record { limit = n; window_ms = w; now = now }

-- The times of the requests with a key that were admitted, oldest first.
unfoldable pub admitted_times : ℕ → ℕ → String → List (String × ℕ) → Limiter → List ℕ
admitted_times n w key [] l = []
admitted_times n w key ((k, now) ∷ rest) l =
    let decision = consume_rate_limit k (options_at n w now) l in
    let later = admitted_times n w key rest decision.1 in
    if str_eq k key && decision.0.allowed then now ∷ later else later

-- How many times are less than a window ago.
unfoldable pub in_window : ℕ → ℕ → List ℕ → ℕ
in_window w now [] = 0
in_window w now (t ∷ ts) =
    let rest = in_window w now ts in if ltb now (t + w) then rest + 1 else rest

length-recent : (w now : ℕ) (ts : List ℕ) → length (recent w now ts) ≡ in_window w now ts
unfolding recent in_window
length-recent w now [] = refl
length-recent w now (t ∷ ts) = ground (arith, length-recent w now ts)

module _ (key : String) (w : ℕ) where
  -- The limiter's hits of the key stand for the admitted requests.
  abbrev Tracks : ℕ → List ℕ → List (String × List ℕ) → Type 0
  Tracks now admitted hs = Unique key w hs × StandsFor key w now admitted (get key hs)

  sweep-Tracks :
      (now : ℕ) (admitted : List ℕ) (l : Limiter)
      → Tracks now admitted l.hits
      → Tracks now admitted (sweep now w l).hits
  unfolding sweep
  sweep-Tracks now admitted l (u, s) = elim (Bool-cases (ltb (l.since_sweep + 1) 500)) [
    | inl e ↦ rw e (u, s)
    | inr e ↦
        rw e (Unique-drop key w now l.hits u, drop_aged-StandsFor key w now admitted l.hits u s)
  ]

  set-Tracks :
      (now : ℕ) (admitted ts : List ℕ) (hs : List (String × List ℕ))
      → Unique key w hs
      → StandsFor key w now admitted ts
      → Tracks now admitted (set key ts hs)
  set-Tracks now admitted ts hs u s = (
    Unique-set key w key ts hs u,
    subst (λ (xs : List ℕ). StandsFor key w now admitted xs) (sym (get-set-same key w ts hs)) s,
  )

  set_other-Tracks :
      (k : String) (now : ℕ) (admitted ts : List ℕ) (hs : List (String × List ℕ))
      → str_eq k key ≡ false
      → Tracks now admitted hs
      → Tracks now admitted (set k ts hs)
  set_other-Tracks k now admitted ts hs n (u, s) = (
    Unique-set key w k ts hs u,
    subst (λ (xs : List ℕ). StandsFor key w now admitted xs) (sym (get-set-other key w k ts hs n))
        s,
  )

  recent-StandsFor :
      (now : ℕ) (admitted ts : List ℕ)
      → StandsFor key w now admitted ts
      → StandsFor key w now admitted (recent w now ts)
  recent-StandsFor now admitted ts (r, f) =
      (Rising-recent w now now ts r, λ m h. recent_later w now m ts h ∙ f m h)

  snoc-StandsFor :
      (now : ℕ) (admitted ts : List ℕ)
      → StandsFor key w now admitted ts
      → StandsFor key w now (admitted ++ now ∷ []) (ts ++ now ∷ [])
  snoc-StandsFor now admitted ts (r, f) = (
    Rising-snoc now ts r,
    λ m h.
        recent_append w m ts (now ∷ [])
        ∙ ap (λ (xs : List ℕ). xs ++ recent w m (now ∷ [])) (f m h)
        ∙ sym (recent_append w m admitted (now ∷ [])),
  )

  -- The time of the request, if it is one of the key's that is admitted.
  abbrev counted_now : ℕ → String → ℕ → Limiter → List ℕ
  counted_now n k now l =
      if str_eq k key && (consume_rate_limit k (options_at n w now) l).0.allowed
      then now ∷ []
      else []

  consume-Tracks :
      (n : ℕ) (k : String) (now : ℕ) (admitted : List ℕ) (l : Limiter)
      → Tracks now admitted l.hits
      → Tracks now
          (admitted ++ counted_now n k now l)
          (consume_rate_limit k (options_at n w now) l).1.hits
  unfolding consume_rate_limit
  consume-Tracks n k now admitted l (u, s) =
      let fresh = recent w now (get k l.hits) in
      elim (Bool-cases (str_eq k key)) [
        | inl e ↦
            let mine : StandsFor key w now admitted fresh =
              recent-StandsFor now admitted (get k l.hits) (
                subst (λ (x : String). StandsFor key w now admitted (get x l.hits))
                  (sym ((eq_iff k key).0 e)) s) in
            let here : k ≡ key = (eq_iff k key).0 e in
            elim (Bool-cases (leb n (length fresh))) [
              | inl c ↦
                  rw (e, c, append-nil admitted)
                    (subst (λ (x : String). Tracks now admitted (set x fresh l.hits)) (sym here)
                      (set-Tracks now admitted fresh l.hits u mine))
              | inr c ↦
                  rw (e, c)
                    (sweep-Tracks now (admitted ++ now ∷ []) _ (
                      subst
                        (λ (x : String).
                          Tracks now (admitted ++ now ∷ []) (set x (fresh ++ now ∷ []) l.hits))
                        (sym here)
                        (set-Tracks now (admitted ++ now ∷ []) (fresh ++ now ∷ []) l.hits u
                          (snoc-StandsFor now admitted fresh mine))))
            ]
        | inr e ↦ elim (Bool-cases (leb n (length fresh))) [
          | inl c ↦
              rw (e, c, append-nil admitted) (set_other-Tracks k now admitted fresh l.hits e (u, s))
          | inr c ↦
              rw (e, c, append-nil admitted)
                (sweep-Tracks now admitted _
                  (set_other-Tracks k now admitted (fresh ++ now ∷ []) l.hits e (u, s)))
        ]
      ]

  later-Tracks :
      (t now : ℕ) (admitted : List ℕ) (hs : List (String × List ℕ))
      → t ≤ now
      → Tracks t admitted hs
      → Tracks now admitted hs
  later-Tracks t now admitted hs h (u, s) =
      (u, StandsFor-later key w t now admitted (get key hs) h s)

  counted_then :
      (b : Bool) (admitted later : List ℕ) (now : ℕ)
      → (admitted ++ (if b then now ∷ [] else [])) ++ later
        ≡ admitted ++ (if b then now ∷ later else later)
  counted_then true admitted later now = append_assoc admitted (now ∷ []) later
  counted_then false admitted later now = append_assoc admitted [] later

  consume_all-Tracks :
      (n t : ℕ) (visits : List (String × ℕ)) (admitted : List ℕ) (l : Limiter)
      → Ascending t visits
      → Tracks t admitted l.hits
      → Tracks
          (last_time t visits)
          (admitted ++ admitted_times n w key visits l)
          (consume_all n w visits l).hits
  unfolding consume_all admitted_times
  consume_all-Tracks n t [] admitted l up k = rw (append-nil admitted) k
  consume_all-Tracks n t ((k, now) ∷ rest) admitted l (h, up) tracks =
      let decision = consume_rate_limit k (options_at n w now) l in
      let later = admitted_times n w key rest decision.1 in
      subst (λ (xs : List ℕ). Tracks (last_time now rest) xs (consume_all n w rest decision.1).hits)
        (counted_then (str_eq k key && decision.0.allowed) admitted later now)
        (consume_all-Tracks n now rest (admitted ++ counted_now n k now l) decision.1 up
          (consume-Tracks n k now admitted l (later-Tracks t now admitted l.hits h tracks)))

  pub counted-admitted :
      (n t : ℕ) (visits : List (String × ℕ))
      → Ascending t visits
      → (m : ℕ) → last_time t visits ≤ m
      → counted w m key (consume_all n w visits new_limiter)
        ≡ in_window w m (admitted_times n w key visits new_limiter)
  unfolding counted get recent
  counted-admitted n t visits up m h =
      let k = consume_all-Tracks n t visits [] new_limiter up (tt, (tt, λ m h. refl)) in
      ap length (k.1.1 m h) ∙ length-recent w m (admitted_times n w key visits new_limiter)

-- Whatever keys ask, in whatever order, as long as the clock does not go back: of a key's requests
-- that were admitted, at most the limit are less than a window old at the last request.
pub window_bound :
    (n w t : ℕ) (visits : List (String × ℕ)) (key : String)
    → Ascending t visits
    → in_window w (last_time t visits) (admitted_times n w key visits new_limiter) ≤ n
window_bound n w t visits key up = omega (
  arith,
  counted-admitted key w n t visits up (last_time t visits) (omega arith),
  counted_bound n w t visits key up,
)

-- After any requests, while the clock does not go back, a request is admitted if and only if fewer
-- than the limit of its key's admitted requests are less than a window old.
pub admitted_iff :
    (n w t now : ℕ) (visits : List (String × ℕ)) (key : String)
    → Ascending t visits
    → last_time t visits ≤ now
    → ((consume_rate_limit key (options_at n w now) (consume_all n w visits new_limiter)).0.allowed
        ≡ true)
      ↔ (in_window w now (admitted_times n w key visits new_limiter) < n)
unfolding consume_rate_limit counted
admitted_iff n w t now visits key up h =
    let same = counted-admitted key w n t visits up now h in
    (λ x. ground (arith, same), λ x. ground (arith, same))
