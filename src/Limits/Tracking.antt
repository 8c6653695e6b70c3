-- ===== src/Limits/Tracking.antt =====
-- The recorded hits of one key, against the requests of that key that were admitted.
use settlementos.Base.{
  ◌≡◌, refl, ap, ◌∙◌, sym, subst, ℕ, ◌+◌, ◌≤◌, true, false, List, [], ◌∷◌, ◌++◌, All, ltb, last?,
  Bool-cases, inl, inr, arith,
}
use settlementos.Base.Texts.{String, str_eq, eq_iff, eq_refl}
use settlementos.Limits.RateLimit.{get, set, recent, aged_out, drop_aged}

-- Times in order, up to a bound.
abbrev pub Rising : ℕ → List ℕ → Type 0
Rising b [] = Unit {0}
Rising b (t ∷ ts) = (t ≤ b) × All (λ u. t ≤ u) ts × Rising b ts

Rising-later : (b c : ℕ) (ts : List ℕ) → b ≤ c → Rising b ts → Rising c ts
Rising-later b c [] h r = tt
Rising-later b c (t ∷ ts) h (x, a, r) = (omega (arith, x, h), a, Rising-later b c ts h r)

All-recent : (w m t : ℕ) (ts : List ℕ) → All (λ u. t ≤ u) ts → All (λ u. t ≤ u) (recent w m ts)
unfolding recent
All-recent w m t [] a = tt
All-recent w m t (u ∷ ts) (h, a) = elim (Bool-cases (ltb m (u + w))) [
  | inl e ↦ rw e (h, All-recent w m t ts a)
  | inr e ↦ rw e (All-recent w m t ts a)
]

pub Rising-recent : (w m b : ℕ) (ts : List ℕ) → Rising b ts → Rising b (recent w m ts)
unfolding recent
Rising-recent w m b [] r = tt
Rising-recent w m b (t ∷ ts) (x, a, r) = elim (Bool-cases (ltb m (t + w))) [
  | inl e ↦ rw e (x, All-recent w m t ts a, Rising-recent w m b ts r)
  | inr e ↦ rw e (Rising-recent w m b ts r)
]

All-snoc : (t x : ℕ) (ts : List ℕ) → All (λ u. t ≤ u) ts → t ≤ x → All (λ u. t ≤ u) (ts ++ x ∷ [])
All-snoc t x [] a h = (h, tt)
All-snoc t x (u ∷ ts) (k, a) h = (k, All-snoc t x ts a h)

pub Rising-snoc : (x : ℕ) (ts : List ℕ) → Rising x ts → Rising x (ts ++ x ∷ [])
Rising-snoc x [] r = (omega arith, tt, tt)
Rising-snoc x (t ∷ ts) (h, a, r) = (h, All-snoc t x ts a h, Rising-snoc x ts r)

pub recent_later :
    (w now m : ℕ) (ts : List ℕ) → now ≤ m → recent w m (recent w now ts) ≡ recent w m ts
unfolding recent
recent_later w now m [] h = refl
recent_later w now m (t ∷ ts) h = ground (arith, recent_later w now m ts h)

pub recent_append :
    (w m : ℕ) (ts us : List ℕ) → recent w m (ts ++ us) ≡ recent w m ts ++ recent w m us
unfolding recent
recent_append w m [] us = refl
recent_append w m (t ∷ ts) us = elim (Bool-cases (ltb m (t + w))) [
  | inl e ↦ rw e (ap (λ (xs : List ℕ). t ∷ xs) (recent_append w m ts us))
  | inr e ↦ rw e (recent_append w m ts us)
]

-- Where the last time has aged out, all have.
aged_all :
    (w m b : ℕ) (ts : List ℕ) → Rising b ts → aged_out w m (last? ts) ≡ true → recent w m ts ≡ []
unfolding recent
aged_all w m b [] r h = refl
aged_all w m b (t ∷ []) r h = ground arith
aged_all w m b (t ∷ u ∷ ts) (x, (k, a), r) h =
    let rest : recent w m (u ∷ ts) ≡ [] = aged_all w m b (u ∷ ts) r h in
    elim (Bool-cases (ltb m (u + w))) [
      | inl e ↦ cc (rw e at rest)
      | inr e ↦ let old : ltb m (t + w) ≡ false = ground (arith, k, e) in rw old rest
    ]

aged_later :
    (w now m : ℕ) (ts : List ℕ)
    → now ≤ m
    → aged_out w now (last? ts) ≡ true
    → aged_out w m (last? ts) ≡ true
aged_later w now m [] h a = refl
aged_later w now m (t ∷ []) h a = ground arith
aged_later w now m (t ∷ u ∷ ts) h a = aged_later w now m (u ∷ ts) h a

module _ (key : String) (w : ℕ) where
  -- No entry is the key's; and at most one is.
  abbrev pub HasNo : List (String × List ℕ) → Type 0
  HasNo [] = Unit {0}
  HasNo ((k, ts) ∷ rest) = (str_eq k key ≡ false) × HasNo rest

  abbrev pub Unique : List (String × List ℕ) → Type 0
  Unique [] = Unit {0}
  Unique ((k, ts) ∷ rest) = (str_eq k key ≡ true → HasNo rest) × Unique rest

  get-HasNo : (hs : List (String × List ℕ)) → HasNo hs → get key hs ≡ []
  unfolding get
  get-HasNo [] h = refl
  get-HasNo ((k, ts) ∷ rest) (n, h) = rw n (get-HasNo rest h)

  HasNo-set :
      (k' : String) (ts : List ℕ) (hs : List (String × List ℕ))
      → str_eq k' key ≡ false
      → HasNo hs
      → HasNo (set k' ts hs)
  unfolding set
  HasNo-set k' ts [] n h = (n, tt)
  HasNo-set k' ts ((k, old) ∷ rest) n (m, h) = elim (Bool-cases (str_eq k k')) [
    | inl e ↦ rw e (m, h)
    | inr e ↦ rw e (m, HasNo-set k' ts rest n h)
  ]

  HasNo-drop : (now : ℕ) (hs : List (String × List ℕ)) → HasNo hs → HasNo (drop_aged w now hs)
  unfolding drop_aged
  HasNo-drop now [] h = tt
  HasNo-drop now ((k, ts) ∷ rest) (n, h) = elim (Bool-cases (aged_out w now (last? ts))) [
    | inl e ↦ rw e (HasNo-drop now rest h)
    | inr e ↦ rw e (n, HasNo-drop now rest h)
  ]

  pub Unique-set :
      (k' : String) (ts : List ℕ) (hs : List (String × List ℕ)) → Unique hs → Unique (set k' ts hs)
  unfolding set
  Unique-set k' ts [] u = (λ x. tt, tt)
  Unique-set k' ts ((k, old) ∷ rest) (one, u) = elim (Bool-cases (str_eq k k')) [
    | inl e ↦ rw e (one, u)
    | inr e ↦ rw e (
      λ x.
          let other : str_eq k' key ≡ false = elim (Bool-cases (str_eq k' key)) [
            | inl y ↦
                let same : k ≡ k' = (eq_iff k key).0 x ∙ sym ((eq_iff k' key).0 y) in
                cc (sym e ∙ (eq_iff k k').1 same)
            | inr y ↦ y
          ] in
          HasNo-set k' ts rest other (one x),
      Unique-set k' ts rest u,
    )
  ]

  pub Unique-drop :
      (now : ℕ) (hs : List (String × List ℕ)) → Unique hs → Unique (drop_aged w now hs)
  unfolding drop_aged
  Unique-drop now [] u = tt
  Unique-drop now ((k, ts) ∷ rest) (one, u) = elim (Bool-cases (aged_out w now (last? ts))) [
    | inl e ↦ rw e (Unique-drop now rest u)
    | inr e ↦ rw e (λ x. HasNo-drop now rest (one x), Unique-drop now rest u)
  ]

  pub get-set-same : (ts : List ℕ) (hs : List (String × List ℕ)) → get key (set key ts hs) ≡ ts
  unfolding get set
  get-set-same ts [] = rw (eq_refl key) refl
  get-set-same ts ((k, old) ∷ rest) = elim (Bool-cases (str_eq k key)) [
    | inl e ↦ rw e (rw e refl)
    | inr e ↦ rw e (rw e (get-set-same ts rest))
  ]

  pub get-set-other :
      (k' : String) (ts : List ℕ) (hs : List (String × List ℕ))
      → str_eq k' key ≡ false
      → get key (set k' ts hs) ≡ get key hs
  unfolding get set
  get-set-other k' ts [] n = rw n refl
  get-set-other k' ts ((k, old) ∷ rest) n = elim (Bool-cases (str_eq k k')) [
    | inl e ↦
        let away : str_eq k key ≡ false =
          subst (λ (x : String). str_eq x key ≡ false) (sym ((eq_iff k k').0 e)) n in
        rw e (rw away refl)
    | inr e ↦ elim (Bool-cases (str_eq k key)) [
      | inl y ↦ rw e (rw y refl)
      | inr y ↦ rw e (rw y (get-set-other k' ts rest n))
    ]
  ]

  -- Hits that stand for what was admitted: they are in order, and the same ones count from now on.
  abbrev pub StandsFor : ℕ → List ℕ → List ℕ → Type 0
  StandsFor now admitted ts =
      Rising now ts × ((m : ℕ) → now ≤ m → recent w m ts ≡ recent w m admitted)

  pub StandsFor-later :
      (t now : ℕ) (admitted ts : List ℕ)
      → t ≤ now
      → StandsFor t admitted ts
      → StandsFor now admitted ts
  StandsFor-later t now admitted ts h (r, f) =
      (Rising-later t now ts h r, λ m k. f m (omega (arith, h, k)))

  -- The sweep drops a key's hits only once none of them counts.
  pub drop_aged-StandsFor :
      (now : ℕ) (admitted : List ℕ) (hs : List (String × List ℕ))
      → Unique hs
      → StandsFor now admitted (get key hs)
      → StandsFor now admitted (get key (drop_aged w now hs))
  unfolding get drop_aged recent
  drop_aged-StandsFor now admitted [] u s = s
  drop_aged-StandsFor now admitted ((k, ts) ∷ rest) (one, u) s = elim (Bool-cases (str_eq k key)) [
    | inl e ↦
        let mine : StandsFor now admitted ts = rw e at s in
        elim (Bool-cases (aged_out w now (last? ts))) [
          | inl a ↦
              let gone : get key (drop_aged w now rest) ≡ [] =
                get-HasNo (drop_aged w now rest) (HasNo-drop now rest (one e)) in
              rw a (
                subst (λ (xs : List ℕ). StandsFor now admitted xs) (sym gone)
                  (
                    tt,
                    λ m h.
                        sym (aged_all w m now ts mine.0 (aged_later w now m ts h a)) ∙ mine.1 m h,
                  ))
          | inr a ↦ rw a (rw e mine)
        ]
    | inr e ↦
        let later = drop_aged-StandsFor now admitted rest u (rw e at s) in
        elim (Bool-cases (aged_out w now (last? ts))) [
          | inl a ↦ rw a later
          | inr a ↦ rw a (rw e later)
        ]
  ]
