-- ===== src/Treasury/Rules.antt =====
-- The rules for the calls of the treasury module, on predicates that stay when a reply is used up.
use settlementos.Base.{
  ◌≡◌, refl, subst, ℕ, Bool, true, false, ◌&&◌, inl, inr, List, [], ◌∷◌, Option, none, some, Result,
  ok, err, Bool-cases, arith,
}
use settlementos.Base.Texts.{String, str_eq, eq_iff}
use settlementos.Base.Programs.{Ensures, Holds}
use settlementos.Treasury.State.{World, Error, Reply, works, lost, fails, put, put_in}
use settlementos.Treasury.Calls.{
  call, called, answer, commit, read, mmf_operator_write, mined, hash_of,
}

abbrev pub Blind : (World → Type 0) → Type 0
Blind P =
    (w : World) (r : Reply) (rs : List Reply)
    → w.replies ≡ r ∷ rs
    → P w
    → P (record w { replies = rs })

Holds-value {ℓ} :
    {A : Type ℓ} (Q : A → World → Type 0) (R : World → Type 0) (r : Result Error A) (w : World)
    → ((a : A) → r ≡ ok a → Q a w)
    → R w
    → Holds Q R (r, w)
Holds-value Q R (ok a) w q r = q a refl
Holds-value Q R (err e) w q r = r

Holds-works {ℓ} :
    {A : Type ℓ} (Q : A → World → Type 0) (R : World → Type 0) (r : Result Error A) (w : World)
    → ((a : A) → r ≡ ok a → Q a w)
    → ((e : Error) → r ≡ err e → R w)
    → Holds Q R (r, w)
Holds-works Q R (ok a) w q r = q a refl
Holds-works Q R (err e) w q r = r e refl

module _ {ℓ} {A : Type ℓ} (P : World → Type 0) (Q : A → World → Type 0) (R : World → Type 0)
    (effect : World → World) (value : World → Result Error A) where
  Holds-answer :
      (r : Reply) (w : World)
      → R w
      → R (effect w)
      → ((a : A) → value w ≡ ok a → Q a (effect w))
      → Holds Q R (answer r effect value w)
  Holds-answer works w h k l = Holds-value Q R (value w) (effect w) l k
  Holds-answer lost w h k l = k
  Holds-answer fails w h k l = h

  Holds-called :
      (rs : List Reply) (w : World)
      → w.replies ≡ rs
      → Blind P
      → ((w : World) → P w → R w)
      → ((w : World) → P w → R (effect w))
      → ((w : World) (a : A) → P w → value w ≡ ok a → Q a (effect w))
      → P w
      → Holds Q R (called rs effect value w)
  Holds-called [] w e b h k l p = Holds-answer works w (h w p) (k w p) (λ a. l w a p)
  Holds-called (r ∷ rs) w e b h k l p =
      Holds-answer r (record w { replies = rs }) (h _ (b w r rs e p)) (k _ (b w r rs e p))
        (λ a. l _ a (b w r rs e p))

  pub call-Ensures :
      Blind P
      → ((w : World) → P w → R w)
      → ((w : World) → P w → R (effect w))
      → ((w : World) (a : A) → P w → value w ≡ ok a → Q a (effect w))
      → Ensures P (call effect value) Q R
  unfolding call
  call-Ensures b h k l = record { run = λ w p. Holds-called w.replies w refl b h k l p }

-- A read, which learns its value.
pub read-Ensures {ℓ} :
    {A : Type ℓ} (P : World → Type 0) (Q : A → World → Type 0) (R : World → Type 0)
    (value : World → A)
    → Blind P
    → ((w : World) → P w → R w)
    → ((w : World) → P w → Q (value w) w)
    → Ensures P (read value) Q R
read-Ensures P Q R value b h k =
    call-Ensures P Q R (λ w. w) (λ w. ok (value w)) b h h
      (λ w a p e. let e' : value w ≡ a = cc in subst (λ x. Q x w) e' (k w p))

pub commit-Ensures :
    (P : World → Type 0) (Q : Unit {0} → World → Type 0) (R : World → Type 0)
    (effect : World → World)
    → Blind P
    → ((w : World) → P w → R w)
    → ((w : World) → P w → R (effect w))
    → ((w : World) → P w → Q tt (effect w))
    → Ensures P (commit effect) Q R
commit-Ensures P Q R effect b h k l =
    call-Ensures P Q R effect (λ w. ok tt) b h k (λ w a p e. l w p)

called-works {ℓ} :
    {A : Type ℓ} (Q : A → World → Type 0) (R : World → Type 0) (effect : World → World)
    (value : World → Result Error A) (rs : List Reply) (w : World)
    → rs ≡ []
    → ((a : A) → value w ≡ ok a → Q a (effect w))
    → ((e : Error) → value w ≡ err e → R (effect w))
    → Holds Q R (called rs effect value w)
called-works Q R effect value [] w e k l = Holds-works Q R (value w) (effect w) k l
called-works Q R effect value (r ∷ rs) w e k l = cc

-- Where no reply is left, a call works.
pub call-works {ℓ} :
    {A : Type ℓ} (P : World → Type 0) (Q : A → World → Type 0) (R : World → Type 0)
    (effect : World → World) (value : World → Result Error A)
    → ((w : World) → P w → w.replies ≡ [])
    → ((w : World) (e : Error) → P w → value w ≡ err e → R (effect w))
    → ((w : World) (a : A) → P w → value w ≡ ok a → Q a (effect w))
    → Ensures P (call effect value) Q R
unfolding call
call-works P Q R effect value none_left h l = record {
  run = λ w p.
      called-works Q R effect value w.replies w (none_left w p) (λ a. l w a p) (λ e. h w e p);
}

mined-reverted :
    (R : World → Type 0) (w : World) (o : Option World)
    → R w
    → ((v : World) → o ≡ some v → R (mined w (some v)))
    → R (mined w o)
mined-reverted R w none r k = r
mined-reverted R w (some v) r k = k v refl

mined-returned :
    (Q : ℕ → World → Type 0) (w : World) (o : Option World) (a : ℕ)
    → hash_of w o ≡ ok a
    → ((v : World) → o ≡ some v → Q w.transactions (mined w (some v)))
    → Q a (mined w o)
mined-returned Q w none a e k = cc
mined-returned Q w (some v) a e k =
    let e' : w.transactions ≡ a = cc in subst (λ x. Q x (mined w (some v))) e' (k v refl)

mined-threw :
    (R : World → Type 0) (w : World) (o : Option World) (e : Error)
    → hash_of w o ≡ err e
    → R w
    → R (mined w o)
mined-threw R w none e h r = r
mined-threw R w (some v) e h r = cc

module _ (P : World → Type 0) (Q : ℕ → World → Type 0) (R : World → Type 0)
    (function : World → Option World) where
  -- A transaction of the contract: it reverts, or it is mined.
  pub write-Ensures :
      Blind P
      → ((w : World) → P w → R w)
      → ((w v : World) → P w → function w ≡ some v → R (mined w (some v)))
      → ((w v : World) → P w → function w ≡ some v → Q w.transactions (mined w (some v)))
      → Ensures P (mmf_operator_write function) Q R
  unfolding mmf_operator_write
  write-Ensures b h k l =
      call-Ensures P Q R _ _ b h (λ w p. mined-reverted R w (function w) (h w p) (λ v e. k w v p e))
        (λ w a p e. mined-returned Q w (function w) a e (λ v e'. l w v p e'))

  pub write-works :
      ((w : World) → P w → w.replies ≡ [])
      → ((w : World) → P w → R w)
      → ((w v : World) → P w → function w ≡ some v → Q w.transactions (mined w (some v)))
      → Ensures P (mmf_operator_write function) Q R
  unfolding mmf_operator_write
  write-works n h l =
      call-works P Q R _ _ n (λ w e p x. mined-threw R w (function w) e x (h w p))
        (λ w a p e. mined-returned Q w (function w) a e (λ v e'. l w v p e'))

-- An entry of a map that was set, and the other ones.
pub put-cases {ℓ κ} :
    {A : Type ℓ} (C : A → Type κ) (key k : String) (v : A) (f : String → A)
    → (k ≡ key → C v)
    → (str_eq k key ≡ false → C (f k))
    → C (put key v f k)
put-cases C key k v f h g = elim (Bool-cases (str_eq k key)) [
  | inl e ↦ rw e (h ((eq_iff k key).0 e))
  | inr e ↦ rw e (g e)
]

both : (a b : Bool) → (a && b) ≡ true → (a ≡ true) × (b ≡ true)
both a b h = ground arith

pub put_in-cases {ℓ κ} :
    {A : Type ℓ} (C : A → Type κ) (key inner k j : String) (v : A) (f : String → String → A)
    → (k ≡ key → j ≡ inner → C v)
    → C (f k j)
    → C (put_in key inner v f k j)
put_in-cases C key inner k j v f h g = elim (Bool-cases (str_eq k key && str_eq j inner)) [
  | inl e ↦
      let same = both (str_eq k key) (str_eq j inner) e in
      rw e (h ((eq_iff k key).0 same.0) ((eq_iff j inner).0 same.1))
  | inr e ↦ rw e g
]

pub read-works {ℓ} :
    {A : Type ℓ} (P : World → Type 0) (Q : A → World → Type 0) (R : World → Type 0)
    (value : World → A)
    → ((w : World) → P w → w.replies ≡ [])
    → ((w : World) → P w → Q (value w) w)
    → Ensures P (read value) Q R
read-works P Q R value n k =
    call-works P Q R _ (λ w. ok (value w)) n (λ w e p x. cc)
      (λ w a p e. let e' : value w ≡ a = cc in subst (λ x. Q x w) e' (k w p))

pub commit-works :
    (P : World → Type 0) (Q : Unit {0} → World → Type 0) (R : World → Type 0)
    (effect : World → World)
    → ((w : World) → P w → w.replies ≡ [])
    → ((w : World) → P w → Q tt (effect w))
    → Ensures P (commit effect) Q R
commit-works P Q R effect n k =
    call-works P Q R effect (λ w. ok tt) n (λ w e p x. cc) (λ w a p e. k w p)
