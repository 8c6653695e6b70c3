-- ===== src/Access/Address.antt =====
-- The address that a limit is counted against cannot be forged past the trusted proxies.
use settlementos.Base.{
  ◌≡◌, refl, ap, ℕ, ◌+◌, ◌-◌, ◌≤◌, ◌<◌, true, false, List, [], ◌∷◌, ◌++◌, ◌==◌, map, ltb, leb,
  length, length-append, Bool-cases, inl, inr, some, arith,
}
use mathlib.Core.List.{map-append}
use settlementos.Decimal.{Text, split, cons_head}
use settlementos.Access.Keys.{Headers, trim}
use settlementos.Access.Intake.{
  Environment, non_empty, forwarded, get_elem?, text_or_empty, trusted_proxy_hops, client_address,
}

cons_head-append :
    (c : ℕ) (ps qs : List Text) → 0 < length ps → cons_head c (ps ++ qs) ≡ cons_head c ps ++ qs
cons_head-append c [] qs h = absurd (omega (arith, h))
cons_head-append c (p ∷ ps) qs h = refl

split_pos : (sep : ℕ) (s : Text) → 0 < length (split sep s)
unfolding split
split_pos sep [] = omega arith
split_pos sep (c ∷ s) = elim (Bool-cases (c == sep)) [
  | inl e ↦ rw e (omega arith)
  | inr e ↦ rw e (cons_head_pos c (split sep s))
]
  where
    cons_head_pos : (c : ℕ) (ps : List Text) → 0 < length (cons_head c ps)
    cons_head_pos c [] = omega arith
    cons_head_pos c (p ∷ ps) = omega arith

-- A separator splits what stands before it from what follows.
split-append : (sep : ℕ) (s t : Text) → split sep (s ++ sep ∷ t) ≡ split sep s ++ split sep t
unfolding split
split-append sep [] t = let same : (sep == sep) ≡ true = ground arith in rw same refl
split-append sep (c ∷ s) t = elim (Bool-cases (c == sep)) [
  | inl e ↦ rw (e, split-append sep s t) refl
  | inr e ↦
      rw (e, split-append sep s t)
        (cons_head-append c (split sep s) (split sep t) (split_pos sep s))
]

non_empty-append : (ps qs : List Text) → non_empty (ps ++ qs) ≡ non_empty ps ++ non_empty qs
unfolding non_empty
non_empty-append [] qs = refl
non_empty-append ([] ∷ ps) qs = non_empty-append ps qs
non_empty-append ((c ∷ s) ∷ ps) qs = ap (λ r. (c ∷ s) ∷ r) (non_empty-append ps qs)

get_elem?-append :
    (ps qs : List Text) (i : ℕ) → get_elem? (ps ++ qs) (length ps + i) ≡ get_elem? qs i
unfolding get_elem?
get_elem?-append [] qs i = ap (get_elem? qs) (omega arith)
get_elem?-append (p ∷ ps) qs i =
    let later : leb (length (p ∷ ps) + i) 0 ≡ false = ground arith in
    let next : length (p ∷ ps) + i - 1 ≡ length ps + i = omega arith in
    rw (later, next) (get_elem?-append ps qs i)

forwarded-append :
    (forged ours : Text)
    → forwarded (some (forged ++ b',' ∷ ours)) ≡ forwarded (some forged) ++ forwarded (some ours)
unfolding forwarded
forwarded-append forged ours =
    rw (split-append b',' forged ours, map-append trim (split b',' forged) (split b',' ours))
      (non_empty-append (map trim (split b',' forged)) (map trim (split b',' ours)))

abbrev pub forwarding : Headers → Text → Headers
forwarding headers t = record headers { forwarded_for = some t }

-- Where our own proxies, which the deployment counts, have written at least as many entries of
-- `x-forwarded-for` as it trusts, nothing that a client puts in front of them changes the address.
pub forgery_ignored :
    (env : Environment) (headers : Headers) (forged ours : Text)
    → 0 < trusted_proxy_hops env
    → trusted_proxy_hops env ≤ length (forwarded (some ours))
    → client_address env (forwarding headers (forged ++ b',' ∷ ours))
      ≡ client_address env (forwarding headers ours)
unfolding client_address
forgery_ignored env headers forged ours trusted enough =
    let n = trusted_proxy_hops env in
    let fs = forwarded (some forged) in
    let gs = forwarded (some ours) in
    let some_hops : ltb 0 n ≡ true = ground (arith, trusted) in
    let fits : leb n (length gs) ≡ true = ground (arith, enough) in
    let long : leb n (length (fs ++ gs)) ≡ true = ground (arith, enough, length-append fs gs) in
    let place : length (fs ++ gs) - n ≡ length fs + (length gs - n) =
      omega (arith, enough, length-append fs gs) in
    rw (forwarded-append forged ours, some_hops, fits, long, place)
      (ap text_or_empty (get_elem?-append fs gs (length gs - n)))
