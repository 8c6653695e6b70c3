-- ===== src/Access/Caps.antt =====
-- What is read of a body.
use settlementos.Base.{
  ◌≡◌, refl, sym, ℕ, ◌+◌, ◌≤◌, true, false, List, [], ◌∷◌, ◌++◌, ltb, if◌then◌else◌, length,
  length-append, Bool-cases, inl, inr, none, some, arith,
}
use mathlib.Core.List.{append_assoc, append-nil}
use settlementos.Access.Intake.{read_chunks, read_capped_body, declares_more}
use settlementos.Access.Keys.{Headers}

-- The chunks put together.
abbrev pub joined : List (List ℕ) → List ℕ
joined [] = []
joined (c ∷ cs) = c ++ joined cs

some_inj {ℓ} : {A : Type ℓ} {a b : A} → some a ≡ some b → a ≡ b
some_inj e = cc

read_chunks-joined :
    (max : ℕ) (cs : List (List ℕ)) (total : ℕ) (read : List ℕ)
    → total ≡ length read
    → total ≤ max
    → read_chunks max cs total read
      ≡ (if ltb max (length (read ++ joined cs)) then none else some (read ++ joined cs))
unfolding read_chunks
read_chunks-joined max [] total read e h =
    let short : ltb max (length read) ≡ false = ground (arith, e, h) in
    rw (append-nil read, short) refl
read_chunks-joined max (c ∷ cs) total read e h =
    let longer : total + length c ≡ length (read ++ c) = omega (arith, e, length-append read c) in
    elim (Bool-cases (ltb max (total + length c))) [
      | inl x ↦
          let more : ltb max (length (read ++ (c ++ joined cs))) ≡ true =
            ground
              (arith, x, e, length-append read (c ++ joined cs), length-append c (joined cs)) in
          rw (x, more) refl
      | inr x ↦
          rw (x, sym (append_assoc read c (joined cs)))
            (read_chunks-joined max cs (total + length c) (read ++ c) longer (ground (arith, x)))
    ]

-- However a body arrives in chunks, what is read of it is the whole body if it is at most the cap, and
-- nothing at all otherwise, unless a longer one is announced.
pub read_capped_body_iff :
    (headers : Headers) (max : ℕ) (chunks : List (List ℕ))
    → declares_more max headers.content_length ≡ false
    → read_capped_body headers max (some chunks)
      ≡ (if ltb max (length (joined chunks)) then none else some (joined chunks))
unfolding read_capped_body
read_capped_body_iff headers max chunks h =
    rw h (read_chunks-joined max chunks 0 [] refl (omega arith))
