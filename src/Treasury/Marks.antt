-- ===== src/Treasury/Marks.antt =====
-- Where a row is found after another one is appended, and after a mark.
use settlementos.Base.{
  ◌≡◌, refl, subst, ℕ, true, false, List, [], ◌∷◌, ◌++◌, ◌==◌, some, Bool-cases, inl, inr, arith,
}
use settlementos.Treasury.State.{Position, find_position, mark_recalled}
use settlementos.Treasury.Shares.{some_inj}

pub find-append :
    (id : ℕ) (ps : List Position) (q p : Position)
    → find_position id ps ≡ some p
    → find_position id (ps ++ q ∷ []) ≡ some p
unfolding find_position
find-append id [] q p h = cc
find-append id (r ∷ ps) q p h = elim (Bool-cases (r.id == id)) [
  | inl e ↦ rw e (rw e at h)
  | inr e ↦ rw e (find-append id ps q p (rw e at h))
]

-- What a mark makes of the row with this id.
pub record Marked (id j : ℕ) (p q : Position) : Type 0 where
  pub network : q.network ≡ p.network
  pub asset : q.asset ≡ p.asset
  pub still_closed : p.is_active ≡ false → q.is_active ≡ false
  pub closed : j ≡ id → q.is_active ≡ false

abbrev FoundMarked : (id j hash : ℕ) → List Position → Position → Type 0
FoundMarked id j hash ps p =
    (q : Position) × (find_position id (mark_recalled j hash ps) ≡ some q) × Marked id j p q

same_ids : (a j id : ℕ) → (a == j) ≡ false → (a == id) ≡ true → j ≡ id → ⊥
same_ids a j id c e k = ground arith

other_ids : (a j id : ℕ) → (a == j) ≡ true → (a == id) ≡ false → j ≡ id → ⊥
other_ids a j id c e k = ground arith

find-mark_first :
    (id j hash : ℕ) (r : Position) (ps : List Position)
    → (r.id == id) ≡ true
    → FoundMarked id j hash (r ∷ ps) r
unfolding find_position mark_recalled
find-mark_first id j hash r ps e = elim (Bool-cases (r.id == j)) [
  | inl c ↦ (
    record r { is_active = false; tx_hash_recall = some hash },
    rw c (rw e refl),
    record { network = refl; asset = refl; still_closed = λ k. refl; closed = λ k. refl },
  )
  | inr c ↦ (
    r,
    rw c (rw e refl),
    record {
      network = refl;
      asset = refl;
      still_closed = λ k. k;
      closed = λ k. absurd (same_ids r.id j id c e k);
    },
  )
]

find-mark_later :
    (id j hash : ℕ) (r : Position) (ps : List Position) (p : Position)
    → (r.id == id) ≡ false
    → find_position id (r ∷ ps) ≡ some p
    → FoundMarked id j hash ps p
    → FoundMarked id j hash (r ∷ ps) p
unfolding find_position mark_recalled
find-mark_later id j hash r ps p e h m = elim (Bool-cases (r.id == j)) [
  | inl c ↦ (
    p,
    rw c (rw e (rw e at h)),
    record {
      network = refl;
      asset = refl;
      still_closed = λ k. k;
      closed = λ k. absurd (other_ids r.id j id c e k);
    },
  )
  | inr c ↦ (m.0, rw c (rw e m.1), m.2)
]

pub find-mark :
    (id j hash : ℕ) (ps : List Position) (p : Position)
    → find_position id ps ≡ some p
    → FoundMarked id j hash ps p
unfolding find_position mark_recalled
find-mark id j hash [] p h = cc
find-mark id j hash (r ∷ ps) p h = elim (Bool-cases (r.id == id)) [
  | inl e ↦
      subst (FoundMarked id j hash (r ∷ ps)) (some_inj (rw e at h))
        (find-mark_first id j hash r ps e)
  | inr e ↦ find-mark_later id j hash r ps p e h (find-mark id j hash ps p (rw e at h))
]
