-- ===== src/Treasury/Shares.antt =====
-- The shares of the active positions, and how the changes of the rows change their sum.
use settlementos.Base.{
  ◌≡◌, sym, subst, ℕ, ◌+◌, inl, inr, true, false, ◌&&◌, List, [], ◌∷◌, ◌++◌, ◌==◌, if◌then◌else◌,
  some, Bool-cases, arith,
}
use settlementos.Base.Texts.{String, str_eq}
use settlementos.Treasury.State.{Position, find_position, mark_recalled}

abbrev pub held_in : String → Position → ℕ
held_in network p = if p.is_active && str_eq network p.network then p.shares else 0

-- The shares of the active positions of a network.
unfoldable pub parked_shares : String → List Position → ℕ
parked_shares network [] = 0
parked_shares network (p ∷ ps) = held_in network p + parked_shares network ps

pub parked_shares-append :
    (n : String) (ps : List Position) (p : Position)
    → parked_shares n (ps ++ p ∷ []) ≡ parked_shares n ps + held_in n p
unfolding parked_shares
parked_shares-append n [] p = omega arith
parked_shares-append n (q ∷ ps) p = omega (arith, parked_shares-append n ps p)

pub some_inj {ℓ} : {A : Type ℓ} {a b : A} → some a ≡ some b → a ≡ b
some_inj e = cc

pub found_id :
    (id : ℕ) (ps : List Position) (p : Position) → find_position id ps ≡ some p → p.id ≡ id
unfolding find_position
found_id id [] p h = cc
found_id id (q ∷ ps) p h = elim (Bool-cases (q.id == id)) [
  | inl e ↦
      let same : q ≡ p = some_inj (rw e at h) in
      subst (λ (x : Position). x.id ≡ id) same (ground (arith, e))
  | inr e ↦ found_id id ps p (rw e at h)
]

-- Marking the active row that is found takes its shares off.
parked_shares-mark_first :
    (n : String) (hash : ℕ) (ps : List Position) (q p : Position)
    → q ≡ p
    → p.is_active ≡ true
    → parked_shares n (record q { is_active = false; tx_hash_recall = some hash } ∷ ps)
        + (if str_eq n p.network then p.shares else 0)
      ≡ parked_shares n (q ∷ ps)
unfolding parked_shares
parked_shares-mark_first n hash ps q p same active =
    subst
      (λ (q : Position).
        parked_shares n (record q { is_active = false; tx_hash_recall = some hash } ∷ ps)
          + (if str_eq n p.network then p.shares else 0)
        ≡ parked_shares n (q ∷ ps))
      (sym same) (rw active (omega arith))

pub parked_shares-mark :
    (n : String) (id hash : ℕ) (ps : List Position) (p : Position)
    → find_position id ps ≡ some p
    → p.is_active ≡ true
    → parked_shares n (mark_recalled id hash ps) + (if str_eq n p.network then p.shares else 0)
      ≡ parked_shares n ps
unfolding parked_shares mark_recalled find_position
parked_shares-mark n id hash [] p h k = cc
parked_shares-mark n id hash (q ∷ ps) p h k = elim (Bool-cases (q.id == id)) [
  | inl e ↦ rw e (parked_shares-mark_first n hash ps q p (some_inj (rw e at h)) k)
  | inr e ↦ rw e (omega (arith, parked_shares-mark n id hash ps p (rw e at h) k))
]
