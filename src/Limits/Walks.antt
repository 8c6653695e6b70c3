-- ===== src/Limits/Walks.antt =====
-- A client that walks through the pages of a collection sees every row once.
use settlementos.Base.{
  sym, subst, All, Option, none, some, last?, ℕ, zero, suc, ◌+◌, ◌≤◌, ◌<◌, ◌≡◌, refl, ap, ◌∙◌, true,
  false, List, [], ◌∷◌, ◌++◌, ltb, length, take, drop, length-take, length-drop, take-append-drop,
  append-nil, append_assoc, Bool-cases, inl, inr, arith,
}
use settlementos.Base.Texts.{String, str_eq, eq_refl}
use settlementos.Limits.Pagination.{to_page, read_page, rows_after, rows_from}

-- The rows that a client collects that follows the cursor of each page, until a page has none. The
-- first argument bounds its requests.
unfoldable pub walk {ℓ} : {A : Type ℓ} → ℕ → (A → String) → ℕ → List A → Option String → List A
walk zero id_of limit rows cursor = []
walk (suc n) id_of limit rows cursor =
    let page = read_page id_of rows limit cursor in
    page.rows ++ elim page.next_cursor [ none ↦ [] | some id ↦ walk n id_of limit rows (some id) ]

-- No id is another row's.
abbrev pub Distinct {ℓ} : {A : Type ℓ} → (A → String) → List A → Type 0
Distinct id_of [] = Unit {0}
Distinct id_of (x ∷ xs) = All (λ y. str_eq (id_of x) (id_of y) ≡ false) xs × Distinct id_of xs

module _ {ℓ} {A : Type ℓ} where
  take-all : (n : ℕ) (xs : List A) → length xs ≤ n → take n xs ≡ xs
  take-all zero [] h = refl
  take-all zero (x ∷ xs) h = ground (arith, h)
  take-all (suc n) [] h = refl
  take-all (suc n) (x ∷ xs) h = ap (λ (ys : List A). x ∷ ys) (take-all n xs (omega (arith, h)))

  take-take : (n : ℕ) (xs : List A) → take n (take (suc n) xs) ≡ take n xs
  take-take zero xs = refl
  take-take (suc n) [] = refl
  take-take (suc n) (x ∷ xs) = ap (λ (ys : List A). x ∷ ys) (take-take n xs)

  All-middle : (P : A → Type 0) (xs : List A) (c : A) (ys : List A) → All P (xs ++ c ∷ ys) → P c
  All-middle P [] c ys h = h.0
  All-middle P (x ∷ xs) c ys h = All-middle P xs c ys h.1

  split_last :
      (xs : List A)
      → 0 < length xs
      → (ys : List A) × (c : A) × (xs ≡ ys ++ c ∷ []) × (last? xs ≡ some c)
  split_last [] h = absurd (ground (arith, h))
  split_last (x ∷ []) h = ([], x, refl, refl)
  split_last (x ∷ y ∷ xs) h =
      let (ys, c, e, l) = split_last (y ∷ xs) (ground arith) in
      (x ∷ ys, c, ap (λ (zs : List A). x ∷ zs) e, l)

  -- A full page, its last row, and what comes after it.
  page_parts :
      (limit : ℕ) (rest : List A)
      → 1 ≤ limit
      → limit < length rest
      → (ys : List A) × (c : A) × (last? (take limit rest) ≡ some c)
        × (rest ≡ ys ++ c ∷ drop limit rest)
  page_parts limit rest one more =
      let (ys, c, parted, final) =
        split_last (take limit rest) (ground (arith, length-take limit rest, more, one)) in
      (
        ys,
        c,
        final,
        sym (take-append-drop limit rest)
            ∙ ap (λ (zs : List A). zs ++ drop limit rest) parted
            ∙ append_assoc ys (c ∷ []) (drop limit rest),
      )

module _ {ℓ} {A : Type ℓ} (id_of : A → String) where
  rows_after-middle :
      (xs : List A) (c : A) (ys : List A)
      → Distinct id_of (xs ++ c ∷ ys)
      → rows_after id_of (id_of c) (xs ++ c ∷ ys) ≡ ys
  unfolding rows_after
  rows_after-middle [] c ys d = rw (eq_refl (id_of c)) refl
  rows_after-middle (x ∷ xs) c ys (a, d) =
      let other : str_eq (id_of x) (id_of c) ≡ false =
        All-middle (λ y. str_eq (id_of x) (id_of y) ≡ false) xs c ys a in
      rw other (rows_after-middle xs c ys d)

  start_after :
      (rows done ys rest after : List A) (c : A)
      → Distinct id_of rows
      → rows ≡ done ++ rest
      → rest ≡ ys ++ c ∷ after
      → (rows_after id_of (id_of c) rows ≡ after) × (rows ≡ ((done ++ ys) ++ c ∷ []) ++ after)
  start_after rows done ys rest after c d e parts =
      let there : rows ≡ (done ++ ys) ++ c ∷ after =
        e ∙ ap (λ (zs : List A). done ++ zs) parts ∙ sym (append_assoc done ys (c ∷ after)) in
      (
        subst (λ (rs : List A). Distinct id_of rs → rows_after id_of (id_of c) rs ≡ after)
            (sym there) (rows_after-middle (done ++ ys) c after) d,
        there ∙ sym (append_assoc (done ++ ys) (c ∷ []) after),
      )

  walk_rest :
      (n limit : ℕ) (rows done rest : List A) (cursor : Option String)
      → 1 ≤ limit
      → Distinct id_of rows
      → rows ≡ done ++ rest
      → rows_from id_of cursor rows ≡ rest
      → length rest < n
      → walk n id_of limit rows cursor ≡ rest
  unfolding walk read_page to_page
  walk_rest zero limit rows done rest cursor one d e h k = ground (arith, k)
  walk_rest (suc n) limit rows done rest cursor one d e h k =
      let fetched = length-take (suc limit) rest in
      let left = length-drop limit rest in
      elim (Bool-cases (ltb limit (length rest))) [
        | inl more ↦
            let seen : ltb limit (length (take (limit + 1) rest)) ≡ true =
              ground (arith, fetched, more) in
            let one_more : limit + 1 ≡ suc limit = omega arith in
            let trimmed : take limit (take (limit + 1) rest) ≡ take limit rest =
              ap (λ (m : ℕ). take limit (take m rest)) one_more ∙ take-take limit rest in
            let (ys, c, final, parts) = page_parts limit rest one (ground (arith, more)) in
            let next = start_after rows done ys rest (drop limit rest) c d e parts in
            let again =
              walk_rest n limit rows ((done ++ ys) ++ c ∷ []) (drop limit rest) (some (id_of c)) one
                d next.1 next.0 (ground (arith, left, k, one, more)) in
            rw (h, seen, trimmed, final, again) (take-append-drop limit rest)
        | inr few ↦
            let short : length rest ≤ limit + 1 = ground (arith, few) in
            rw (h, take-all (limit + 1) rest short, few) (append-nil rest)
      ]

  -- A client that asks for the page after each page's cursor until a page has none, with pages of
  -- at least one row and as many requests as there are rows and one more, collects every row, once
  -- and in order, where no two rows have the same id.
  pub walk_all :
      (n limit : ℕ) (rows : List A)
      → Distinct id_of rows
      → 1 ≤ limit
      → length rows < n
      → walk n id_of limit rows none ≡ rows
  walk_all n limit rows d one k = walk_rest n limit rows [] rows none one d refl refl k
