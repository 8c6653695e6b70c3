-- ===== src/Treasury/Backed.antt =====
-- The shares that the treasury holds in a fund are those of its active positions, as long as the
-- calls work: they may revert, and the requests may throw.
use settlementos.Base.{
  ◌≡◌, refl, subst, ℕ, ◌+◌, ◌-◌, ◌≤◌, inl, inr, true, [], ◌∷◌, ◌++◌, if◌then◌else◌, some,
  Bool-cases, arith, length,
}
use settlementos.Base.Texts.{String, str_eq, eq_iff, eq_refl}
use settlementos.Base.Programs.{Ensures, bind-Ensures, pure-Ensures}
use settlementos.Treasury.State.{World, Position, find_position}
use settlementos.Treasury.Fund.{shares_for}
use settlementos.Treasury.Calls.{current_index, shares_of, token_balance, create_position, ledger}
use settlementos.Treasury.Park.{subscribe_position, parked_row}
use settlementos.Treasury.Recall.{redeem_position, recalled}
use settlementos.Treasury.Shares.{parked_shares, parked_shares-append, parked_shares-mark}
use settlementos.Treasury.Rules.{Blind, call-works, read-works, commit-works}
use settlementos.Treasury.Moves.{subscribed, redeemed, subscribe-works, redeem-works, redeem_guard}

abbrev pub Backed : World → Type 0
Backed w =
    (w.replies ≡ [])
    × ((network : String) → parked_shares network w.positions ≡ (w.funds network).shares_of)

-- Between `subscribe` and the new row: `s` shares of `network` have no position yet.
abbrev Unrecorded : String → ℕ → ℕ → World → Type 0
Unrecorded network before s w =
    (w.replies ≡ [])
    × ((w.funds network).shares_of ≡ before + s)
    × ((n : String)
        → parked_shares n w.positions + (if str_eq n network then s else 0) ≡ (w.funds n).shares_of)

-- Between `redeem` and the flip of the row: its shares are gone.
abbrev Unmarked : Position → World → Type 0
Unmarked p w =
    (w.replies ≡ [])
    × (find_position p.id w.positions ≡ some p)
    × ((n : String)
        → parked_shares n w.positions
          ≡ (w.funds n).shares_of + (if str_eq n p.network then p.shares else 0))

pub Backed-Blind : Blind Backed
Backed-Blind w y rs z p = cc (p.0)

subscribed-Unrecorded :
    (network asset : String) (k : ℕ) (w : World) (before : ℕ)
    → Backed w
    → before ≡ (w.funds network).shares_of
    → Unrecorded network before (shares_for k (w.funds network)) (subscribed network asset k w)
subscribed-Unrecorded network asset k w before p e =
    (p.0, rw (eq_refl network) (omega (arith, e)), λ n. recorded n)
  where
    recorded :
        (n : String)
        → parked_shares n w.positions
            + (if str_eq n network then shares_for k (w.funds network) else 0)
          ≡ ((subscribed network asset k w).funds n).shares_of
    recorded n = elim (Bool-cases (str_eq n network)) [
      | inl c ↦
          let same : n ≡ network = (eq_iff n network).0 c in
          let held : parked_shares n w.positions ≡ (w.funds network).shares_of =
            subst (λ x. parked_shares n w.positions ≡ (w.funds x).shares_of) same (p.1 n) in
          rw c (omega (arith, held))
      | inr c ↦ rw c (omega (arith, p.1 n))
    ]

created-Backed :
    (network asset : String) (index hash before after s k : ℕ) (w : World)
    → Unrecorded network before s w
    → after ≡ before + s
    → (n : String)
    → parked_shares n (
        w.positions
        ++ record (parked_row network asset (after - before) k index hash) {
          id = length w.positions;
        }
          ∷ [])
      ≡ (w.funds n).shares_of
created-Backed network asset index hash before after s k w p e n =
    let made : after - before ≡ s = omega (arith, e) in
    rw (parked_shares-append n w.positions, made) (p.2 n)

none_left_Backed : (w : World) → Backed w → w.replies ≡ []
none_left_Backed w p = p.0

pub subscribe_position-Backed :
    (network asset : String) (k : ℕ)
    → Ensures Backed (subscribe_position network asset k) (λ a. Backed) Backed
unfolding subscribe_position current_index shares_of create_position
subscribe_position-Backed network asset k =
    bind-Ensures {Q = λ a. Backed} (read-works _ _ _ _ (λ w p. p.0) (λ w p. p)) (λ index.
      bind-Ensures {Q = λ before w. Backed w × (before ≡ (w.funds network).shares_of)}
        (read-works _ _ _ _ (λ w p. p.0) (λ w p. (p, refl)))
        (λ before.
          bind-Ensures {Q = λ hash w. (s : ℕ) × Unrecorded network before s w}
            (subscribe-works _ _ _ (λ w p. p.0.0) network asset k (λ w p. p.0)
              (λ w p g. (
                shares_for k (w.funds network),
                subscribed-Unrecorded network asset k w before p.0 p.1,
              )))
            (λ hash.
              bind-Ensures
                {Q = λ after w. (s : ℕ) × Unrecorded network before s w × (after ≡ before + s)}
                (read-works _ _ _ _ (λ w p. p.1.0) (λ w p. (p.0, p.1, p.1.1)))
                (λ after.
                  bind-Ensures {Q = λ a. Backed}
                    (call-works _ _ _ _ _ (λ w p. p.1.0) (λ w e p x. cc)
                      (λ w a p x. (
                        p.1.0,
                        created-Backed network asset index hash before after p.0 k w p.1 p.2,
                      )))
                    (λ id. pure-Ensures _ (λ w p. p))))))

redeemed-Unmarked :
    (p : Position) (w : World)
    → Backed w
    → find_position p.id w.positions ≡ some p
    → p.shares ≤ (w.funds p.network).shares_of
    → Unmarked p (redeemed p.network p.asset p.shares w)
redeemed-Unmarked p w b found enough = (
  b.0,
  found,
  λ n. elim (Bool-cases (str_eq n p.network)) [
    | inl c ↦
        let same : n ≡ p.network = (eq_iff n p.network).0 c in
        let held : parked_shares n w.positions ≡ (w.funds p.network).shares_of =
          subst (λ x. parked_shares n w.positions ≡ (w.funds x).shares_of) same (b.1 n) in
        rw c (omega (arith, held, enough))
    | inr c ↦ rw c (omega (arith, b.1 n))
  ],
)

marked-Backed :
    (p : Position) (amount hash : ℕ) (w : World)
    → p.is_active ≡ true
    → Unmarked p w
    → Backed (recalled p amount hash w)
marked-Backed p amount hash w active u =
    (u.0, λ n. omega (arith, parked_shares-mark n p.id hash w.positions p u.1 active, u.2 n))

abbrev pub Found : Position → World → Type 0
Found p w = Backed w × (find_position p.id w.positions ≡ some p)

pub redeem_position-Backed :
    (p : Position) → p.is_active ≡ true → Ensures (Found p) (redeem_position p) (λ a. Backed) Backed
unfolding redeem_position current_index token_balance
redeem_position-Backed p active =
    bind-Ensures {Q = λ a. Found p} (read-works _ _ _ _ (λ w p. p.0.0) (λ w p. p)) (λ index.
      bind-Ensures {Q = λ a. Found p} (read-works _ _ _ _ (λ w p. p.0.0) (λ w p. p)) (λ before.
        bind-Ensures {Q = λ a. Unmarked p}
          (redeem-works _ _ _ (λ w f. f.0.0) p.network p.asset p.shares (λ w f. f.0)
            (λ w f g.
              redeemed-Unmarked p w f.0 f.1
                (redeem_guard p.shares (ledger p.network p.asset w) g).1))
          (λ hash.
            bind-Ensures {Q = λ a. Unmarked p} (read-works _ _ _ _ (λ w u. u.0) (λ w u. u))
              (λ after.
                bind-Ensures {Q = λ a. Backed}
                  (commit-works _ _ _ _ (λ w u. u.0)
                    (λ w u. marked-Backed p (after - before) hash w active u))
                  (λ u. pure-Ensures _ (λ w b. b))))))
