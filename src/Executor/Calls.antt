-- ===== src/Executor/Calls.antt =====
-- Code that awaits: a computation over the state and over how its calls end.
use settlementos.Base.Texts.{String}
use settlementos.Base.{
  ℕ, Bool, true, false, List, [], ◌∷◌, ◌++◌, ◌==◌, length, if◌then◌else◌, Option, none, some,
  Result, ok, err,
}
use settlementos.Executor.State.{State, Error, call_failed, Reply, works, lost, note, Payment}

-- What a computation ends with. Calls past the end of the replies work.
pub data Outcome {ℓ} (A : Type ℓ) : Type ℓ where
  done : Result Error A → State → List Reply → Outcome A

abbrev pub M {ℓ} : Type ℓ → Type ℓ
M A = State → List Reply → Outcome A

unfoldable pub pure {ℓ} : {A : Type ℓ} → A → M A
pure a s rs = done (ok a) s rs

unfoldable pub throw {ℓ} : {A : Type ℓ} → Error → M A
throw e s rs = done (err e) s rs

abbrev pub continue {ℓ κ} : {A : Type ℓ} {B : Type κ} → Outcome A → (A → M B) → Outcome B
continue (done (err e) s rs) next = done (err e) s rs
continue (done (ok a) s rs) next = next a s rs

infixl 5 ◌>>=◌ ◌>>◌
unfoldable pub ◌>>=◌ {ℓ κ} : {A : Type ℓ} {B : Type κ} → M A → (A → M B) → M B
(m >>= next) s rs = continue (m s rs) next

abbrev pub ◌>>◌ {ℓ κ} : {A : Type ℓ} {B : Type κ} → M A → M B → M B
first >> second = first >>= λ _. second

abbrev pub recover {ℓ} : {A : Type ℓ} → Outcome A → (Error → M A) → Outcome A
recover (done (err e) s rs) handler = handler e s rs
recover (done (ok a) s rs) handler = done (ok a) s rs

-- `try { body } catch (e) { handler }`.
unfoldable pub try_catch {ℓ} : {A : Type ℓ} → M A → (Error → M A) → M A
try_catch body handler s rs = recover (body s rs) handler

-- `await body.catch(() => {})`.
abbrev pub quietly : M (Unit {0}) → M (Unit {0})
quietly body = try_catch body (λ e. pure tt)

-- A call by its effect, and by what it returns or throws, which it reads from the state before.
abbrev pub answer {ℓ} :
    {A : Type ℓ}
    → Reply
    → (State → State)
    → (State → Result Error A)
    → State
    → List Reply
    → Outcome A
answer works effect value s rs = done (value s) (effect s) rs
answer lost effect value s rs = done (err call_failed) (effect s) rs
answer _ effect value s rs = done (err call_failed) s rs

unfoldable pub call {ℓ} : {A : Type ℓ} → (State → State) → (State → Result Error A) → M A
call effect value s [] = answer works effect value s []
call effect value s (r ∷ rs) = answer r effect value s rs

-- A read of the database.
abbrev pub read {ℓ} : {A : Type ℓ} → (State → A) → M A
read value = call (λ s. s) (λ s. ok (value s))

-- A write of the database that returns nothing.
abbrev pub write : (State → State) → M (Unit {0})
write effect = call effect (λ s. ok tt)

-- The executor's variable: no call is made.
unfoldable pub payment : M Payment
payment s rs = done (ok s.local) s rs

unfoldable pub assign : Payment → M (Unit {0})
assign p s rs = done (ok tt) (record s { local = p }) rs

-- `audit(action, …)` in a transaction of its own.
abbrev pub audit : String → M (Unit {0})
audit action = write (λ s. record s { log = s.log ++ note action ∷ [] })

-- The result of a transaction by its hash, if there is one.
unfoldable pub receipt : ℕ → List Bool → Option Bool
receipt hash [] = none
receipt hash (b ∷ bs) = if hash == length bs then some b else receipt hash bs

abbrev pub unless : Bool → Error → M (Unit {0})
unless true e = pure tt
unless false e = throw e
