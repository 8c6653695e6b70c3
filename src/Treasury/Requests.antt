-- ===== src/Treasury/Requests.antt =====
-- The requests that the treasury module serves, one after the other.
use settlementos.Base.{ℕ, ◌⊎◌, List, [], ◌∷◌}
use settlementos.Treasury.State.{Event}
use settlementos.Treasury.Rules.{Blind}
use settlementos.Treasury.Passing.{Passes}
use settlementos.Treasury.Keeping.{kept, recall_for_payment-Passes}
use settlementos.Base.Texts.{String}
use settlementos.Treasury.State.{World, Deployments}
use settlementos.Treasury.Park.{ParkArgs, park, accrue_daily}
use settlementos.Treasury.Recall.{RecallForPaymentArgs, recall, recall_for_payment}

pub data Request : Type 0 where
  parks : ParkArgs → Request
  recalls : ℕ → Request
  recalls_for : RecallForPaymentArgs → Request
  accrues : String → ℕ ⊎ ℕ → Request

-- The world after a request, whether it returned or threw.
unfoldable pub serve : Deployments → Request → World → World
serve d (parks args) w = (park d args w).1
serve d (recalls id) w = (recall d id w).1
serve d (recalls_for args) w = (recall_for_payment d args w).1
serve d (accrues network rate) w = (accrue_daily d network rate w).1

unfoldable pub serve_all : Deployments → List Request → World → World
serve_all d [] w = w
serve_all d (r ∷ rs) w = serve_all d rs (serve d r w)

-- What every park, every recall of one position and every accrual keeps, with the log put aside, is
-- kept by any requests.
module _ (P : World → Type 0) (b : Blind P) (d : Deployments)
    (logged : (w : World) (log : List Event) → P w → P (record w { log = log }))
    (parked : (args : ParkArgs) → Passes P b (park d args))
    (one : (id : ℕ) → Passes P b (recall d id))
    (accrued : (network : String) (rate : ℕ ⊎ ℕ) → Passes P b (accrue_daily d network rate)) where
  pub serve-keeps : (r : Request) (w : World) → P w → P (serve d r w)
  unfolding serve
  serve-keeps (parks args) w p = kept P (park d args) w (parked args) p
  serve-keeps (recalls id) w p = kept P (recall d id) w (one id) p
  serve-keeps (recalls_for args) w p =
      kept P (recall_for_payment d args) w (recall_for_payment-Passes P b d one logged args) p
  serve-keeps (accrues network rate) w p =
      kept P (accrue_daily d network rate) w (accrued network rate) p

  pub serve_all-keeps : (rs : List Request) (w : World) → P w → P (serve_all d rs w)
  unfolding serve_all
  serve_all-keeps [] w p = p
  serve_all-keeps (r ∷ rs) w p = serve_all-keeps rs (serve d r w) (serve-keeps r w p)
