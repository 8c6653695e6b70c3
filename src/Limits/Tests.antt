-- ===== src/Limits/Tests.antt =====
-- Runs of the limits on concrete requests, and the theorems there.
use settlementos.Base.{
  ◌↔◌, ◌≡◌, ◌≤◌, ◌<◌, refl, ℕ, true, false, List, [], ◌∷◌, none, some, err, arith,
}
use settlementos.Base.Texts.{String}
use settlementos.Decimal.{value}
use settlementos.Limits.Pagination.{limit_too_large, parse_page_request}
use settlementos.Limits.RateLimit.{get, set, recent, drop_aged, sweep, consume_rate_limit}
use settlementos.Limits.Walks.{walk, walk_all}
use settlementos.Limits.Windows.{consume_all, last_time}
use settlementos.Limits.Admitted.{
  admitted_times, in_window, new_limiter, options_at, window_bound, admitted_iff,
}

too_many_rows : parse_page_request (some (b'2' ∷ b'0' ∷ b'1' ∷ [])) none ≡ err limit_too_large
unfolding parse_page_request value
too_many_rows = refl

abbrev named : List String
named = "a" ∷ "b" ∷ "c" ∷ "d" ∷ "e" ∷ []

walk_all_example : walk 6 (λ (id : String). id) 2 named none ≡ named
walk_all_example =
    walk_all (λ (id : String). id) 6 2 named
      (
        (refl, (refl, (refl, (refl, tt)))),
        ((refl, (refl, (refl, tt))), ((refl, (refl, tt)), ((refl, tt), (tt, tt)))),
      )
      (omega arith) (omega arith)

abbrev visits : List (String × ℕ)
visits = ("a", 1_000) ∷ ("b", 1_100) ∷ ("a", 1_200) ∷ ("a", 1_300) ∷ ("a", 2_100) ∷ []

third_waits :
    (consume_rate_limit "a"
      (options_at 2 1_000 1_900)
      (consume_all 2 1_000 (("a", 1_000) ∷ ("a", 1_200) ∷ []) new_limiter)).0
    ≡ record { allowed = false; remaining = 0; retry_after_seconds = 1 }
unfolding consume_all consume_rate_limit get set recent sweep drop_aged
third_waits = refl

-- The third request is not admitted, and the fourth is when the first has aged out.
admitted_at : admitted_times 2 1_000 "a" visits new_limiter ≡ 1_000 ∷ 1_200 ∷ 2_100 ∷ []
unfolding admitted_times consume_rate_limit get set recent sweep drop_aged
admitted_at = refl

window_bound_example :
    in_window 1_000 (last_time 900 visits) (admitted_times 2 1_000 "a" visits new_limiter) ≤ 2
window_bound_example =
    window_bound 2 1_000 900 visits "a"
      (omega arith, (omega arith, (omega arith, (omega arith, (omega arith, tt)))))

admitted_iff_example :
    ((consume_rate_limit "a"
        (options_at 2 1_000 2_150)
        (consume_all 2 1_000 visits new_limiter)).0.allowed
      ≡ true)
    ↔ (in_window 1_000 2_150 (admitted_times 2 1_000 "a" visits new_limiter) < 2)
admitted_iff_example =
    admitted_iff 2 1_000 900 2_150 visits "a"
      (omega arith, (omega arith, (omega arith, (omega arith, (omega arith, tt))))) (omega arith)
