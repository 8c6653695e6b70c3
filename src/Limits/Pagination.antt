-- ===== src/Limits/Pagination.antt =====
-- lib/pagination.ts: pages of a collection. A query parameter is a text, or `none` where it is
-- missing.
use settlementos.Base.{
  ℕ, ◌+◌, Bool, false, not, List, [], ◌∷◌, ltb, if◌then◌else◌, length, take, last?, Option, none,
  some, Result, ok, ◌>>=◌, ◌>>◌, throw_if,
}
use settlementos.Base.Texts.{String, str_eq}
use mathlib.Core.Option.{map}
use settlementos.Decimal.{Text, to_bigint}
use settlementos.Money.{is_digits}

abbrev pub default_page_limit : ℕ
default_page_limit = 50

abbrev pub max_page_limit : ℕ
max_page_limit = 200

-- PaginationError, by its cause.
pub data PaginationError : Type 0 where
  limit_not_canonical limit_too_small limit_too_large cursor_not_valid : PaginationError

pub record PageRequest : Type 0 where
  pub limit : ℕ
  pub cursor : Option Text

-- A parameter that is missing or empty.
abbrev pub given : Option Text → Option Text
given none = none
given (some []) = none
given (some (c ∷ s)) = some (c ∷ s)

abbrev pub parse_limit : Option Text → Result PaginationError ℕ
parse_limit none = ok default_page_limit
parse_limit (some raw) = do
  throw_if (not (is_digits raw)) limit_not_canonical
  throw_if (ltb (to_bigint raw) 1) limit_too_small
  throw_if (ltb max_page_limit (to_bigint raw)) limit_too_large
  ok (to_bigint raw)

abbrev pub too_long : Option Text → Bool
too_long none = false
too_long (some c) = ltb 200 (length c)

-- `parsePageRequest` of the parameters `limit` and `cursor`.
unfoldable pub parse_page_request : Option Text → Option Text → Result PaginationError PageRequest
parse_page_request raw_limit raw_cursor = do
  limit ← parse_limit (given raw_limit)
  throw_if (too_long (given raw_cursor)) cursor_not_valid
  ok (record { limit = limit; cursor = given raw_cursor })

-- A page. A row's id, which the caller gives, is a text.
pub record Page {ℓ} (A : Type ℓ) : Type ℓ where
  pub rows : List A
  pub next_cursor : Option String
  pub has_more : Bool

-- `toPage` of the rows fetched.
unfoldable pub to_page {ℓ} : {A : Type ℓ} → (A → String) → List A → ℕ → Page A
to_page id_of rows limit =
    let more = ltb limit (length rows) in
    let page = if more then take limit rows else rows in
    record {
      rows = page;
      next_cursor = if more then map id_of (last? page) else none;
      has_more = more;
    }

-- What the database returns after the row with an id: `cursor: { id }, skip: 1`.
unfoldable pub rows_after {ℓ} : {A : Type ℓ} → (A → String) → String → List A → List A
rows_after id_of id [] = []
rows_after id_of id (r ∷ rs) = if str_eq (id_of r) id then rs else rows_after id_of id rs

abbrev pub rows_from {ℓ} : {A : Type ℓ} → (A → String) → Option String → List A → List A
rows_from id_of none rows = rows
rows_from id_of (some id) rows = rows_after id_of id rows

-- A list route: at most one row more than the limit, from the cursor on, as a page.
unfoldable pub read_page {ℓ} : {A : Type ℓ} → (A → String) → List A → ℕ → Option String → Page A
read_page id_of rows limit cursor =
    to_page id_of (take (limit + 1) (rows_from id_of cursor rows)) limit
