-- ===== src/Lib.antt =====
-- SettlementOS: the settlement core of the repository, as executable definitions, and what is
-- proved of them.
--
-- SettlementOS moves a payment from a draft to a settled, refunded or compensated transfer. A
-- request is authenticated and bounded (lib/auth.ts, app/api/guard.ts, app/api/limits.ts), and a
-- write with a key is made once (lib/idempotency.ts, app/api/idempotency.ts). A client's amount
-- enters through the money gate (lib/money.ts), is quoted by the FX engine (lib/fx.ts) and offered
-- on routes (lib/routing.ts) that look at the liquidity of the treasury (lib/treasury.ts), passes
-- compliance (lib/compliance.ts), and is then driven through escrow, payout and their failures by
-- the executor (lib/executor.ts). Every change of status is a compare-and-swap against the state
-- machine of lib/state.ts, made by lib/transitions.ts together with an event of the hash chain in
-- lib/audit.ts.
--
-- Files:
-- - Base: results (a function that throws returns `Result E A`), lists, texts and the Boolean
--   tests that the parts share.
-- - Decimal: decimal numerals and the string functions of the language that the sources call:
--   BigInt and toString, split, padStart, padEnd and slice. A text is the list of its characters'
--   codes.
-- - Money: lib/money.ts. The functions keep the names of the source: parseScaledUnits is
--   parse_scaled_units, and so on. A value of type unknown is a text or something else.
-- - Fx: lib/fx.ts. Amounts are minor units and rates are scaled by 10 ^ 18, both natural numbers,
--   as the source's bigints are never negative here.
-- - Lifecycle: lib/state.ts. PAYMENT_STATES is the type PaymentStatus, TRANSITIONS the function
--   transitions.
-- - Executor: lib/executor.ts and lib/transitions.ts. State holds one payment's row, the
--   executor's variable of it, the escrow, the transfers and the rows that hang on it; Calls is
--   the monad of code that awaits, Steps the single calls, Run the execution and its catch,
--   Recovery completing and compensating, Repair the operator's tools. A call works, is lost after
--   its effect, fails, or sends a transaction that reverts: a list of replies says which, and
--   calls past its end work. Rules and Moves are the rules to prove what a computation ensures for
--   every list of replies; Facts says what the rows and the chains have to do with each other,
--   Effects how each step of money changes that, and Safety what follows of the money. Yields and
--   Success are about runs whose calls all work.
-- - Limits: lib/rate-limit.ts, whose map is an association list, and lib/pagination.ts, where a
--   query parameter is a text or missing. Tracking and Admitted count the requests that were
--   admitted apart from what the limiter keeps; Walks has a client that follows the cursors of the
--   pages, as app/api/audit/route.ts reads them.
-- - Base.Programs: code that reads and changes a state and may throw, with the rules for what it
--   ensures; Treasury, Idempotency, Routing and Payments are written in it.
-- - Treasury: lib/treasury.ts, and of contracts/TokenizedMMF.sol the functions that it calls.
--   World holds the funds and the balances of the treasury on the chains and the rows of the
--   database; Calls is the single awaited calls, each of which works, is lost after its effect or
--   fails; Fund is the contract; Balance, Park and Recall are the functions. Requests is what the
--   module serves, one after another, with what comes in from elsewhere between them.
-- - Access: lib/auth.ts, lib/api-errors.ts, app/api/guard.ts and app/api/limits.ts: who calls, for
--   whom, from which address, and how much of a body is read.
-- - Idempotency: lib/idempotency.ts and app/api/idempotency.ts. Before each call of the database
--   come any steps of other callers and of the clock, and storing a response may fail.
-- - Networks: lib/networks.ts, lib/assets.ts, lib/wallets.ts and lib/network-selection.ts.
-- - Routing: lib/routing.ts, over the treasury's calls. quoteRoutes starts at the payment that was
--   found.
-- - Compliance: lib/compliance.ts and lib/providers. A screening is its provider's answer, or its
--   failure; the body of an answer is read as the source reads it, with no results where it has
--   none.
-- - Payments: the handlers of app/api/payments/[id]: quote, execute, review and cancel. Between
--   any two of their calls the row may become anything that others make of it. execute is composed
--   with the compliance checks, which read the row again and find its parties and their wallets in
--   an argument; what the routing and the executor end with are arguments too.
-- - Audit: lib/audit.ts. The two tables of the log are lists in the order of their ids.
--
-- Numbers are unbounded, as bigint is. Each loop of the sources runs over a list, a numeral or a
-- fixed number of attempts, and is structural recursion here. Only what prints a numeral takes
-- fuel, one round more than the number itself, which has at most as many digits; and the client
-- that walks through the pages of a list has a bound on its requests, one more than there are rows.
--
-- SHA-256 and HMAC are parameters. Where a theorem needs more of them it has a hypothesis: that
-- the digest is injective and written without a bar, which stands for collision resistance and for
-- hexadecimal output. The environment's variables are a record of settings.
--
-- Not modelled: times, the wording of error messages, the concurrency of the database (a
-- transaction is one step), the web pages, the clients of the chains but for what the executor
-- relies on, and the deployment scripts. The calls of the treasury's own functions interleave with
-- nothing inside a request; its balances are keyed by the asset's symbol, its positions stand in
-- the order of their creation and have their numbers as ids. A body that breaks off while it is
-- read, and the length of a key in UTF-16 units where it has characters beyond the first plane,
-- are left out, and so are the texts of a route that are only displayed. Digests, base64 and the
-- parsing of JSON are parameters. An audit event of the executor is its action alone. Of the
-- contract, only the states that its functions require and leave. A payout that is sent without
-- its hash coming back is marked orphaned in the model; no code reads that mark. The transfers of
-- the executor carry no amount, and the test hooks of the sources are left out.
pub mod Base
pub mod Decimal
pub mod Money
pub mod Fx
pub mod Audit
pub mod Lifecycle
pub mod Executor
pub mod Limits
pub mod Treasury
pub mod Access
pub mod Idempotency
pub mod Networks
pub mod Routing
pub mod Compliance
pub mod Payments
