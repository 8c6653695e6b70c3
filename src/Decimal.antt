-- ===== src/Decimal.antt =====
-- Decimal numerals as the program writes and reads them: `bigint.toString()`, `BigInt(digits)` and
-- the string methods that lib/money.ts and lib/assets.ts use. A text is the list of its code points.
mod Values
mod Printing
mod Splitting
unfoldable pub use Values.*
unfoldable pub use Printing.*
unfoldable pub use Splitting.*
