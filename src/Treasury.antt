-- ===== src/Treasury.antt =====
-- lib/treasury.ts: idle liquidity parked in the tokenized fund of its network and recalled when a
-- payment needs it, with the functions of contracts/TokenizedMMF.sol that it calls.
pub mod State
mod Fund
pub mod Calls
pub mod Balance
mod Park
mod Recall
mod Rules
mod Passing
mod Moves
mod Requests
mod Keeping
mod Reserved
mod Shares
mod Backed
mod Accounts
mod Worth
mod Stable
mod Marks
mod Once
mod Index
mod Freed
mod Resolving
mod Covers
pub mod Worlds
mod Tests
