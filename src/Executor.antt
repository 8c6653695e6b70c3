-- ===== src/Executor.antt =====
-- lib/executor.ts: driving an approved payment to an end, and repairing one that got stuck; and
-- lib/transitions.ts, which its status changes go through.
pub mod State
pub mod Calls
pub mod Steps
pub mod Recovery
pub mod Reserve
pub mod Run
pub mod Rules
pub mod Facts
pub mod Moves
pub mod Receipts
pub mod Recovered
pub mod Compensated
pub mod Forward
pub mod Payouts
pub mod Settling
pub mod Undoing
pub mod Undone
pub mod Executed
pub mod Repaired
pub mod Reconciled
pub mod Safety
pub mod Races
pub mod Listing
pub mod Yields
pub mod Released
pub mod Delivered
pub mod Finished
pub mod Success
mod Tests
pub mod Effects
pub mod Repair
