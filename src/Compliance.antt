-- ===== src/Compliance.antt =====
-- lib/compliance.ts and lib/providers: the checks that a payment passes before it may be approved. The
-- raw answers that are kept as evidence, and the times, are left out.
pub mod Providers
pub mod Checks
mod Clearing
pub mod Outcome
pub mod Samples
mod Tests
