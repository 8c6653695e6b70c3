-- ===== src/Access.antt =====
-- Who may do what, and how much of it: lib/auth.ts, lib/api-errors.ts, app/api/guard.ts and
-- app/api/limits.ts.
pub mod Keys
pub mod Guard
pub mod Intake
mod Address
mod Caps
mod Tenants
mod Tests
