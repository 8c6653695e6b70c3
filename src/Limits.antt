-- ===== src/Limits.antt =====
-- What bounds the requests and the answers of the API: lib/rate-limit.ts and lib/pagination.ts.
pub mod RateLimit
pub mod Pagination
pub mod Windows
pub mod Walks
mod Tracking
mod Admitted
mod Tests
