-- ===== src/Idempotency.antt =====
-- lib/idempotency.ts and app/api/idempotency.ts: the records that make a retried write safe.
mod Records
mod Begin
mod Rows
mod Owner
mod Retries
mod First
mod Tests
