-- ===== src/Payments.antt =====
-- app/api/payments: the handlers of one payment, past the check of the caller and the limits, with the
-- steps of other requests between their calls.
pub mod Rows
pub mod Handlers
mod Passing
mod Gate
mod Tests
