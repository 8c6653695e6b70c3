-- ===== src/Audit.antt =====
-- lib/audit.ts: the hash-chained audit log with its signed checkpoints. SHA-256, HMAC and the
-- comparison of buffers are the platform's, so the first two are parameters; a hashed text is the
-- list of its code points.
mod Log
pub mod Verify
pub mod Chain
pub mod Append
pub mod Sound
pub mod Anchor
pub mod Tamper
pub mod Edits
mod Tests
pub use Log.{AuditEvent, Checkpoint, AuditLog, Entry, Digests, Settings}
unfoldable pub use Log.*
