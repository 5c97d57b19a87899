-- ===== src/Sessions.antt =====
-- Browser sessions, internal/core/members.go from CreateSession on.
pub mod Table
pub mod History
pub mod Accounts
mod Samples
