-- ===== src/Submissions.antt =====
-- Outgoing messages: internal/core/submissions.go, with the SMTP session of
-- internal/mailproto/mailops/compose.go. A message is reserved, staged as a draft, handed to the SMTP
-- server and copied to the Sent folder, across failures and restarts.
pub mod Row
pub mod Directory
pub mod Permit
pub mod Smtp
pub mod Reserve
pub mod Execute
pub mod History
pub mod Once
pub mod Sessions
pub mod Histories
pub mod Protocol
pub mod Refine
pub mod AtMostOnce
pub mod Entitled
pub mod Authority
pub mod Requests
pub mod Repeats
pub mod Delivers
pub mod Dispatch
mod Letter
mod Samples
