-- ===== src/Members.antt =====
-- Members of an organisation: their data, the transfer of the ownership and their deletion,
-- internal/core/members.go.
pub mod Table
pub mod Manage
pub mod Owners
pub mod Versions
pub mod Preserve
pub mod Updates
pub mod Status
pub mod Settled
pub mod Handle
pub mod Histories
mod Samples
