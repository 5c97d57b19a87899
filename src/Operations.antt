-- ===== src/Operations.antt =====
-- The queue of operations: internal/core/operations.go and internal/core/operation_controls.go. The
-- children hold the tables, the transactions that write them, and what holds in every history.
pub mod Tables
pub mod Permission
pub mod Queue
pub mod Execute
pub mod Control
pub mod History
pub mod Rows
pub mod Locks
pub mod Holders
pub mod Effects
pub mod Sound
pub mod Finish
pub mod Histories
pub mod Final
pub mod Repeat
pub mod Resend
pub mod Reply
pub mod Exclusive
pub mod Authority
mod Samples
