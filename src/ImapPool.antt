-- ===== src/ImapPool.antt =====
-- The IMAP connection pool of internal/mailproto/imappool/pool.go: its state and its critical
-- sections, each a function; the children hold the interleavings and what holds in all of them.
pub mod Cred
pub mod State
pub mod Conns
pub mod Watch
pub mod Frame
pub mod World
pub mod Bounds
pub mod Slots
pub mod Interleavings
pub mod Quiet
pub mod Wakeup
pub mod Epochs
pub mod Stale
mod Samples
