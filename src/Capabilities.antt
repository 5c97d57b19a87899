-- ===== src/Capabilities.antt =====
-- What a member may do with a connection or a mailbox, and whether it works: `ObjectCapabilities` of
-- internal/core/capabilities.go, which the browser asks before it offers an action.
pub mod State
pub mod Allow
pub mod Compute
pub mod Offered
pub mod Sound
mod Samples
