-- ===== src/Sieve.antt =====
-- The Sieve compiler of internal/mailproto/sieve/compile.go: from structured rules and an
-- auto-reply to a script. The children hold its strings, its tests and actions, and the compiler.
pub mod Quote
pub mod Multiline
pub mod Patterns
pub mod Rules
pub mod Compile
pub mod Needs
pub mod Requires
pub mod Safety
mod Samples
