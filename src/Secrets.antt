-- ===== src/Secrets.antt =====
-- Secrets: internal/secrets/secrets.go. Strings and byte slices are lists of bytes.
pub mod Base64
pub mod RoundTrip
pub mod Box
pub mod Password
pub mod Random
mod Samples
