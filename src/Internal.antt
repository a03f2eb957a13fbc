-- ===== src/Internal.antt =====
-- The package internal of the repository.
pub mod NonRandomReader
pub mod LineDiff
pub mod Redact
pub mod SecretSink
pub mod SafeMapFs
