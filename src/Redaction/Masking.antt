-- ===== src/Redaction/Masking.antt =====
-- What the masking of a text leaves of the masked values.
pub mod Cover
pub mod Found
pub mod Scan
pub mod Known
pub mod Copied
pub mod Masked
pub mod Tiers
pub mod Merged
pub mod Redacted
pub mod Secrets
pub mod Sources
