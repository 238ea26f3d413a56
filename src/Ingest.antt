-- ===== src/Ingest.antt =====
-- src/ingest: how raw sources come into a vault.
pub mod Slug
pub mod RawId
pub mod Vault
pub mod Blob
pub mod Pipeline
