-- ===== src/Storage.antt =====
-- src/storage: what the vault's files are written with.
pub mod FileSystem
pub mod FsOps
pub mod WikiLog
pub mod Bundle
