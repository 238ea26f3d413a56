-- ===== src/Search.antt =====
-- src/search: the merging of the two ranked lists.
pub mod Rrf
