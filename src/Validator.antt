-- ===== src/Validator.antt =====
-- src/validator: the checks of a vault's wiki.
pub mod Wikilink
pub mod Frontmatter
pub mod Rules
pub mod Fix
pub mod Report
