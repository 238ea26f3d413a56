-- ===== src/Compiler.antt =====
-- src/compiler: how sources are turned into wiki pages.
pub mod Concurrency
pub mod Operations
pub mod TokenEstimate
pub mod Prompts
pub mod Selection
pub mod LinkFix
pub mod Synthesize
pub mod Run
pub mod Index
