-- ===== src/Lib.antt =====
-- A model of okf-mcp, a server that keeps vaults of Markdown knowledge: raw sources are ingested into
-- a vault, recorded in its manifest, and compiled into wiki pages by a language model whose
-- operations are applied to the vault's files; calls of outside services are guarded.
--
-- The parts, and how they interact:
--   * Manifest (src/manifest/model.rs): the history of the versions of each source. Ingest and delete
--     record what they do in it, and the compiler asks it what is to be compiled. Manifest.antt and
--     Manifest/Entry.antt have the records and one function for each method (record_ingest, tombstone,
--     purge, mark_compiled, is_compiled_at_current_hash, record_raw_path, raw_path_for, find_version,
--     active_entries); the `HashMap` is an association list. Manifest/Steps.antt runs lists of calls.
--   * Compiler/Concurrency (src/compiler/concurrency.rs): run_bounded, which compiles sources in
--     parallel. The tasks in flight are a list, an arbitrary function chooses which one ends next, and
--     the caller's state is passed through its callback.
--   * Compiler/TokenEstimate (src/compiler/token_estimate.rs): how a prompt is cut to its budget.
--   * Compiler/Operations (src/compiler/operations.rs): apply_operations, which writes and deletes the
--     pages that the language model names, over Storage/FileSystem and the sandbox.
--   * Core/VaultResolver (src/core/vault_resolver.rs): sandbox_path, which every path of a vault goes
--     through. Paths are those of Unix.
--   * Core/VaultRegistry (src/core/vault_registry.rs) and Core/VaultLookup (resolve_vault_with of
--     src/core/vault_resolver.rs): which vault a call works on. A function says which paths are
--     directories.
--   * Storage/FsOps (src/storage/fs_ops.rs): reads and writes behind the sandbox.
--     Storage/FileSystem is the disk that these and the operations change: a map from paths to files
--     and directories, and the calls of `std::fs` with their own errors. A list of faults makes any
--     call fail, a write after any part of its text, so a run may stop anywhere.
--   * Core/CircuitBreaker (src/core/circuit_breaker.rs) and Core/RateLimiter
--     (src/core/rate_limiter.rs): the guards around outbound calls. Times are numbers; what happens
--     under one lock is one step, so overlapping calls are orders of steps.
--   * Ingest/Slug and Ingest/RawId (src/ingest/frontmatter.rs): slugs, raw ids and the names of raw
--     files. Ingest/Vault is the vault that ingest works on: the saved manifest and the files by their
--     paths, with faults that make any call fail, also the reads by which a raw file is looked for.
--     Ingest/Blob finds and writes raw files
--     (resolve_raw_path, write_raw_blob), and Ingest/Pipeline is src/ingest/pipeline.rs
--     (process_ingest, delete_source) over them and the manifest.
--   * Validator (src/validator): Wikilink scans the links of a page, Frontmatter splits a page, Rules
--     is lint_bundle over the same vault, Report its text, Fix the repair of mistyped frontmatter.
--   * Compiler/Prompts (src/compiler/prompts.rs), Compiler/Selection (the choice of sources and their
--     prompts, src/compiler/driver.rs), Compiler/Run (run_compile_sources, over run_bounded and the
--     manifest), Compiler/Index (regenerate_index), Compiler/LinkFix
--     (src/compiler/link_fix.rs: groups of broken links) and Compiler/Synthesize
--     (src/compiler/synthesize.rs: next_batch, over the lint and the selection).
--   * Core/HealthCheckManager (src/core/health_check_manager.rs): the checks that a run reports to
--     the registry of Core/ComponentRegistry.
--   * Storage/WikiLog (src/storage/wiki_log.rs) and Storage/Bundle (src/storage/bundle.rs): append
--     and write_bundle, over the vault of Ingest/Vault.
--   * Search/Rrf (src/search/rrf.rs): rrf_merge, the fusion of two rankings.
--   * Auth/AuthManager (src/auth, src/http/auth_extractor.rs): the credentials of outbound calls.
--   * Core/ConfigManager (src/core/config_manager.rs): the layers of the configuration.
--   * Core/Sanitizer (src/core/sanitizer.rs): the redaction of JSON for logs.
--   * Core/ComponentRegistry (src/core/component_registry.rs): the health of the components by name.
--   * Prelude: texts as lists of code points, the searches of Rust's iterators, maps, results.
--
-- Bounds and fuel. The failure count of the breaker wraps at 2 ^ 32; other counts are of things in
-- memory and do not wrap. The loop of run_bounded has the number of items plus one as fuel, the loop
-- that drops pages the number of pages, the decimal digits of a number the number plus one, and the
-- scanner of links the length of the text plus one: each is enough, since every round uses up an item,
-- a page, a digit or characters. The truncation markers are
-- bounded for contents of fewer than 2 ^ 64 characters.
--
-- Parameters: `canonicalize` gives the absolute path of a vault's root; the futures, the callback and
-- the order of completion of run_bounded; the settings of the breaker and the limiter; the numbers of
-- the processor; the readers and writers of YAML and URLs, the hash function, and what
-- fetches or reads a source (records Calls and Outside); the search index; the
-- compilation of one source by the language model.
--
-- Not modelled: symbolic links, Windows paths, pages that cannot be read, panics and cancelled tasks;
-- the failure of a read but for the load of the manifest in an ingest or a delete and for the lookup
-- of a raw file, which a lint, a bundle or a prompt begins with the same faults each time;
-- the case of letters outside ASCII; the parsing of JSON, TOML, YAML and document formats, SQLite, the
-- search index, the embedding model and the language model, which are outside this repository; the
-- command line, the MCP server, the explorer's pages and the transport, which are input and output;
-- and, of the program's own logic, the whole of a compile, the chunks and hashes of
-- a search index, the explorer's graph and the health checks' timer.
pub mod Prelude
pub mod Manifest
pub mod Core
pub mod Compiler
pub mod Ingest
pub mod Storage
pub mod Search
pub mod Validator
pub mod Auth
