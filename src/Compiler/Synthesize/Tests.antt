-- ===== src/Compiler/Synthesize/Tests.antt =====
-- Batches of a small vault.
use okf_mcp_rs.Prelude.{◌≡◌, refl, ascii, text_eq, some, none, [], ◌∷◌, true, ok, split_once}
use okf_mcp_rs.Prelude.Assoc.{lookup}
use okf_mcp_rs.Prelude.Pieces.{rsplit_once, last_piece}
use okf_mcp_rs.Prelude.Sort.{sort, insert_sorted, text_leb, pair_leb}
use okf_mcp_rs.Core.VaultResolver.{
  sandbox_path, resolve_components, resolve_component, components, leading, pieces, piece, split,
  split_onto, starts_with, path_eq,
}
use okf_mcp_rs.Manifest.{empty, active_entries}
use okf_mcp_rs.Ingest.Vault.{Vault}
use okf_mcp_rs.Ingest.Blob.{name_stem}
use okf_mcp_rs.Validator.Wikilink.{extract_wikilinks, scan, is_link_text, parse_link}
use okf_mcp_rs.Validator.Frontmatter.{parse_wiki_page}
use okf_mcp_rs.Validator.Rules.{
  lint_bundle, parse_pages, content_paths, markdown_files_in, lint_pages,
}
use okf_mcp_rs.Compiler.Selection.{to_set, Outside, select_sources, raw_ids_cited_by, read_page}
use okf_mcp_rs.Compiler.LinkFix.{group_broken_links_by_slug, group_links, push_page}
use okf_mcp_rs.Compiler.Synthesize.{NextBatch, fix_phase, next_batch, fix_batch, fix_jobs}
use okf_mcp_rs.Compiler.Synthesize.Batch.{IsBatch, next_batch-IsBatch}

abbrev outside : Outside
outside = record {
  canonicalize = λ p. some (ascii "v" ∷ []);
  root = ascii "/v";
  from_yaml = λ yaml. some (record {
    okf_version = none;
    type = ascii "Concept";
    id = none;
    title = yaml;
    description = none;
    sources = [];
    tags = [];
    timestamp = none;
    status = none;
    stale_after = none;
    generated = none;
  });
  search = λ t n. [];
}

-- One page, which cites nothing and links to two pages that are not there.
abbrev vault : Vault
vault = record {
  manifest = empty;
  files = (ascii "wiki/concepts/a.md", ascii "---\nt\n---\n[[b]] [[c]]") ∷ [];
  faults = [];
}

abbrev batch : NextBatch
batch = record { phase = fix_phase; jobs = []; skipped = ascii "b" ∷ []; remaining_estimate = 1 }

first_batch : next_batch outside (λ n. []) vault 0 true 0 ≡ ok batch
unfolding next_batch select_sources active_entries fix_batch fix_jobs lint_bundle parse_pages
    content_paths markdown_files_in rsplit_once last_piece parse_wiki_page split_once name_stem
    extract_wikilinks scan is_link_text parse_link lint_pages sort insert_sorted pair_leb text_leb
    text_eq group_broken_links_by_slug group_links push_page raw_ids_cited_by to_set read_page
    sandbox_path resolve_components components leading split split_onto pieces piece
    resolve_component starts_with path_eq lookup
first_batch = refl

next_batch-IsBatch_example : IsBatch outside (λ n. []) vault 0 true batch
next_batch-IsBatch_example = next_batch-IsBatch outside (λ n. []) vault 0 0 true batch first_batch
