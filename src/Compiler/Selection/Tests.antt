-- ===== src/Compiler/Selection/Tests.antt =====
-- Small selections.
use okf_mcp_rs.Prelude.{◌≡◌, refl, Text, ascii, text_eq, some, none, [], ◌∷◌, true, split_once}
use okf_mcp_rs.Prelude.Assoc.{lookup, insert}
use okf_mcp_rs.Prelude.Pieces.{rsplit_once, last_piece, trim_start, trim_end, strip_suffix}
use okf_mcp_rs.Core.VaultResolver.{components, leading, pieces, piece, split, split_onto}
use okf_mcp_rs.Manifest.{
  empty, active_entries, is_compiled_at_current_hash, record_ingest, entry_ingest, opt_text_eq,
  is_active,
}
use okf_mcp_rs.Ingest.RawId.{raw_id_from_resource}
use okf_mcp_rs.Ingest.Vault.{Vault}
use okf_mcp_rs.Ingest.Blob.{name_stem}
use okf_mcp_rs.Validator.Frontmatter.{parse_wiki_page}
use okf_mcp_rs.Validator.Rules.{content_paths, markdown_files_in}
use okf_mcp_rs.Compiler.Selection.{Outside, select_sources, referenced_raw_ids}

-- Pages whose frontmatter is the path of their one source.
abbrev outside : Outside
outside = record {
  canonicalize = λ p. some (ascii "v" ∷ []);
  root = ascii "/v";
  from_yaml = λ yaml. some (record {
    okf_version = none;
    type = ascii "Concept";
    id = none;
    title = [];
    description = none;
    sources = record { resource = yaml; id = none; title = none } ∷ [];
    tags = [];
    timestamp = none;
    status = none;
    stale_after = none;
    generated = none;
  });
  search = λ t n. [];
}

abbrev vault_with : Text → Vault
vault_with page = record {
  manifest = (record_ingest empty (ascii "u") (ascii "h") (ascii "raw_1") []).0;
  files = (ascii "wiki/concepts/a.md", page) ∷ [];
  faults = [];
}

-- A source that a page cites is not compiled again.
cited : select_sources outside (vault_with (ascii "---\n/raw/raw_1.md\n---\n")) true ≡ []
unfolding select_sources referenced_raw_ids active_entries record_ingest entry_ingest opt_text_eq
    lookup insert is_active text_eq content_paths markdown_files_in rsplit_once last_piece
    parse_wiki_page split_once components leading split split_onto pieces piece name_stem
    is_compiled_at_current_hash
cited = refl

-- It is when the page cites it by the name that its file has, which carries the same raw id.
cited_with_slug :
    select_sources outside (vault_with (ascii "---\n/raw/raw_1--t.md\n---\n")) true
    ≡ (ascii "u", ascii "raw_1") ∷ []
unfolding select_sources referenced_raw_ids active_entries record_ingest entry_ingest opt_text_eq
    lookup insert is_active text_eq content_paths markdown_files_in rsplit_once last_piece
    parse_wiki_page split_once components leading split split_onto pieces piece name_stem
    is_compiled_at_current_hash
cited_with_slug = refl

same_raw_id : raw_id_from_resource (ascii "/raw/raw_1--t.md") ≡ some (ascii "raw_1")
unfolding raw_id_from_resource trim_start trim_end last_piece strip_suffix split_once text_eq
same_raw_id = refl
