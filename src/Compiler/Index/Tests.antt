-- ===== src/Compiler/Index/Tests.antt =====
-- The index of a small vault.
use okf_mcp_rs.Prelude.{
  ◌≡◌, refl, Text, ascii, text_eq, Option, some, none, [], ◌∷◌, ok, split_once,
}
use okf_mcp_rs.Prelude.Assoc.{lookup, insert}
use okf_mcp_rs.Prelude.Pieces.{rsplit_once, last_piece}
use okf_mcp_rs.Prelude.Sort.{sort, insert_sorted, text_leb}
use okf_mcp_rs.Core.VaultResolver.{
  PathBuf, sandbox_path, resolve_components, resolve_component, components, leading, pieces, piece,
  split, split_onto, starts_with, path_eq,
}
use okf_mcp_rs.Manifest.{empty}
use okf_mcp_rs.Ingest.Vault.{Vault, create_parent, write}
use okf_mcp_rs.Validator.Frontmatter.{WikiFrontmatter, parse_wiki_page}
use okf_mcp_rs.Validator.Rules.{markdown_files_in}
use okf_mcp_rs.Compiler.Index.{
  index_heading_for_kind, index_entries, entry_leb, entry_lines, section, sections, index_text,
  index_path, write_page, ensure_wiki_schema, regenerate_index,
}
use okf_mcp_rs.Compiler.Index.Fixpoint.{regenerate_index_fixpoint}

-- A reader that takes the frontmatter for the title.
abbrev from_yaml : Text → Option WikiFrontmatter
from_yaml yaml = some (record {
  okf_version = none;
  type = ascii "Concept";
  id = none;
  title = yaml;
  description = none;
  sources = [];
  tags = [];
  timestamp = none;
  status = none;
  stale_after = none;
  generated = none;
})

abbrev canonicalize : Text → Option PathBuf
canonicalize p = some (ascii "v" ∷ [])

abbrev vault : Vault
vault = record {
  manifest = empty;
  files =
      (ascii "wiki/concepts/b.md", ascii "---\nB\n---\n")
      ∷ (ascii "wiki/concepts/a.md", ascii "---\nA\n---\n")
      ∷ (ascii "wiki/index.md", ascii "old")
      ∷ [];
  faults = [];
}

small_index :
    index_text from_yaml vault.files
    ≡ ascii
        "---\nokf_version: \"0.2\"\n---\n\n# Wiki Index\n\n## Concepts\n\n- [A](wiki/concepts/a.md)\n- [B](wiki/concepts/b.md)\n"
unfolding index_text sections section index_heading_for_kind index_entries entry_lines entry_leb
    sort insert_sorted text_leb text_eq markdown_files_in rsplit_once last_piece parse_wiki_page
    split_once
small_index = refl

abbrev indexed : Vault
indexed = record vault {
  files =
      (ascii "wiki/concepts/b.md", ascii "---\nB\n---\n")
      ∷ (ascii "wiki/concepts/a.md", ascii "---\nA\n---\n")
      ∷ (ascii "wiki/index.md", index_text from_yaml vault.files)
      ∷ (ascii "wiki/schema.md", ascii "schema")
      ∷ [];
}

one_run :
    regenerate_index canonicalize (ascii "/v") (ascii "schema") from_yaml vault ≡ (ok tt, indexed)
unfolding regenerate_index ensure_wiki_schema write_page create_parent write lookup insert text_eq
    sandbox_path resolve_components resolve_component components leading pieces piece split
    split_onto starts_with path_eq index_text sections section index_heading_for_kind index_entries
    entry_lines entry_leb sort insert_sorted text_leb markdown_files_in rsplit_once last_piece
    parse_wiki_page split_once
one_run = refl

regenerate_index_fixpoint_example :
    lookup index_path indexed.files ≡ some (index_text from_yaml indexed.files)
regenerate_index_fixpoint_example =
    regenerate_index_fixpoint canonicalize (ascii "/v") (ascii "schema") from_yaml vault indexed
      one_run
