-- ===== src/Storage/Bundle/Tests.antt =====
-- The bundle of a vault with two sources, whose blobs are gone, and two pages.
use okf_mcp_rs.Prelude.{
  ◌≡◌, refl, Text, ascii, text_eq, Option, some, none, [], ◌∷◌, ok, split_once,
}
use okf_mcp_rs.Prelude.Assoc.{lookup, insert}
use okf_mcp_rs.Prelude.Pieces.{rsplit_once, last_piece}
use okf_mcp_rs.Prelude.Sort.{sort, insert_sorted, text_leb}
use okf_mcp_rs.Core.VaultResolver.{
  PathBuf, sandbox_path, resolve_components, resolve_component, components, leading, pieces, piece,
  split, split_onto, starts_with, path_eq,
}
use okf_mcp_rs.Manifest.{
  Manifest, empty, record_ingest, is_active, entry_ingest, opt_text_eq, raw_path_for,
  active_entries,
}
use okf_mcp_rs.Ingest.Vault.{Vault, load, raw_names, read_raw_dir, first_component, write}
use okf_mcp_rs.Ingest.Blob.{resolve_raw_path, find_raw, scan_raw, name_stem}
use okf_mcp_rs.Validator.Frontmatter.{WikiFrontmatter, parse_wiki_page}
use okf_mcp_rs.Validator.Rules.{markdown_files_in, content_paths}
use okf_mcp_rs.Storage.Bundle.{Bundle, build_bundle, bundle_concepts, write_bundle}

-- A reader that takes the frontmatter for the title.
abbrev from_yaml : Text → Option WikiFrontmatter
from_yaml yaml = some (record {
  okf_version = none;
  type = ascii "Concept";
  id = none;
  title = yaml;
  description = none;
  sources = [];
  tags = [];
  timestamp = none;
  status = none;
  stale_after = none;
  generated = none;
})

abbrev canonicalize : Text → Option PathBuf
canonicalize p = some (ascii "v" ∷ [])

abbrev manifest : Manifest
manifest =
    (record_ingest (record_ingest empty (ascii "b") (ascii "h2") (ascii "raw_2") []).0 (ascii "a")
      (ascii "h1") (ascii "raw_1") []).0

abbrev vault : Vault
vault = record {
  manifest = manifest;
  files =
      (ascii "wiki/entities/b.md", ascii "---\nB\n---\n")
      ∷ (ascii "wiki/concepts/a.md", ascii "---\nA\n---\n")
      ∷ (ascii "wiki/concepts/c.md", ascii "no frontmatter")
      ∷ [];
  faults = [];
}

abbrev bundle : Bundle
bundle = record {
  okf_version = ascii "0.2";
  concepts =
      record { id = ascii "a"; path = ascii "wiki/concepts/a.md"; title = ascii "A"; sources = [] }
      ∷ record {
        id = ascii "b";
        path = ascii "wiki/entities/b.md";
        title = ascii "B";
        sources = [];
      }
      ∷ [];
  raw_sources =
      record {
        uri = ascii "a";
        raw_id = ascii "raw_1";
        hash = ascii "h1";
        path = ascii "raw/raw_1.md";
      }
      ∷ record {
        uri = ascii "b";
        raw_id = ascii "raw_2";
        hash = ascii "h2";
        path = ascii "raw/raw_2.md";
      }
      ∷ [];
}

small_bundle : build_bundle canonicalize (ascii "/v") from_yaml vault ≡ bundle
unfolding build_bundle bundle_concepts content_paths markdown_files_in rsplit_once last_piece
    name_stem parse_wiki_page split_once sort insert_sorted text_leb text_eq active_entries
    record_ingest entry_ingest opt_text_eq lookup insert resolve_raw_path find_raw scan_raw load
    raw_path_for raw_names read_raw_dir first_component is_active
small_bundle = refl

written :
    (write_bundle canonicalize (ascii "/v") from_yaml (λ b. b.okf_version) vault).0
    ≡ ok (ascii "okf.json" ∷ ascii "v" ∷ [])
unfolding write_bundle write sandbox_path resolve_components resolve_component components leading
    pieces piece split split_onto starts_with path_eq text_eq
written = refl
